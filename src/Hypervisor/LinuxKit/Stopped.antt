-- ===== src/Hypervisor/LinuxKit/Stopped.antt =====
-- `Stop` and `IsRunning` of hypervisor/linuxkit.go together, over any daemon runner.
use cfdev.Common.{
  ◌≡◌, ◌≢◌, inl, inr, String, Bool, true, false, Option, none, some, List, ◌∷◌, Option-cases,
  if◌then◌else◌,
}
use cfdev.Common.Decimal.{atoi}
use cfdev.Common.Int.{ℤ}
use cfdev.Common.Text.{codes, contains}
use cfdev.Configuration.{Config}
use cfdev.Runtime.{ok, pure}
use cfdev.System.{
  System, Op, Fault, missing, other, read_file, remove, proc_pidpath, kill, ignoring,
}
use cfdev.System.Preserves.{
  Preserves, Preserves-pure, Preserves-raise, Preserves-bind, Preserves-if, Preserves-step,
}
use cfdev.System.Leads.{Preserves-ignoring}
use cfdev.Daemons.{DaemonRunner}
use cfdev.Daemons.Contract.{Registry, Implements}
use cfdev.Hypervisor.LinuxKit.{
  linuxkit_label, executable_path, kill_if, kill_process, kill_text, after_read, safe_kill, pidfile,
  stop, is_running,
}
use cfdev.Hypervisor.LinuxKit.Killing.{stop_lem}

-- The operations on the processes and the files that `SafeKill` makes.
pub data IsLocal : Op → Type 0 where
  reads : (path : String) → IsLocal (read_file path)
  looks_up : (pid : ℤ) → IsLocal (proc_pidpath pid)
  kills : (pid : ℤ) → IsLocal (kill pid)
  removes : (path : String) → IsLocal (remove path)

module _ (s : System) (Q : List Op → Type 0)
    (keep : (o : Op) (h : List Op) → IsLocal o → Q h → Q (o ∷ h)) where
  Preserves-kill_if : (b : Bool) (pid : ℤ) → Preserves Q (kill_if s b pid)
  unfolding kill_if
  Preserves-kill_if b pid =
      Preserves-bind Q (if b then ignoring s (kill pid) else pure "") _
        (Preserves-if Q b (ignoring s (kill pid)) (pure "")
          (Preserves-ignoring Q s (kill pid) (λ h q. keep (kill pid) h (kills pid) q))
          (Preserves-pure Q ""))
        (λ t. Preserves-pure Q tt)

  Preserves-executable_path : (pid : ℤ) → Preserves Q (executable_path s pid)
  unfolding executable_path
  Preserves-executable_path pid h q = keep (proc_pidpath _) h (looks_up _) q

  Preserves-kill_process :
      (file name : String) (pid : ℤ) → Preserves Q (kill_process s file name pid)
  unfolding kill_process
  Preserves-kill_process file name pid =
      Preserves-bind Q (executable_path s pid) _ (Preserves-executable_path pid) (λ path.
        Preserves-bind Q (kill_if s (contains (codes path) (codes name)) pid) _
          (Preserves-kill_if (contains (codes path) (codes name)) pid)
          (λ u. Preserves-step Q s (remove file) (λ h q. keep (remove file) h (removes file) q)))

  Preserves-kill_text : (file name text : String) → Preserves Q (kill_text s file name text)
  unfolding kill_text
  Preserves-kill_text file name text h q = elim (Option-cases (atoi text)) [
    | inl e ↦ rw (e, kill_text) (Preserves-raise Q (Unit {0}) _ h q)
    | inr (pid, e) ↦ rw (e, kill_text) (Preserves-kill_process file name pid h q)
  ]

  Preserves-after_read :
      (file name : String) (f : Option Fault) (text : String)
      → Preserves Q (after_read s file name f text)
  unfolding after_read
  Preserves-after_read file name none text = Preserves-kill_text file name text
  Preserves-after_read file name (some (missing t)) text = Preserves-pure Q tt
  Preserves-after_read file name (some (other t)) text = Preserves-raise Q (Unit {0}) _

  -- What these operations keep is kept by `SafeKill`.
  Preserves-safe_kill : (file name : String) → Preserves Q (safe_kill s file name)
  unfolding safe_kill
  Preserves-safe_kill file name h q =
      Preserves-after_read file name (s.fault h (read_file file)) _ (read_file file ∷ h)
        (keep (read_file file) h (reads file) q)

-- After a `Stop` without an error, of a machine that the runner could answer for, `IsRunning` does
-- not answer that it runs: for every daemon runner that keeps its promises, where the operations of
-- `SafeKill` start no daemon.
pub is_running-stop :
    (s : System) (runner : DaemonRunner) (c : Config) (y : Registry)
    → Implements runner y
    → y.IsName linuxkit_label
    → ((o : Op) (h : List Op)
        → IsLocal o
        → y.runs h linuxkit_label ≡ false
        → y.runs (o ∷ h) linuxkit_label ≡ false)
    → (vm_name : String) (h : List Op) (before : Bool)
    → (is_running s runner c vm_name h).0 ≡ ok before
    → (stop s runner c vm_name h).0 ≡ ok tt
    → (is_running s runner c vm_name (stop s runner c vm_name h).1).0 ≢ ok true
unfolding is_running
is_running-stop s runner c y kept named idle vm_name h before asked e answered =
    let (ends, both, failed) = stop_lem s runner c vm_name h in
    let stopped = kept.stops linuxkit_label h before named asked ((both.0 e).0) in
    let down =
      Preserves-safe_kill s (λ k. y.runs k linuxkit_label ≡ false) idle (pidfile c) "hyperkit"
        (runner.stop linuxkit_label h).1 stopped in
    let told : true ≡ y.runs (stop s runner c vm_name h).1 linuxkit_label =
      (kept.answers linuxkit_label (stop s runner c vm_name h).1 true named answered).0 in
    let silent : y.runs (stop s runner c vm_name h).1 linuxkit_label ≡ false = rw ends down in
    cc (told, silent)
