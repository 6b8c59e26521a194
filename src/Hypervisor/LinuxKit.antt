-- ===== src/Hypervisor/LinuxKit.antt =====
-- hypervisor/linuxkit.go and hypervisor/safe_kill_darwin.go: the virtual machine of macOS.
pub mod Killing
pub mod Stopped
pub mod Examples
use cfdev.Common.{
  ℕ, zero, suc, ◌-◌, ◌%◌, ◌^◌, ltb, String, ◌<>◌, Bool, true, false, Option, none, some, List, [],
  ◌∷◌, if◌then◌else◌,
}
use cfdev.Common.Decimal.{show_int, atoi}
use cfdev.Common.Int.{ℤ, pos, negsuc}
use cfdev.Common.Paths.{join_with, join_path}
use cfdev.Common.Text.{codes, contains}
use cfdev.Configuration.{Config}
use cfdev.Errors.{Error, plain}
use cfdev.Runtime.{Result, ok, err, ◌>>=◌, ◌>>◌, pure, raise}
use cfdev.System.{
  System, Op, Run, Fault, missing, other, read_file, remove, proc_pidpath, kill, sleep, send, step,
  reading, ignoring, observing,
}
use cfdev.Daemons.{DaemonSpec, DaemonRunner}
use cfdev.Hypervisor.{Vm}

-- `LinuxKitLabel`
abbrev pub linuxkit_label : String
linuxkit_label = "org.cloudfoundry.cfdev.linuxkit"

abbrev disk_args : String → String
disk_args qcowtool = join_with "," (
    "type=qcow"
    ∷ "size=80G"
    ∷ "trim=true"
    ∷ ("qcow-tool=" <> qcowtool)
    ∷ "qcow-onflush=os"
    ∷ "qcow-compactafter=262144"
    ∷ "qcow-keeperased=262144"
    ∷ [])

-- `DaemonSpec`
daemon_spec : Config → ℤ → ℤ → DaemonSpec
unfolding show_int
daemon_spec c cpus mem =
    let linuxkit = join_path (c.cache_dir ∷ "linuxkit" ∷ []) in
    let sock = join_path (c.vpnkit_state_dir ∷ "vpnkit_eth.sock" ∷ []) in
    let port = join_path (c.vpnkit_state_dir ∷ "vpnkit_port.sock" ∷ []) in
    record {
      label = linuxkit_label;
      program = linuxkit;
      session_type = "Background";
      program_arguments =
          linuxkit
          ∷ "run"
          ∷ "hyperkit"
          ∷ "-console-file"
          ∷ "-cpus"
          ∷ show_int cpus
          ∷ "-mem"
          ∷ show_int mem
          ∷ "-hyperkit"
          ∷ join_path (c.cache_dir ∷ "hyperkit" ∷ [])
          ∷ "-networking"
          ∷ ("vpnkit," <> sock <> "," <> port)
          ∷ "-fw"
          ∷ join_path (c.cache_dir ∷ "UEFI.fd" ∷ [])
          ∷ "-disk"
          ∷ disk_args (join_path (c.cache_dir ∷ "qcow-tool" ∷ []))
          ∷ "-state"
          ∷ c.state_linuxkit
          ∷ "-uefi"
          ∷ join_path (c.cache_dir ∷ "cfdev-efi-v2.iso" ∷ [])
          ∷ [];
      run_at_load = false;
      sockets = [];
      stdout_path = join_path (c.log_dir ∷ "linuxkit.stdout.log" ∷ []);
      stderr_path = join_path (c.log_dir ∷ "linuxkit.stderr.log" ∷ []);
    }

pub pidfile : Config → String
pidfile c = join_path (c.state_linuxkit ∷ "hyperkit.pid" ∷ [])

-- The error that is returned, once the first step came to one and the second to the other.
pub last_error : Result (Unit {0}) → Result (Unit {0}) → Result (Unit {0})
last_error first (ok _) = first
last_error first (err e) = err e

-- `C.int`, of 32 bits.
wrap : ℕ → ℤ
wrap m = if ltb m (2 ^ 31) then pos m else negsuc (2 ^ 32 - 1 - m)

pub c_int : ℤ → ℤ
unfolding wrap
c_int (pos n) = wrap (n % 2 ^ 32)
c_int (negsuc n) = wrap (2 ^ 32 - 1 - n % 2 ^ 32)

-- The path that `C.proc_pidpath` left, by the number that it returned.
pub path_result : ℤ → String → Result String
path_result (pos zero) path = ok ""
path_result (pos (suc n)) path = ok path
path_result (negsuc n) path = err (plain "cannot allocate memory")

module _ (s : System) where
  -- `executablePath`
  pub executable_path : ℤ → Run String
  unfolding c_int path_result
  executable_path pid h =
      let o = proc_pidpath (c_int pid) in (path_result (s.count h o) (s.output h o), o ∷ h)

  pub kill_if : Bool → ℤ → Run (Unit {0})
  unfolding ignoring
  kill_if is_named pid = do if is_named then ignoring s (kill pid) else pure ""; pure tt

  pub kill_process : String → String → ℤ → Run (Unit {0})
  unfolding executable_path kill_if step
  kill_process file name pid = do
    path ← executable_path pid
    kill_if (contains (codes path) (codes name)) pid
    step s (remove file)

  pub kill_text : String → String → String → Run (Unit {0})
  unfolding kill_process
  kill_text file name text = elim (atoi text) [
    | none ↦ raise (plain (s.number_error text))
    | some pid ↦ kill_process file name pid
  ]

  pub after_read : String → String → Option Fault → String → Run (Unit {0})
  unfolding kill_text
  after_read file name none text = kill_text file name text
  after_read file name (some (missing t)) text = pure tt
  after_read file name (some (other t)) text = raise (plain t)

  -- `SafeKill`
  pub safe_kill : String → String → Run (Unit {0})
  unfolding after_read
  safe_kill file name h =
      after_read file name (s.fault h (read_file file)) (s.output h (read_file file))
        (read_file file ∷ h)

  module _ (runner : DaemonRunner) (c : Config) where
    -- `CreateVM`
    create_vm : Vm → Run (Unit {0})
    unfolding daemon_spec
    create_vm vm = runner.add_daemon (daemon_spec c vm.cpus vm.memory_mb)

    -- `Start`
    start : String → Run (Unit {0})
    start vm_name = runner.start linuxkit_label

    -- `Stop`
    pub stop : String → Run (Unit {0})
    unfolding safe_kill pidfile last_error
    stop vm_name h =
        let stopped = runner.stop linuxkit_label h in
        let killed = safe_kill (pidfile c) "hyperkit" stopped.1 in
        (last_error stopped.0 killed.0, killed.1)

    -- `Destroy`
    destroy : String → Run (Unit {0})
    destroy vm_name = runner.remove_daemon linuxkit_label

    -- `IsRunning`
    pub is_running : String → Run Bool
    is_running vm_name = runner.is_running linuxkit_label
