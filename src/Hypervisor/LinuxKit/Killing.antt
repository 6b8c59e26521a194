-- ===== src/Hypervisor/LinuxKit/Killing.antt =====
-- Which processes `SafeKill` of hypervisor/safe_kill_darwin.go kills, and what `Stop` of
-- hypervisor/linuxkit.go returns.
use cfdev.Common.{
  ◌≡◌, ◌↔◌, ◌∙◌, zero, suc, refl, sym, ap, inl, inr, String, Bool, true, false, Option, none, some,
  List, [], ◌∷◌, Option-cases,
}
use cfdev.Common.Decimal.{atoi}
use cfdev.Common.Int.{ℤ, pos, negsuc}
use cfdev.Common.Text.{codes, contains}
use cfdev.Configuration.{Config}
use cfdev.Errors.{Error}
use cfdev.Runtime.{Result, ok, err, ◌>>=◌, pure, raise, continue}
use cfdev.System.{
  System, Op, Fault, missing, other, read_file, remove, proc_pidpath, kill, step, ignoring,
}
use cfdev.Daemons.{DaemonRunner}
use cfdev.Hypervisor.LinuxKit.{
  linuxkit_label, last_error, c_int, path_result, executable_path, kill_if, kill_process, kill_text,
  after_read, safe_kill, pidfile, stop,
}

module _ (s : System) (name : String) where
  -- The operation just before was to look up the program of the process, and its path holds the
  -- name.
  abbrev pub LookedUp : ℤ → List Op → Type 0
  LookedUp pid [] = ⊥
  LookedUp pid (o ∷ h) =
      (o ≡ proc_pidpath (c_int pid)) × (contains (codes (s.output h o)) (codes name) ≡ true)

  -- Every process that was killed had just been looked up so.
  abbrev pub Guarded : List Op → Type 0
  Guarded [] = Unit
  Guarded (kill pid ∷ h) = LookedUp pid h × Guarded h
  Guarded (o ∷ h) = Guarded h

  -- A process without a program has the empty path, which does not hold a name.
  of_result :
      (n : ℤ) (out path : String)
      → contains (codes "") (codes name) ≡ false
      → path_result n out ≡ ok path
      → contains (codes path) (codes name) ≡ true
      → contains (codes out) (codes name) ≡ true
  unfolding path_result
  of_result (pos zero) out path proper e c =
      let e' : path ≡ "" = cc e in
      cc (ap (λ (p : String). contains (codes p) (codes name)) e', proper, c)
  of_result (pos (suc n)) out path proper e c =
      let e' : path ≡ out = cc e in
      sym (ap (λ (p : String). contains (codes p) (codes name)) e') ∙ c
  of_result (negsuc n) out path proper e c = cc e

  module _ (proper : contains (codes "") (codes name) ≡ false) where
    path-LookedUp :
        (pid : ℤ) (h : List Op) (path : String)
        → (executable_path s pid h).0 ≡ ok path
        → contains (codes path) (codes name) ≡ true
        → LookedUp pid (executable_path s pid h).1
    unfolding executable_path
    path-LookedUp pid h path e c = (refl, of_result _ _ path proper e c)

    looked : (pid : ℤ) (h : List Op) → Guarded h → Guarded (executable_path s pid h).1
    unfolding executable_path
    looked pid h g = g

    killed_if :
        (b : Bool) (pid : ℤ) (h : List Op)
        → (b ≡ true → LookedUp pid h)
        → Guarded h
        → Guarded (kill_if s b pid h).1
    unfolding kill_if ◌>>=◌ ignoring
    killed_if true pid h l g = (l refl, g)
    killed_if false pid h l g = g

    removed :
        (file : String) (r : Result (Unit {0})) (h : List Op)
        → Guarded h
        → Guarded (continue r (λ u. step s (remove file)) h).1
    unfolding step
    removed file (ok tt) h g = g
    removed file (err e) h g = g

    process_killed :
        (file : String) (pid : ℤ) (h : List Op) (r : Result String)
        → (executable_path s pid h).0 ≡ r
        → Guarded h
        → Guarded (kill_process s file name pid h).1
    unfolding kill_process ◌>>=◌
    process_killed file pid h (err e) q g = rw q (looked pid h g)
    process_killed file pid h (ok path) q g =
        let b = contains (codes path) (codes name) in
        let h' = (executable_path s pid h).1 in
        rw q (
          removed file (kill_if s b pid h').0 (kill_if s b pid h').1
            (killed_if b pid h' (path-LookedUp pid h path q) (looked pid h g)))

    text_killed :
        (file text : String) (h : List Op) → Guarded h → Guarded (kill_text s file name text h).1
    unfolding kill_text raise
    text_killed file text h g = elim (Option-cases (atoi text)) [
      | inl e ↦ rw (e, kill_text) g
      | inr (pid, e) ↦
          rw (e, kill_text) (process_killed file pid h (executable_path s pid h).0 refl g)
    ]

    -- Every process that `SafeKill` kills was looked up just before, and its program's path held
    -- the name: for a name that is not empty, and whatever the pid file says.
    pub safe_kill-Guarded :
        (file : String) (h : List Op) → Guarded h → Guarded (safe_kill s file name h).1
    unfolding safe_kill
    safe_kill-Guarded file h g = after (s.fault h (read_file file))
      where
        after :
            (f : Option Fault)
            → Guarded
                (after_read s file name f (s.output h (read_file file)) (read_file file ∷ h)).1
        after none = unfold after_read in text_killed file _ (read_file file ∷ h) g
        after (some (missing t)) = unfold after_read in unfold pure in g
        after (some (other t)) = unfold after_read in unfold raise in g

-- What the two parts of `Stop` return.
last_error-ok : (a b : Result (Unit {0})) → (last_error a b ≡ ok tt) ↔ ((a ≡ ok tt) × (b ≡ ok tt))
unfolding last_error
last_error-ok a (ok tt) = ((λ e. (e, refl)), (λ e. e.0))
last_error-ok a (err x) = ((λ e. cc e), (λ e. cc (e.1)))

-- `Stop` of the virtual machine always goes on to the process of the pid file, after whatever
-- stopping the daemon came to. It returns no error exactly if both parts returned none, and of two
-- errors the one of the kill.
pub stop_lem :
    (s : System) (runner : DaemonRunner) (c : Config) (vm_name : String) (h : List Op)
    → let stopped = runner.stop linuxkit_label h in
      let killed = safe_kill s (pidfile c) "hyperkit" stopped.1 in
      ((stop s runner c vm_name h).1 ≡ killed.1)
      × (((stop s runner c vm_name h).0 ≡ ok tt) ↔ ((stopped.0 ≡ ok tt) × (killed.0 ≡ ok tt)))
      × ((e : Error) → killed.0 ≡ err e → (stop s runner c vm_name h).0 ≡ err e)
unfolding stop last_error
stop_lem s runner c vm_name h = (refl, last_error-ok _ _, λ e k. rw k refl)
