-- ===== src/Commands/Stop/Teardown.antt =====
-- What `cf dev stop` does on every host.
use cfdev.Common.{
  ◌≡◌, refl, String, Bool, true, false, Option, none, some, List, [], ◌∷◌, if◌then◌else◌,
}
use cfdev.Errors.{Error, safe_wrap}
use cfdev.Runtime.{
  Call, event, check_requirements, analyticsd_stop, analyticsd_destroy, vm_stop, vm_destroy,
  vpnkit_stop, vpnkit_destroy, remove_aliases, cfdevd_uninstall, World, Result, ok, err, ◌>>=◌,
  pure, raise,
}
use cfdev.Commands.Stop.{note, finish, run_e}

-- The parts to take down, each with the message of its failure.
abbrev pub parts : Bool → List (Call × String)
parts darwin =
    (analyticsd_stop, "failed to stop analyticsd")
    ∷ (analyticsd_destroy, "failed to destroy analyticsd")
    ∷ (vm_stop, "failed to stop the VM")
    ∷ (vm_destroy, "failed to destroy the VM")
    ∷ (vpnkit_stop, "failed to stop vpnkit")
    ∷ (vpnkit_destroy, "failed to destroy vpnkit")
    ∷ (remove_aliases, "failed to remove IP aliases")
    ∷ (if darwin then (cfdevd_uninstall, "failed to uninstall cfdevd") ∷ [] else [])

-- All parts tried in turn.
abbrev pub history_after : List (Call × String) → List Call → List Call
history_after [] h = h
history_after ((c, msg) ∷ ps) h = history_after ps (c ∷ h)

-- The last failure, wrapped with the message of its part.
abbrev pub last_failure : World → List (Call × String) → List Call → Option Error → Option Error
last_failure w [] h before = before
last_failure w ((c, msg) ∷ ps) h before =
    last_failure w ps (c ∷ h)
      (elim (w.fails h c) [ none ↦ before | some e ↦ some (safe_wrap e msg) ])

-- What the command returns for it.
abbrev pub reported : Option Error → Result (Unit {0})
reported none = ok tt
reported (some e) = err (safe_wrap e "cf dev stop")

finish_lem : (reterr : Option Error) (h : List Call) → finish reterr h ≡ (reported reterr, h)
unfolding finish pure raise
finish_lem none h = refl
finish_lem (some e) h = refl

-- When the host meets the requirements, every part is tried, in order, whatever fails before it, and
-- the command reports the last failure, or none.
pub run_e-parts :
    (w : World) (darwin : Bool) (h : List Call)
    → w.fails (event "stop" ∷ h) check_requirements ≡ none
    → let started = check_requirements ∷ event "stop" ∷ h in
      run_e w darwin h ≡ (
        reported (last_failure w (parts darwin) started none),
        history_after (parts darwin) started,
      )
unfolding run_e note ◌>>=◌
run_e-parts w true h met = rw met (finish_lem _ _)
run_e-parts w false h met = rw met (finish_lem _ _)

-- When the host does not meet the requirements, nothing is touched and that error is returned.
pub run_e_refused :
    (w : World) (darwin : Bool) (h : List Call) (e : Error)
    → w.fails (event "stop" ∷ h) check_requirements ≡ some e
    → run_e w darwin h ≡ (err e, check_requirements ∷ event "stop" ∷ h)
unfolding run_e ◌>>=◌
run_e_refused w darwin h e refused = rw refused
