-- ===== src/Commands/Stop/Order.antt =====
-- `cf dev stop` within a protocol, for the commands that run it.
use cfdev.Common.{
  ◌≡◌, refl, String, Bool, true, false, Option, none, some, List, ◌∷◌, ◌++◌, if◌then◌else◌,
}
use cfdev.Errors.{Error}
use cfdev.Runtime.{
  Call, event, check_requirements, analyticsd_stop, analyticsd_destroy, vm_stop, vm_destroy,
  vpnkit_stop, vpnkit_destroy, remove_aliases, cfdevd_uninstall, World, pure,
}
use cfdev.Runtime.Protocol.{Kind, kind, covers, requirements_checked, cfdevd_uninstalled}
use cfdev.Runtime.Keeps.{
  Keeps, Keeps-call, Keeps-ignoring, after_attempt, Keeps-attempt, Keeps-return, Keeps-pure,
  Keeps-raise, Keeps-bind, Keeps-after,
}
use cfdev.Runtime.Steps.{chain}
use cfdev.Commands.Protocol.{host_ready, torn_down, start_requires, InOrder}
use cfdev.Commands.Stop.{note, finish, step, run_e}

-- What has surely succeeded: all of it while no failure was noted, and the base in any case.
abbrev pub gate : List Kind → List Kind → Option Error → List Kind
gate base ks none = ks
gate base ks (some e) = base

module _ (w : World) (requires : Kind → List Kind) (base : List Kind) where
  module _ (ks : List Kind) (c : Call) (msg : String) (less : covers base ks ≡ true) where
    noted_none :
        (failed : Option Error)
        → Keeps w requires
            (after_attempt w requires (kind c) ks failed)
            (pure (note msg none failed))
            (gate base (kind c ∷ ks))
    unfolding note
    noted_none none = Keeps-return w requires none (gate base (kind c ∷ ks))
    noted_none (some e) = Keeps-pure w requires ks _ (gate base (kind c ∷ ks)) less

  noted_some :
      (ks : List Kind) (c : Call) (msg : String) (e : Error) (failed : Option Error)
      → covers base (kind c ∷ base) ≡ true
      → covers base base ≡ true
      → Keeps w requires
          (after_attempt w requires (kind c) base failed)
          (pure (note msg (some e) failed))
          (gate base (kind c ∷ ks))
  unfolding note
  noted_some ks c msg e none more same =
      Keeps-pure w requires (kind c ∷ base) _ (gate base (kind c ∷ ks)) more
  noted_some ks c msg e (some x) more same =
      Keeps-pure w requires base _ (gate base (kind c ∷ ks)) same

  step-Keeps :
      (ks : List Kind) (c : Call) (msg : String) (reterr : Option Error)
      → covers (requires (kind c)) ks ≡ true
      → covers (requires (kind c)) base ≡ true
      → covers base ks ≡ true
      → covers base (kind c ∷ base) ≡ true
      → covers base base ≡ true
      → Keeps w requires (gate base ks reterr) (step w c msg reterr) (gate base (kind c ∷ ks))
  unfolding step
  step-Keeps ks c msg none allowed always less more same =
      Keeps-bind w requires _ _ _ (noted_none ks c msg less) _ _
        (Keeps-attempt w requires ks c allowed)
  step-Keeps ks c msg (some e) allowed always less more same =
      Keeps-bind w requires _ _ _ (λ failed. noted_some ks c msg e failed more same) _ _
        (Keeps-attempt w requires base c always)

module _ (w : World) where
  part :
      (ks : List Kind) (c : Call) (msg : String) (reterr : Option Error)
      → covers (start_requires (kind c)) ks ≡ true
      → covers (start_requires (kind c)) host_ready ≡ true
      → covers host_ready ks ≡ true
      → covers host_ready (kind c ∷ host_ready) ≡ true
      → InOrder w (gate host_ready ks reterr) (step w c msg reterr) (gate host_ready (kind c ∷ ks))
  unfolding covers
  part ks c msg reterr allowed always less more =
      step-Keeps w start_requires host_ready ks c msg reterr allowed always less more refl

  finish-InOrder :
      (ks : List Kind) (reterr : Option Error)
      → covers torn_down ks ≡ true
      → InOrder w (gate host_ready ks reterr) (finish reterr) (λ _. torn_down)
  unfolding finish
  finish-InOrder ks none all = Keeps-pure w start_requires ks tt (λ _. torn_down) all
  finish-InOrder ks (some e) all = Keeps-raise w start_requires host_ready _ (λ _. torn_down)

  abbrev all_down : List Kind
  all_down = torn_down ++ requirements_checked ∷ host_ready

  fewer_noted :
      (e : Option Error)
      → covers (gate host_ready all_down e) (gate host_ready (cfdevd_uninstalled ∷ all_down) e)
        ≡ true
  unfolding covers
  fewer_noted none = refl
  fewer_noted (some e) = refl

  helper-InOrder :
      (darwin : Bool) (reterr : Option Error)
      → InOrder w
          (gate host_ready all_down reterr)
          (if darwin
            then step w cfdevd_uninstall "failed to uninstall cfdevd" reterr
            else pure reterr)
          (gate host_ready all_down)
  unfolding covers
  helper-InOrder true reterr =
      Keeps-after w start_requires _ _ _ _ fewer_noted
        (part all_down cfdevd_uninstall _ reterr refl refl refl refl)
  helper-InOrder false reterr = Keeps-return w start_requires reterr (gate host_ready all_down)

  -- In a start, a teardown that returns no error has taken down every part.
  pub run_e-InOrder : (darwin : Bool) → InOrder w host_ready (run_e w darwin) (λ _. torn_down)
  unfolding run_e covers
  run_e-InOrder darwin = chain (Keeps-ignoring w start_requires host_ready (event "stop") refl) λ _.
      chain (Keeps-call w start_requires host_ready check_requirements refl) λ _.
        chain (part _ analyticsd_stop _ none refl refl refl refl) λ e₁.
          chain (part _ analyticsd_destroy _ e₁ refl refl refl refl) λ e₂.
            chain (part _ vm_stop _ e₂ refl refl refl refl) λ e₃.
              chain (part _ vm_destroy _ e₃ refl refl refl refl) λ e₄.
                chain (part _ vpnkit_stop _ e₄ refl refl refl refl) λ e₅.
                  chain (part _ vpnkit_destroy _ e₅ refl refl refl refl) λ e₆.
                    chain (part _ remove_aliases _ e₆ refl refl refl refl)
                      λ e₇. chain (helper-InOrder darwin e₇) λ e₈. finish-InOrder all_down e₈ refl
