-- ===== src/Runtime/Keeps.antt =====
-- Rules for the order of calls: one for each way in which the commands build their runs.
use cfdev.Common.{
  ◌≡◌, refl, String, true, ◌⊎◌, inl, inr, Option-cases, Option, none, some, List, [], ◌∷◌, All,
  All-map,
}
use cfdev.Errors.{Error}
use cfdev.Runtime.{
  Call, World, Result, ok, err, ◌>>=◌, pure, raise, wrapping, call, ignoring, attempt, ask, peek,
  continue, in_context,
}
use cfdev.Runtime.Protocol.{Kind, kind, covers, All-covers}

module _ (w : World) where
  -- A call of this kind has been made, and has returned no error.
  abbrev Succeeded : Kind → List Call → Type 0
  Succeeded k [] = ⊥
  Succeeded k (c ∷ h) = ((kind c ≡ k) × (w.fails h c ≡ none)) ⊎ Succeeded k h

  abbrev pub Done : List Kind → List Call → Type 0
  Done ks h = All (λ k. Succeeded k h) ks

  pub Done-cons : (ks : List Kind) (c : Call) (h : List Call) → Done ks h → Done ks (c ∷ h)
  Done-cons ks c h d = All-map (λ k. Succeeded k h) (λ k. Succeeded k (c ∷ h)) ks (λ k s. inr s) d

-- Every call in the history was made only after the kinds that the protocol requires had succeeded.
abbrev pub Ordered : World → (Kind → List Kind) → List Call → Type 0
Ordered w requires [] = Unit
Ordered w requires (c ∷ h) = Done w (requires (kind c)) h × Ordered w requires h

abbrev pub Post {ℓ} : World → {A : Type ℓ} → (A → List Kind) → Result A → List Call → Type 0
Post w after (ok a) h = Done w (after a) h
Post w after (err e) h = Unit

-- From a history in order where `ks` have succeeded, `m` makes a history in order, and if it
-- returns no error then `after` have succeeded in it.
pub record Keeps {ℓ} (w : World) (requires : Kind → List Kind) {A : Type ℓ} (ks : List Kind)
    (m : List Call → Result A × List Call) (after : A → List Kind) : Type ℓ where
  pub at :
      (h : List Call)
      → Done w ks h
      → Ordered w requires h
      → Ordered w requires (m h).1 × Post w after (m h).0 (m h).1

module _ (w : World) (requires : Kind → List Kind) where
  abbrev pub after_attempt : Kind → List Kind → Option Error → List Kind
  after_attempt k ks none = k ∷ ks
  after_attempt k ks (some e) = ks

  -- The history after a call that the protocol allows.
  made :
      (ks : List Kind) (c : Call) (h : List Call)
      → covers (requires (kind c)) ks ≡ true
      → Done w ks h
      → Ordered w requires h
      → Ordered w requires (c ∷ h)
  made ks c h allowed d o = (All-covers (λ k. Succeeded w k h) (requires (kind c)) ks allowed d, o)

  counted :
      (ks : List Kind) (c : Call) (h : List Call)
      → w.fails h c ≡ none
      → Done w ks h
      → Done w (kind c ∷ ks) (c ∷ h)
  counted ks c h e d = (inl (refl, e), Done-cons w ks c h d)

  module _ (ks : List Kind) (c : Call) (allowed : covers (requires (kind c)) ks ≡ true) where
    pub Keeps-call : Keeps w requires ks (call w c) (λ _. kind c ∷ ks)
    unfolding call
    Keeps-call = record {
      at = λ h d o. elim (Option-cases (w.fails h c)) [
        | inl e ↦ rw e (made ks c h allowed d o, counted ks c h e d)
        | inr (x, e) ↦ rw e (made ks c h allowed d o, tt)
      ];
    }

    pub Keeps-ignoring : Keeps w requires ks (ignoring w c) (λ _. ks)
    unfolding ignoring
    Keeps-ignoring = record { at = λ h d o. (made ks c h allowed d o, Done-cons w ks c h d) }

    pub Keeps-peek {ℓ} :
        {A : Type ℓ} (value : List Call → Call → A) → Keeps w requires ks (peek w value c) (λ _. ks)
    unfolding peek
    Keeps-peek value = record { at = λ h d o. (made ks c h allowed d o, Done-cons w ks c h d) }

    attempted :
        (h : List Call) (o : Option Error)
        → w.fails h c ≡ o
        → Done w ks h
        → Done w (after_attempt (kind c) ks o) (c ∷ h)
    attempted h none e d = counted ks c h e d
    attempted h (some x) e d = Done-cons w ks c h d

    pub Keeps-attempt : Keeps w requires ks (attempt w c) (after_attempt (kind c) ks)
    unfolding attempt
    Keeps-attempt = record {
      at = λ h d o. (made ks c h allowed d o, attempted h (w.fails h c) refl d);
    }

    pub Keeps-ask {ℓ} :
        {A : Type ℓ} (value : List Call → Call → A)
        → Keeps w requires ks (ask w value c) (λ _. kind c ∷ ks)
    unfolding ask
    Keeps-ask value = record {
      at = λ h d o. elim (Option-cases (w.fails h c)) [
        | inl e ↦ rw e (made ks c h allowed d o, counted ks c h e d)
        | inr (x, e) ↦ rw e (made ks c h allowed d o, tt)
      ];
    }

  module _ {ℓ} {A : Type ℓ} where
    pub Keeps-pure :
        (ks : List Kind) (a : A) (after : A → List Kind)
        → covers (after a) ks ≡ true
        → Keeps w requires ks (pure a) after
    unfolding pure
    Keeps-pure ks a after allowed = record {
      at = λ h d o. (o, All-covers (λ k. Succeeded w k h) (after a) ks allowed d);
    }

    -- The same where nothing is given up.
    pub Keeps-return : (a : A) (after : A → List Kind) → Keeps w requires (after a) (pure a) after
    unfolding pure
    Keeps-return a after = record { at = λ h d o. (o, d) }

    pub Keeps-raise :
        (ks : List Kind) (e : Error) (after : A → List Kind) → Keeps w requires ks (raise e) after
    unfolding raise
    Keeps-raise ks e after = record { at = λ h d o. (o, tt) }

    Post-in_context :
        (after : A → List Kind) (msg : String) (r : Result A) (h : List Call)
        → Post w after r h
        → Post w after (in_context msg r) h
    Post-in_context after msg (ok a) h p = p
    Post-in_context after msg (err e) h p = tt

    pub Keeps-wrapping :
        (ks : List Kind) (m : List Call → Result A × List Call) (after : A → List Kind)
        (msg : String)
        → Keeps w requires ks m after
        → Keeps w requires ks (wrapping msg m) after
    unfolding wrapping
    Keeps-wrapping ks m after msg k = record {
      at = λ h d o. let (o', p) = k.at h d o in (o', Post-in_context after msg (m h).0 (m h).1 p);
    }

    -- A run may use fewer of the successes before it.
    pub Keeps-weaken :
        (js ks : List Kind) (m : List Call → Result A × List Call) (after : A → List Kind)
        → covers js ks ≡ true
        → Keeps w requires js m after
        → Keeps w requires ks m after
    Keeps-weaken js ks m after fewer k = record {
      at = λ h d o. k.at h (All-covers (λ i. Succeeded w i h) js ks fewer d) o;
    }

    Post-fewer :
        (after fewer : A → List Kind) (r : Result A) (h : List Call)
        → ((a : A) → covers (fewer a) (after a) ≡ true)
        → Post w after r h
        → Post w fewer r h
    Post-fewer after fewer (ok a) h c p =
        All-covers (λ k. Succeeded w k h) (fewer a) (after a) (c a) p
    Post-fewer after fewer (err e) h c p = tt

    -- A run may promise fewer successes.
    pub Keeps-after :
        (ks : List Kind) (m : List Call → Result A × List Call) (after fewer : A → List Kind)
        → ((a : A) → covers (fewer a) (after a) ≡ true)
        → Keeps w requires ks m after
        → Keeps w requires ks m fewer
    Keeps-after ks m after fewer c k = record {
      at = λ h d o. let (o', p) = k.at h d o in (o', Post-fewer after fewer (m h).0 (m h).1 c p);
    }

  module _ {ℓ κ} {A : Type ℓ} {B : Type κ} (f : A → List Call → Result B × List Call)
      (mid : A → List Kind) (after : B → List Kind)
      (kf : (a : A) → Keeps w requires (mid a) (f a) after) where
    Keeps-continue :
        (r : Result A) (h : List Call)
        → Ordered w requires h × Post w mid r h
        → Ordered w requires (continue r f h).1 × Post w after (continue r f h).0 (continue r f h).1
    Keeps-continue (ok a) h (o, p) = (kf a).at h p o
    Keeps-continue (err e) h (o, p) = (o, tt)

    pub Keeps-bind :
        (ks : List Kind) (m : List Call → Result A × List Call)
        → Keeps w requires ks m mid
        → Keeps w requires ks (m >>= f) after
    unfolding ◌>>=◌
    Keeps-bind ks m km = record { at = λ h d o. Keeps-continue (m h).0 (m h).1 (km.at h d o) }
