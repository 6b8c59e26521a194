-- ===== src/System/Leads.antt =====
-- What has happened in the history of a run that returned no error.
use cfdev.Common.{◌≡◌, ◌⊎◌, refl, inl, inr, String, none, List, [], ◌∷◌, arith, Option-cases}
use cfdev.Runtime.{Result, ok, err, ◌>>=◌, continue}
use cfdev.System.{System, Op, run, ignoring, observing, prefixing, prefixed, powershell}
use cfdev.System.Preserves.{Preserves}

-- An operation that the property holds of, with the history before it, is in the history.
abbrev pub Happened : (List Op → Op → Type 0) → List Op → Type 0
Happened P [] = ⊥
Happened P (o ∷ h) = P h o ⊎ Happened P h

-- A run that returns no error makes it hold of the history.
abbrev pub Leads : (List Op → Type 0) → {A : Type 0} → (List Op → Result A × List Op) → Type 0
Leads Q {A} m = (h : List Op) (a : A) → (m h).0 ≡ ok a → Q (m h).1

abbrev pub powershell_op : String → Op
powershell_op command = run ("powershell.exe" ∷ "-Command" ∷ command ∷ [])

module _ (Q : List Op → Type 0) {A B : Type 0} (m : List Op → Result A × List Op)
    (f : A → List Op → Result B × List Op) where
  -- A run of two parts that returns no error is one of each without an error.
  both-parts :
      (h : List Op) (b : B)
      → ((m >>= f) h).0 ≡ ok b
      → ((a : A) → (m h).0 ≡ ok a → (f a (m h).1).0 ≡ ok b → Q (f a (m h).1).1)
      → Q ((m >>= f) h).1
  unfolding ◌>>=◌
  both-parts h b e k = after (m h).0 refl e
    where
      after :
          (r : Result A)
          → (m h).0 ≡ r
          → (continue r f (m h).1).0 ≡ ok b
          → Q (continue (m h).0 f (m h).1).1
      after (ok a) q d = rw q (k a q d)
      after (err x) q d = cc d

  -- What holds after the first part, and is kept by the second.
  pub Leads-first : Leads Q m → ((a : A) → Preserves Q (f a)) → Leads Q (m >>= f)
  Leads-first lm kf h b e = both-parts h b e (λ a q d. kf a (m h).1 (lm h a q))

  -- What the second part makes hold.
  pub Leads-then : ((a : A) → Leads Q (f a)) → Leads Q (m >>= f)
  Leads-then lf h b e = both-parts h b e (λ a q d. lf a (m h).1 b d)

  -- What holds after the first part with its result, and is kept, or what the second makes hold.
  pub Leads-either :
      ((a : A) → (((h : List Op) → (m h).0 ≡ ok a → Q (m h).1) × Preserves Q (f a)) ⊎ Leads Q (f a))
      → Leads Q (m >>= f)
  Leads-either l h b e =
      both-parts h b e
        (λ a q d. elim (l a) [ inl k ↦ k.1 (m h).1 (k.0 h q) | inr n ↦ n (m h).1 b d ])

module _ (Q : List Op → Type 0) where
  prefixed-ok :
      {A : Type 0} (text : String) (r : Result A) (a : A) → prefixed text r ≡ ok a → r ≡ ok a
  prefixed-ok text (ok b) a e = e
  prefixed-ok text (err x) a e = cc e

  pub Leads-prefixing :
      {A : Type 0} (text : String) (m : List Op → Result A × List Op)
      → Leads Q m
      → Leads Q (prefixing text m)
  unfolding prefixing
  Leads-prefixing text m lm h a e = lm h a (prefixed-ok text (m h).0 a e)

  pub Preserves-prefixing :
      {A : Type 0} (text : String) (m : List Op → Result A × List Op)
      → Preserves Q m
      → Preserves Q (prefixing text m)
  unfolding prefixing
  Preserves-prefixing text m km = km

  pub Preserves-observing :
      {A : Type 0} (m : List Op → Result A × List Op) → Preserves Q m → Preserves Q (observing m)
  unfolding observing
  Preserves-observing m km = km

  pub Preserves-ignoring :
      (s : System) (o : Op) → ((h : List Op) → Q h → Q (o ∷ h)) → Preserves Q (ignoring s o)
  unfolding ignoring
  Preserves-ignoring s o keep h q = keep h q

  pub Preserves-powershell :
      (s : System) (command : String)
      → ((h : List Op) → Q h → Q (powershell_op command ∷ h))
      → Preserves Q (powershell s command)
  unfolding powershell
  Preserves-powershell s command keep h q =
      elim (Option-cases (s.fault h (powershell_op command))) [
        | inl e ↦ rw (e, powershell) (keep h q)
        | inr (x, e) ↦ rw (e, powershell) (keep h q)
      ]

  pub Leads-powershell :
      (s : System) (command : String)
      → ((h : List Op) → s.fault h (powershell_op command) ≡ none → Q (powershell_op command ∷ h))
      → Leads Q (powershell s command)
  unfolding powershell
  Leads-powershell s command holds h a e = elim (Option-cases (s.fault h (powershell_op command))) [
    | inl f ↦ rw (f, powershell) (holds h f)
    | inr (x, f) ↦ absurd (ground (arith, f, e))
  ]

-- A run that makes it hold of the history where something else held before.
abbrev pub Follows :
    (List Op → Type 0) → (List Op → Type 0) → {A : Type 0} → (List Op → Result A × List Op) → Type 0
Follows P Q {A} m = (h : List Op) (a : A) → P h → (m h).0 ≡ ok a → Q (m h).1

module _ (P Q : List Op → Type 0) {A B : Type 0} (m : List Op → Result A × List Op)
    (f : A → List Op → Result B × List Op) where
  -- What held before the first part, and is kept by it.
  pub Follows-kept : Preserves P m → ((a : A) → Follows P Q (f a)) → Follows P Q (m >>= f)
  Follows-kept km lf h b p e = both-parts Q m f h b e (λ a q d. lf a (m h).1 b (km h p) d)

  -- What the first part makes hold.
  pub Leads-Follows : Leads P m → ((a : A) → Follows P Q (f a)) → Leads Q (m >>= f)
  Leads-Follows lm lf h b e = both-parts Q m f h b e (λ a q d. lf a (m h).1 b (lm h a q) d)
