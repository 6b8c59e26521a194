-- ===== src/System/Preserves.antt =====
-- Properties of the history that a run keeps.
use cfdev.Common.{Bool, true, false, String, List, ◌∷◌, if◌then◌else◌}
use cfdev.Errors.{Error}
use cfdev.Runtime.{Result, ok, err, ◌>>=◌, pure, raise, wrapping, continue}
use cfdev.System.{System, Op, step}

-- A run keeps what holds of the history before it.
abbrev pub Preserves : (List Op → Type 0) → {A : Type 0} → (List Op → Result A × List Op) → Type 0
Preserves Q m = (h : List Op) → Q h → Q (m h).1

module _ (Q : List Op → Type 0) where
  pub Preserves-pure : {A : Type 0} (a : A) → Preserves Q (pure a)
  unfolding pure
  Preserves-pure a h q = q

  pub Preserves-raise : (A : Type 0) (e : Error) → Preserves Q {A = A} (raise e)
  unfolding raise
  Preserves-raise A e h q = q

  pub Preserves-step :
      (s : System) (o : Op) → ((h : List Op) → Q h → Q (o ∷ h)) → Preserves Q (step s o)
  unfolding step
  Preserves-step s o keep h q = keep h q

  continued :
      {A B : Type 0} (f : A → List Op → Result B × List Op)
      → ((a : A) → Preserves Q (f a))
      → (r : Result A) (h : List Op) → Q h
      → Q (continue r f h).1
  continued f kf (ok a) h q = kf a h q
  continued f kf (err e) h q = q

  pub Preserves-bind :
      {A B : Type 0} (m : List Op → Result A × List Op) (f : A → List Op → Result B × List Op)
      → Preserves Q m
      → ((a : A) → Preserves Q (f a))
      → Preserves Q (m >>= f)
  unfolding ◌>>=◌
  Preserves-bind m f km kf h q = continued f kf (m h).0 (m h).1 (km h q)

  pub Preserves-if :
      {A : Type 0} (b : Bool) (m n : List Op → Result A × List Op)
      → Preserves Q m
      → Preserves Q n
      → Preserves Q (if b then m else n)
  Preserves-if true m n km kn = km
  Preserves-if false m n km kn = kn

  pub Preserves-wrapping :
      {A : Type 0} (msg : String) (m : List Op → Result A × List Op)
      → Preserves Q m
      → Preserves Q (wrapping msg m)
  unfolding wrapping
  Preserves-wrapping msg m km = km
