-- ===== src/Common/Dict.antt =====
-- Go maps with text keys, as association lists. The order of the entries is never looked at.
use cfdev.Common.Tests.{if◌then◌else◌}
use Prim.Native.String.{String}
use mathlib.Core.Path.{◌≡◌, refl, ap, ◌∙◌}
use mathlib.Core.Option.{Option, none, some}
use mathlib.Core.List.{List, [], ◌∷◌}
use native.Mathlib.Omega.{arith}
use text.Mathlib.Text.{◌==◌ as ◌=s◌}
use text.Mathlib.TextEquality.{eq_iff}

abbrev pub Dict {ℓ} : Type ℓ → Type ℓ
Dict V = List (String × V)

module _ {ℓ} {V : Type ℓ} where
  unfoldable pub get : String → Dict V → Option V
  get k [] = none
  get k ((j, v) ∷ d) = if j =s k then some v else get k d

  -- `d[k] = v`
  unfoldable pub put : String → V → Dict V → Dict V
  put k v [] = (k, v) ∷ []
  put k v ((j, u) ∷ d) = if j =s k then (k, v) ∷ d else (j, u) ∷ put k v d

  -- `for k, v := range e { d[k] = v }`
  unfoldable pub merge : Dict V → Dict V → Dict V
  merge [] d = d
  merge ((k, v) ∷ e) d = merge e (put k v d)

  pub get-put :
      (k j : String) (v : V) (d : Dict V) → get j (put k v d) ≡ (if k =s j then some v else get j d)
  unfolding get put
  get-put k j v [] = refl
  get-put k j v ((i, u) ∷ d) = ground (arith, eq_iff k j, eq_iff i k, eq_iff i j, get-put k j v d)

  -- The value that a merge leaves: the last one under the key, or the one before.
  pub latest : String → Dict V → Option V → Option V
  latest k [] before = before
  latest k ((j, v) ∷ e) before = latest k e (if j =s k then some v else before)

  pub get-merge : (k : String) (e d : Dict V) → get k (merge e d) ≡ latest k e (get k d)
  unfolding merge latest
  get-merge k [] d = refl
  get-merge k ((j, v) ∷ e) d = get-merge k e (put j v d) ∙ ap (latest k e) (get-put j k v d)

module _ {ℓ} {V : Type ℓ} where
  -- `delete(d, k)`
  unfoldable pub erase : String → Dict V → Dict V
  erase k [] = []
  erase k ((j, v) ∷ d) = let rest = erase k d in if j =s k then rest else (j, v) ∷ rest

  pub get-erase :
      (k j : String) (d : Dict V) → get j (erase k d) ≡ (if k =s j then none else get j d)
  unfolding get erase
  get-erase k j [] = ground arith
  get-erase k j ((i, u) ∷ d) = ground (arith, eq_iff k j, eq_iff i k, eq_iff i j, get-erase k j d)
