-- ===== src/Common/Text/Pieces.antt =====
-- Every piece that `strings.Split` gives stands in the text that was split.
use Prim.Native.Char.{Char, code}
use cfdev.Common.Tests.{◌==◌, Bool-cases}
use cfdev.Common.Lists.{All, All-map}
use cfdev.Common.Text.{codes, to_lower, lower, has_prefix, contains, push_front, split}
use Prim.Native.Nat.{ℕ}
use Prim.Native.String.{String}
use mathlib.Core.Path.{◌≡◌, refl}
use mathlib.Core.Logic.{inl, inr}
use mathlib.Core.Bool.{true}
use mathlib.Core.List.{List, [], ◌∷◌}
use native.Mathlib.Omega.{arith}

contains_of_prefix : (s t : List ℕ) → has_prefix s t ≡ true → contains s t ≡ true
contains_of_prefix [] t h = h
contains_of_prefix (a ∷ s) t h = ground arith

contains-cons : (a : ℕ) (s t : List ℕ) → contains s t ≡ true → contains (a ∷ s) t ≡ true
contains-cons a s t h = ground arith

abbrev StartsWith : String → String → Type 0
StartsWith s w = has_prefix (lower (codes s)) (lower (codes w)) ≡ true

-- The text contains the piece, without regard to case.
abbrev pub Contains : String → String → Type 0
Contains s w = contains (lower (codes s)) (lower (codes w)) ≡ true

-- The first piece begins the text; all are in it.
abbrev Pieces : String → List String → Type 0
Pieces s [] = Unit
Pieces s (w ∷ ws) = StartsWith s w × All (Contains s) ws

later :
    (c : Char) (s : String) (ws : List String)
    → All (Contains s) ws
    → All (Contains (String.◌∷◌ c s)) ws
later c s ws h =
    All-map (Contains s) (Contains (String.◌∷◌ c s)) ws
      (λ w. contains-cons (to_lower (code c)) (lower (codes s)) (lower (codes w))) h

all_of_Pieces : (s : String) (ws : List String) → Pieces s ws → All (Contains s) ws
all_of_Pieces s [] h = tt
all_of_Pieces s (w ∷ ws) h = (contains_of_prefix (lower (codes s)) (lower (codes w)) h.0, h.1)

grown :
    (c : Char) (s : String) (ws : List String)
    → Pieces s ws
    → Pieces (String.◌∷◌ c s) (push_front c ws)
grown c s [] h = (ground arith, tt)
grown c s (w ∷ ws) h = (ground arith, later c s ws h.1)

split-Pieces : (sep : ℕ) (s : String) → Pieces s (split sep s)
split-Pieces sep String.[] = (refl, tt)
split-Pieces sep (String.◌∷◌ c s) = elim (Bool-cases (code c == sep)) [
  | inl e ↦ rw e (refl, later c s _ (all_of_Pieces s _ (split-Pieces sep s)))
  | inr e ↦ rw e (grown c s _ (split-Pieces sep s))
]

pub split-Contains : (sep : ℕ) (s : String) → All (Contains s) (split sep s)
split-Contains sep s = all_of_Pieces s (split sep s) (split-Pieces sep s)
