-- ===== src/Common/Text/Joined.antt =====
-- Where a text stands in two texts put together.
use Prim.Native.Nat.{ℕ}
use Prim.Native.Char.{code}
use Prim.Native.String.{String, ◌++◌ as ◌<>◌}
use mathlib.Core.Path.{◌≡◌, refl, ap, ◌∙◌, subst, sym}
use mathlib.Core.Logic.{inl, inr}
use mathlib.Core.Bool.{true}
use mathlib.Core.List.{List, [], ◌∷◌, ◌++◌}
use native.Mathlib.Omega.{arith}
use text.Mathlib.TextLemmas.{cons-append, nil-append}
use cfdev.Common.Tests.{Bool-cases}
use cfdev.Common.Text.{codes, has_prefix, contains}

pub codes-append : (s t : String) → codes (s <> t) ≡ codes s ++ codes t
codes-append String.[] t = ap codes (nil-append t)
codes-append (String.◌∷◌ c s) t =
    ap codes (cons-append c s t) ∙ ap (λ r. code c ∷ r) (codes-append s t)

pub has_prefix_refl : (t : List ℕ) → has_prefix t t ≡ true
has_prefix_refl [] = refl
has_prefix_refl (a ∷ t) = ground (arith, has_prefix_refl t)

has_prefix-append : (s u t : List ℕ) → has_prefix s t ≡ true → has_prefix (s ++ u) t ≡ true
has_prefix-append s u [] h = refl
has_prefix-append [] u (b ∷ t) h = ground arith
has_prefix-append (a ∷ s) u (b ∷ t) h = ground (arith, has_prefix-append s u t)

pub has_prefix_self : (s u : List ℕ) → has_prefix (s ++ u) s ≡ true
has_prefix_self s u = has_prefix-append s u s (has_prefix_refl s)

contains_refl : (t : List ℕ) → contains t t ≡ true
contains_refl [] = refl
contains_refl (a ∷ t) = ground (arith, has_prefix_refl t)

pub contains-append_left : (s u t : List ℕ) → contains s t ≡ true → contains (s ++ u) t ≡ true
contains-append_left [] u [] h = contains_empty u
  where
    contains_empty : (u : List ℕ) → contains u [] ≡ true
    contains_empty [] = refl
    contains_empty (a ∷ u) = refl
contains-append_left [] u (b ∷ t) h = ground arith
contains-append_left (a ∷ s) u t h = elim (Bool-cases (has_prefix (a ∷ s) t)) [
  | inl e ↦ ground (arith, has_prefix-append (a ∷ s) u t e)
  | inr e ↦ ground (arith, e, contains-append_left s u t)
]

-- After a separator.
pub contains_after : (s : List ℕ) (a : ℕ) (t : List ℕ) → contains (s ++ (a ∷ t)) t ≡ true
contains_after [] a t = ground (arith, contains_refl t)
contains_after (b ∷ s) a t = ground (arith, contains_after s a t)

pub has_prefix_trans :
    (r s t : List ℕ) → has_prefix r s ≡ true → has_prefix s t ≡ true → has_prefix r t ≡ true
has_prefix_trans r s [] h k = refl
has_prefix_trans r [] (c ∷ t) h k = ground arith
has_prefix_trans [] (b ∷ s) (c ∷ t) h k = ground arith
has_prefix_trans (a ∷ r) (b ∷ s) (c ∷ t) h k = ground (arith, has_prefix_trans r s t)

contains-append_right : (s t u : List ℕ) → contains t u ≡ true → contains (s ++ t) u ≡ true
contains-append_right [] t u h = h
contains-append_right (a ∷ s) t u h = ground (arith, contains-append_right s t u h)

-- What a text contains, it contains with more text before it or after it.
pub contains_before :
    (s t : String) (u : List ℕ) → contains (codes s) u ≡ true → contains (codes (s <> t)) u ≡ true
contains_before s t u h =
    subst (λ r. contains r u ≡ true) (sym (codes-append s t))
      (contains-append_left (codes s) (codes t) u h)

pub contains_behind :
    (s t : String) (u : List ℕ) → contains (codes t) u ≡ true → contains (codes (s <> t)) u ≡ true
contains_behind s t u h =
    subst (λ r. contains r u ≡ true) (sym (codes-append s t))
      (contains-append_right (codes s) (codes t) u h)

pub contains_self : (s : String) → contains (codes s) (codes s) ≡ true
contains_self s = contains_refl (codes s)
