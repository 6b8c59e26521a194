-- ===== src/Resource/Progress/Bounds.antt =====
-- What the progress bar prints stays in range.
use native.Mathlib.Nat.{div-le_of_le-mul}
use cfdev.Common.{
  ℕ, ◌+◌, ◌*◌, ◌/◌, ◌%◌, ◌^◌, ◌≤◌, ◌<◌, ◌≡◌, refl, inl, inr, arith, Bool-cases, ◌==◌, All, ltb,
  true,
}
use cfdev.Common.Int.{pos, equal}
use cfdev.Resource.Progress.{
  Progress, Shown, permille, negative, to_int, percentage, line, display, add,
}

-- A line that is no more than 100 %.
abbrev pub InRange : Shown → Type 0
InRange (permille p) = p ≤ 1000
InRange (negative p) = ⊥
InRange _ = Unit

-- The totals for which `current * 1000` does not wrap around.
abbrev pub limit : ℕ
limit = 18446744073709551

small_mod : (n : ℕ) → n < 2 ^ 64 → n % 2 ^ 64 ≡ n
small_mod n h = omega arith

div_bound : (x t : ℕ) → x ≤ t → (x * 1000) / t ≤ 1000
div_bound x t h = div-le_of_le-mul t (omega arith)

to_int-small : (n : ℕ) → n ≤ 1000 → to_int n ≡ pos n
unfolding to_int
to_int-small n h = let small : ltb n (2 ^ 63) ≡ true = ground (arith, h) in rw (small, to_int) refl

percentage-le :
    (c : Progress)
    → c.current ≤ c.total
    → c.total ≤ limit
    → (p : ℕ) × (percentage c ≡ pos p) × (p ≤ 1000)
unfolding percentage
percentage-le c below small =
    let bound = div_bound c.current c.total below in
    (
      (c.current * 1000) / c.total,
      rw (small_mod (c.current * 1000) (omega arith))
          (to_int-small ((c.current * 1000) / c.total) bound),
      bound,
    )

display-InRange :
    (c : Progress)
    → c.current ≤ c.total
    → c.total ≤ limit
    → All InRange c.lines
    → All InRange (display c).lines × ((display c).current ≡ c.current)
unfolding display line
display-InRange c below small h = elim (Bool-cases (c.total == 0)) [
  | inl e ↦ rw e ((tt, h), refl)
  | inr e ↦ elim (Bool-cases (equal c.last_percentage (percentage c))) [
    | inl same ↦ rw (e, same) (h, refl)
    | inr differs ↦
        let (p, is_p, bound) = percentage-le c below small in
        rw (e, differs) (rw is_p (bound, h), refl)
  ]
]

-- As long as no more is added than the total, and the total is below 2^64 / 1000, every line that
-- `Add` or `Write` prints is at most 100 %, and the position is exact.
pub add-InRange :
    (n : ℕ) (c : Progress)
    → c.current + n ≤ c.total
    → c.total ≤ limit
    → All InRange c.lines
    → All InRange (add n c).lines × ((add n c).current ≡ c.current + n)
unfolding add
add-InRange n c below small h =
    rw (small_mod (c.current + n) (omega arith))
      (display-InRange (record c { current = c.current + n }) below small h)
