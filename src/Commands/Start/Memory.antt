-- ===== src/Commands/Start/Memory.antt =====
-- The memory of the virtual machine, and when the user is warned.
use cfdev.Common.{
  ◌≡◌, refl, ◌↔◌, inl, inr, ℕ, Bool, true, false, not, ◌&&◌, [], arith, Bool-cases, leb,
  if◌then◌else◌,
}
use cfdev.Common.Int.{ℤ, pos, negsuc, is_positive, less, to_uint64}
use cfdev.Metadata.{Metadata}
use cfdev.Commands.Start.{base_memory, choose_memory}

less_irrefl : (x : ℤ) → less x x ≡ false
less_irrefl (pos n) = ground arith
less_irrefl (negsuc n) = ground arith

base_memory_positive : (metadata : Metadata) → is_positive (base_memory metadata) ≡ true
base_memory_positive metadata = elim (Bool-cases (is_positive metadata.default_memory)) [
  | inl e ↦ rw e e
  | inr e ↦ rw e
]

-- The memory is there, and is not below the base memory.
abbrev pub is_enough : Metadata → ℤ → ℕ → Bool
is_enough metadata given available =
    leb (to_uint64 given) available && not (less given (base_memory metadata))

warned_custom :
    (metadata : Metadata) (asked : ℤ) (available : ℕ)
    → is_positive asked ≡ true
    → ((choose_memory metadata asked available).0 ≡ [])
      ↔ (is_enough metadata asked available ≡ true)
unfolding choose_memory
warned_custom metadata asked available p =
    rw p (elim (Bool-cases (less asked (base_memory metadata))) [
      | inl below ↦ elim (Bool-cases (leb (to_uint64 asked) available)) [
        | inl enough ↦ rw (below, enough) (ground arith)
        | inr few ↦ rw (below, few) (ground arith)
      ]
      | inr above ↦ elim (Bool-cases (leb (to_uint64 asked) available)) [
        | inl enough ↦ rw (above, enough) (ground arith)
        | inr few ↦ rw (above, few) (ground arith)
      ]
    ])

warned_default :
    (metadata : Metadata) (asked : ℤ) (available : ℕ)
    → is_positive asked ≡ false
    → ((choose_memory metadata asked available).0 ≡ [])
      ↔ (is_enough metadata (base_memory metadata) available ≡ true)
unfolding choose_memory
warned_default metadata asked available p =
    rw (p, less_irrefl (base_memory metadata))
      (elim (Bool-cases (leb (to_uint64 (base_memory metadata)) available)) [
        | inl enough ↦ rw enough (ground arith)
        | inr few ↦ rw few (ground arith)
      ])

given_lem :
    (metadata : Metadata) (asked : ℤ) (available : ℕ)
    → (choose_memory metadata asked available).1
      ≡ (if is_positive asked then asked else base_memory metadata)
unfolding choose_memory
given_lem metadata asked available = ground arith

-- The memory given is what was asked for, and the base memory where nothing positive was asked for;
-- so it is always positive. No warning is shown exactly when that memory is available and is not
-- below the base memory.
pub choose_memory_lem :
    (metadata : Metadata) (asked : ℤ) (available : ℕ)
    → let (warnings, given) = choose_memory metadata asked available in
      (given ≡ (if is_positive asked then asked else base_memory metadata))
      × (is_positive given ≡ true)
      × ((warnings ≡ []) ↔ (is_enough metadata given available ≡ true))
choose_memory_lem metadata asked available = elim (Bool-cases (is_positive asked)) [
  | inl p ↦ rw (given_lem, p) (refl, p, warned_custom metadata asked available p)
  | inr p ↦
      rw (given_lem, p)
        (refl, base_memory_positive metadata, warned_default metadata asked available p)
]
