-- ===== src/Common/Decimal.antt =====
-- Whole numbers in decimal: `%d` of the package fmt, and what strconv reads back.
pub mod Parsing
use Prim.Native.Nat.{ℕ, zero, suc, ◌+◌, ◌-◌, ◌*◌, ◌/◌, ◌%◌, ◌^◌}
use Prim.Native.String.{String, ◌++◌ as ◌<>◌}
use mathlib.Core.Bool.{Bool, true, false, ◌&&◌}
use mathlib.Core.List.{List, [], ◌∷◌}
use mathlib.Core.Option
use mathlib.Core.Option.{Option, none, some}
use cfdev.Common.Tests.{ltb, leb, ◌==◌, if◌then◌else◌}
use cfdev.Common.Text.{codes}
use cfdev.Common.Int.{ℤ, pos, negsuc}

abbrev pub digit : ℕ → String
digit d =
    if d == 0
    then "0"
    else if d == 1
    then "1"
    else if d == 2
    then "2"
    else if d == 3
    then "3"
    else if d == 4
    then "4"
    else if d == 5
    then "5"
    else if d == 6
    then "6"
    else if d == 7
    then "7"
    else if d == 8
    then "8"
    else "9"

-- A number of up to `fuel` digits.
pub digits : ℕ → ℕ → String
digits zero n = ""
digits (suc fuel) n = elim (ltb n 10) [
  | true ↦ digit n
  | false ↦ digits fuel (n / 10) <> digit (n % 10)
]

-- A number has fewer digits than `n + 1`.
pub show_nat : ℕ → String
unfolding digits
show_nat n = digits (suc n) n

unfoldable pub show_int : ℤ → String
show_int (pos n) = show_nat n
show_int (negsuc n) = "-" <> show_nat (suc n)

abbrev pub is_digit : ℕ → Bool
is_digit c = leb 48 c && leb c 57

-- The number that digits go on to, after a number before them.
abbrev pub value_of : List ℕ → ℕ → Option ℕ
value_of [] n = some n
value_of (c ∷ cs) n =
    let rest = value_of cs (n * 10 + (c - 48)) in if is_digit c then rest else none

abbrev pub below : ℕ → Option ℕ → Option ℕ
below bound none = none
below bound (some n) = if ltb n bound then some n else none

-- Digits of a number below a bound; none at all is an error.
abbrev parse_nat : ℕ → List ℕ → Option ℕ
parse_nat bound [] = none
parse_nat bound (c ∷ cs) = below bound (value_of (c ∷ cs) 0)

-- `strconv.ParseUint(…, 10, 64)`
pub parse_uint : String → Option ℕ
parse_uint s = parse_nat (2 ^ 64) (codes s)

abbrev negated : Option ℕ → Option ℤ
negated none = none
negated (some zero) = some (pos 0)
negated (some (suc n)) = some (negsuc n)

-- `strconv.Atoi` on the characters; `none` stands for its error.
pub parse_int : List ℕ → Option ℤ
parse_int [] = none
parse_int (c ∷ cs) =
    if c == b'-'
    then negated (parse_nat (2 ^ 63 + 1) cs)
    else Option.map pos (parse_nat (2 ^ 63) (if c == b'+' then cs else c ∷ cs))

abbrev pub atoi : String → Option ℤ
atoi s = parse_int (codes s)
