-- ===== src/Common/Decimal/Parsing.antt =====
-- What is printed in decimal is read back.
use Prim.Native.Nat.{ℕ, zero, suc, ◌+◌, ◌-◌, ◌*◌, ◌/◌, ◌%◌, ◌^◌, ◌<◌}
use Prim.Native.String.{String}
use mathlib.Core.Path.{◌≡◌, refl, ap, ◌∙◌, sym}
use mathlib.Core.Logic.{◌≢◌, inl, inr}
use mathlib.Core.Bool.{Bool, true, false}
use mathlib.Core.List.{List, [], ◌∷◌, ◌++◌}
use mathlib.Core.Option.{Option, none, some}
use native.Mathlib.Omega.{arith}
use cfdev.Common.Tests.{ltb, ltb→lt, ◌==◌, Bool-cases}
use cfdev.Common.Lists.{All, All-append, All-map}
use cfdev.Common.Text.{codes}
use cfdev.Common.Text.Joined.{codes-append}
use cfdev.Common.Text.Fields.{Free}
use cfdev.Common.Int.{pos}
use cfdev.Common.Decimal.{digit, digits, show_nat, is_digit, value_of, below, parse_int}

codes-digit : (d : ℕ) → d < 10 → codes (digit d) ≡ (48 + d) ∷ []
codes-digit zero h = refl
codes-digit (suc zero) h = refl
codes-digit (suc (suc zero)) h = refl
codes-digit (suc (suc (suc zero))) h = refl
codes-digit (suc (suc (suc (suc zero)))) h = refl
codes-digit (suc (suc (suc (suc (suc zero))))) h = refl
codes-digit (suc (suc (suc (suc (suc (suc zero)))))) h = refl
codes-digit (suc (suc (suc (suc (suc (suc (suc zero))))))) h = refl
codes-digit (suc (suc (suc (suc (suc (suc (suc (suc zero)))))))) h = refl
codes-digit (suc (suc (suc (suc (suc (suc (suc (suc (suc zero))))))))) h = refl
codes-digit (suc (suc (suc (suc (suc (suc (suc (suc (suc (suc d)))))))))) h = absurd (omega arith)

is_digit-code : (d : ℕ) → d < 10 → is_digit (48 + d) ≡ true
is_digit-code d h = ground arith

bind : Option ℕ → (ℕ → Option ℕ) → Option ℕ
bind none f = none
bind (some n) f = f n

value_of-append :
    (xs ys : List ℕ) (m : ℕ) → value_of (xs ++ ys) m ≡ bind (value_of xs m) (value_of ys)
unfolding bind
value_of-append [] ys m = refl
value_of-append (x ∷ xs) ys m = elim (Bool-cases (is_digit x)) [
  | inl e ↦ rw e (value_of-append xs ys (m * 10 + (x - 48)))
  | inr e ↦ rw e refl
]

value_of-digit : (d m : ℕ) → d < 10 → value_of (codes (digit d)) m ≡ some (m * 10 + d)
value_of-digit d m h =
    let e : 48 + d - 48 ≡ d = omega arith in
    rw (codes-digit d h, is_digit-code d h) (ap (λ (k : ℕ). some (m * 10 + k)) e)

value_of-digits : (fuel n : ℕ) → n < fuel → value_of (codes (digits fuel n)) 0 ≡ some n
unfolding digits
value_of-digits zero n h = absurd (omega arith)
value_of-digits (suc fuel) n h = elim (Bool-cases (ltb n 10)) [
  | inl e ↦ rw (e, digits) (value_of-digit n 0 (ltb→lt n 10 e) ∙ ap some (omega arith))
  | inr e ↦
      let more : 10 < n + 1 = ground arith in
      let whole : n / 10 * 10 + n % 10 ≡ n = omega arith in
      rw (e, digits)
        (ap (λ l. value_of l 0) (codes-append (digits fuel (n / 10)) (digit (n % 10)))
          ∙ value_of-append (codes (digits fuel (n / 10))) (codes (digit (n % 10))) 0
          ∙ ap (λ o. bind o (value_of (codes (digit (n % 10)))))
              (value_of-digits fuel (n / 10) (omega arith))
          ∙ unfold bind in value_of-digit (n % 10) (n / 10) (omega arith) ∙ ap some whole)
]

IsDigit : ℕ → Type 0
IsDigit c = is_digit c ≡ true

AllDigits-digit : (d : ℕ) → d < 10 → All IsDigit (codes (digit d))
unfolding IsDigit
AllDigits-digit d h = rw (codes-digit d h) (is_digit-code d h, tt)

AllDigits-digits : (fuel n : ℕ) → All IsDigit (codes (digits fuel n))
unfolding digits
AllDigits-digits zero n = tt
AllDigits-digits (suc fuel) n = elim (Bool-cases (ltb n 10)) [
  | inl e ↦ rw (e, digits) (AllDigits-digit n (ltb→lt n 10 e))
  | inr e ↦
      rw (e, digits, codes-append (digits fuel (n / 10)) (digit (n % 10)))
        (All-append IsDigit (codes (digits fuel (n / 10))) (codes (digit (n % 10)))
          (AllDigits-digits fuel (n / 10)) (AllDigits-digit (n % 10) (omega arith)))
]

not_empty : (xs ys : List ℕ) (y : ℕ) → ys ≡ y ∷ [] → (xs ++ ys) ≢ []
not_empty [] ys y e f = cc (e, f)
not_empty (x ∷ xs) ys y e f = cc f

codes-digits_ne : (fuel n : ℕ) → codes (digits (suc fuel) n) ≢ []
unfolding digits
codes-digits_ne fuel n f = elim (Bool-cases (ltb n 10)) [
  | inl e ↦ cc (codes-digit n (ltb→lt n 10 e), rw (e, digits) at f)
  | inr e ↦
      not_empty (codes (digits fuel (n / 10))) (codes (digit (n % 10))) (48 + n % 10)
        (codes-digit (n % 10) (omega arith))
        (sym (codes-append (digits fuel (n / 10)) (digit (n % 10))) ∙ (rw (e, digits) at f))
]

below-some : (bound n : ℕ) → n < bound → below bound (some n) ≡ some n
below-some bound n h = ground arith

-- Digits are read as the number that they stand for.
parse_int-digits :
    (l : List ℕ) (n : ℕ)
    → value_of l 0 ≡ some n
    → l ≢ []
    → All IsDigit l
    → n < 2 ^ 63
    → parse_int l ≡ some (pos n)
unfolding parse_int IsDigit
parse_int-digits [] n v ne d h = absurd (ne refl)
parse_int-digits (c ∷ cs) n v ne d h =
    let minus : (c == b'-') ≡ false = ground (arith, d.0) in
    let plus : (c == b'+') ≡ false = ground (arith, d.0) in
    rw (minus, plus, v, below-some (2 ^ 63) n h) refl

-- `Atoi` reads what `%d` prints of a number below 2 ^ 63.
pub parse_int-show_nat : (n : ℕ) → n < 2 ^ 63 → parse_int (codes (show_nat n)) ≡ some (pos n)
unfolding show_nat
parse_int-show_nat n h =
    parse_int-digits (codes (digits (suc n) n)) n (value_of-digits (suc n) n (omega arith))
      (codes-digits_ne n n) (AllDigits-digits (suc n) n) h

Free-codes : (p : ℕ → Bool) (s : String) → All (λ c. p c ≡ false) (codes s) → Free p s
Free-codes p String.[] h = tt
Free-codes p (String.◌∷◌ c s) h = (h.0, Free-codes p s h.1)

-- No character of a printed number passes a test that no digit passes.
pub Free-show_nat :
    (p : ℕ → Bool) (n : ℕ) → ((c : ℕ) → is_digit c ≡ true → p c ≡ false) → Free p (show_nat n)
unfolding show_nat IsDigit
Free-show_nat p n f =
    Free-codes p (digits (suc n) n)
      (All-map IsDigit (λ c. p c ≡ false) (codes (digits (suc n) n)) f (AllDigits-digits (suc n) n))

pub codes-show_nat_ne : (n : ℕ) → codes (show_nat n) ≢ []
unfolding show_nat
codes-show_nat_ne n = codes-digits_ne n n
