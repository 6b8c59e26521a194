-- ===== src/Analytics/Consent/Answers.antt =====
-- Which answers count as a yes.
use cfdev.Common.{◌≡◌, refl, ℕ, String, Bool, true, false, ◌&&◌, ◌||◌, List, [], ◌∷◌, ◌==◌, arith}
use cfdev.Common.Text.{codes, lower, to_lower, same}
use cfdev.Analytics.{is_yes}

-- The text is one of the words, letter by letter.
abbrev pub is_word_of : List String → List ℕ → Bool
is_word_of [] r = false
is_word_of (w ∷ ws) r = same r (codes w) || is_word_of ws r

-- The ways to write yes.
abbrev pub yes_words : List String
yes_words = "y" ∷ "Y" ∷ "yes" ∷ "yeS" ∷ "yEs" ∷ "yES" ∷ "Yes" ∷ "YeS" ∷ "YEs" ∷ "YES" ∷ []

letter_y : (c : ℕ) → to_lower c == 121 ≡ (c == 121 || c == 89)
letter_y c = ground arith

letter_e : (c : ℕ) → to_lower c == 101 ≡ (c == 101 || c == 69)
letter_e c = ground arith

letter_s : (c : ℕ) → to_lower c == 115 ≡ (c == 115 || c == 83)
letter_s c = ground arith

-- The letters of the words, each in either case.
choices :
    (y Y e E s S : Bool)
    → (((y || Y) && false) || ((y || Y) && ((e || E) && ((s || S) && true)))) ≡ (
        (y && false)
        || ((Y && false)
            || ((y && (e && (s && true)))
                || ((y && (e && (S && true)))
                    || ((y && (E && (s && true)))
                        || ((y && (E && (S && true)))
                            || ((Y && (e && (s && true)))
                                || ((Y && (e && (S && true)))
                                    || ((Y && (E && (s && true)))
                                        || ((Y && (E && (S && true))) || false))))))))))
choices y Y e E s S = ground arith

is_yes_codes :
    (r : List ℕ)
    → (same (lower r) (codes "y") || same (lower r) (codes "yes")) ≡ is_word_of yes_words r
is_yes_codes [] = refl
is_yes_codes (a ∷ []) = ground arith
is_yes_codes (a ∷ b ∷ []) = ground arith
is_yes_codes (a ∷ b ∷ c ∷ []) =
    rw (letter_y a, letter_e b, letter_s c)
      (choices (a == 121) (a == 89) (b == 101) (b == 69) (c == 115) (c == 83))
is_yes_codes (a ∷ b ∷ c ∷ d ∷ r) = ground arith

pub is_yes-words : (response : String) → is_yes response ≡ is_word_of yes_words (codes response)
unfolding is_yes
is_yes-words response = is_yes_codes (codes response)
