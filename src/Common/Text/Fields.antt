-- ===== src/Common/Text/Fields.antt =====
-- `strings.Fields`, and cutting a printed table up again.
use Prim.Native.Char.{Char, code}
use Prim.Native.Nat.{ℕ}
use Prim.Native.String.{String, ◌++◌ as ◌<>◌}
use mathlib.Core.Path.{◌≡◌, refl, ap, ◌∙◌}
use mathlib.Core.Bool.{Bool, true, false, ◌&&◌}
use mathlib.Core.List.{List, [], ◌∷◌}
use text.Mathlib.Text.{◌==◌ as ◌=s◌}
use text.Mathlib.TextLemmas.{cons-append, nil-append}
use cfdev.Common.Tests.{if◌then◌else◌, ◌==◌}
use cfdev.Common.Text.{is_space, push_front, split}

-- The pieces between the characters that the test holds of.
abbrev pub split_where : (ℕ → Bool) → String → List String
split_where p String.[] = "" ∷ []
split_where p (String.◌∷◌ c s) =
    let rest = split_where p s in if p (code c) then "" ∷ rest else push_front c rest

abbrev non_empty : List String → List String
non_empty [] = []
non_empty (w ∷ ws) = let rest = non_empty ws in if w =s "" then rest else w ∷ rest

abbrev pub fields : String → List String
fields s = non_empty (split_where is_space s)

pub split-split_where : (sep : ℕ) (s : String) → split sep s ≡ split_where (λ c. c == sep) s
split-split_where sep String.[] = refl
split-split_where sep (String.◌∷◌ c s) = rw (split-split_where sep s) refl

-- No character of the text passes the test.
abbrev pub Free : (ℕ → Bool) → String → Type 0
Free p String.[] = Unit
Free p (String.◌∷◌ c s) = (p (code c) ≡ false) × Free p s

-- A piece is cut off where a separator follows it.
split_where-append :
    (p : ℕ → Bool) (w s : String) (c : Char)
    → Free p w
    → p (code c) ≡ true
    → split_where p (w <> String.◌∷◌ c s) ≡ w ∷ split_where p s
split_where-append p String.[] s c h e = rw (nil-append (String.◌∷◌ c s), e) refl
split_where-append p (String.◌∷◌ d w) s c h e =
    rw (cons-append d w (String.◌∷◌ c s), h.0, split_where-append p w s c h.1 e) refl

pub split_where_whole : (p : ℕ → Bool) (w : String) → Free p w → split_where p w ≡ w ∷ []
split_where_whole p String.[] h = refl
split_where_whole p (String.◌∷◌ d w) h = rw (h.0, split_where_whole p w h.1) refl

abbrev left_trimmed : String → String
left_trimmed String.[] = ""
left_trimmed (String.◌∷◌ c s) =
    let rest = left_trimmed s in if is_space (code c) then rest else String.◌∷◌ c s

-- `strings.TrimSpace`, of a text.
abbrev right_trimmed : String → String
right_trimmed String.[] = ""
right_trimmed (String.◌∷◌ c s) =
    let rest = right_trimmed s in if is_space (code c) && rest =s "" then "" else String.◌∷◌ c rest

abbrev pub trimmed : String → String
trimmed s = right_trimmed (left_trimmed s)

-- The text without a carriage return at its end.
abbrev drop_return : String → String
drop_return String.[] = ""
drop_return (String.◌∷◌ c s) =
    let rest = drop_return s in if code c == 13 && s =s "" then "" else String.◌∷◌ c rest

abbrev lines_of : List String → List String
lines_of [] = []
lines_of (w ∷ []) = if w =s "" then [] else drop_return w ∷ []
lines_of (w ∷ v ∷ ws) = drop_return w ∷ lines_of (v ∷ ws)

-- The lines that a `bufio.Scanner` gives. Lines over its limit of 64 KB are not looked at.
abbrev pub scan_lines : String → List String
scan_lines s = lines_of (split b'\n' s)

-- The same where the separator is a text of one character.
pub split_where_after :
    (p : ℕ → Bool) (w s : String) (c : Char)
    → Free p w
    → p (code c) ≡ true
    → split_where p (w <> (String.◌∷◌ c "" <> s)) ≡ w ∷ split_where p s
split_where_after p w s c h e =
    let joined : String.◌∷◌ c "" <> s ≡ String.◌∷◌ c s =
      cons-append c "" s ∙ ap (λ (t : String). String.◌∷◌ c t) (nil-append s) in
    rw joined (split_where-append p w s c h e)

pub Free-append : (p : ℕ → Bool) (v w : String) → Free p v → Free p w → Free p (v <> w)
Free-append p String.[] w h k = rw (nil-append w) k
Free-append p (String.◌∷◌ c v) w h k = rw (cons-append c v w) (h.0, Free-append p v w h.1 k)
