-- ===== src/Common/Text.antt =====
-- Go's `strings` functions that the program uses, over the characters of a text as numbers. Letters
-- outside ASCII have no lower case here; every text that the program compares so is ASCII.
pub mod Pieces
pub mod Joined
pub mod Fields
use Prim.Native.Nat.{ℕ, ◌+◌}
use Prim.Native.Char.{Char, code}
use Prim.Native.String.{String}
use mathlib.Core.Path.{◌≡◌, refl}
use mathlib.Core.Bool.{Bool, true, false, ◌&&◌, ◌||◌}
use mathlib.Core.List.{List, [], ◌∷◌, map}
use native.Mathlib.Omega.{arith}
use text.Mathlib.Text.{◌==◌ as ◌=s◌}
use cfdev.Common.Tests.{leb, ◌==◌, if◌then◌else◌}

abbrev pub codes : String → List ℕ
codes String.[] = []
codes (String.◌∷◌ c s) = code c ∷ codes s

-- `unicode.ToLower` on ASCII.
abbrev pub to_lower : ℕ → ℕ
to_lower c = if leb b'A' c && leb c b'Z' then c + 32 else c

-- `strings.ToLower`
abbrev pub lower : List ℕ → List ℕ
lower = map to_lower

abbrev pub same : List ℕ → List ℕ → Bool
same [] [] = true
same [] (b ∷ t) = false
same (a ∷ s) [] = false
same (a ∷ s) (b ∷ t) = a == b && same s t

-- `strings.HasPrefix`
abbrev pub has_prefix : List ℕ → List ℕ → Bool
has_prefix s [] = true
has_prefix [] (b ∷ t) = false
has_prefix (a ∷ s) (b ∷ t) = a == b && has_prefix s t

-- `strings.Contains`
abbrev pub contains : List ℕ → List ℕ → Bool
contains [] t = has_prefix [] t
contains (a ∷ s) t = has_prefix (a ∷ s) t || contains s t

abbrev pub push_front : Char → List String → List String
push_front c [] = (String.◌∷◌ c String.[]) ∷ []
push_front c (w ∷ ws) = String.◌∷◌ c w ∷ ws

-- `strings.Split` at one ASCII character: always at least one piece.
abbrev pub split : ℕ → String → List String
split sep String.[] = "" ∷ []
split sep (String.◌∷◌ c s) =
    let rest = split sep s in if code c == sep then "" ∷ rest else push_front c rest

-- `filepath.Base` on a path with slashes.
abbrev strip_slashes : String → String
strip_slashes String.[] = ""
strip_slashes (String.◌∷◌ c s) =
    let rest = strip_slashes s in if code c == b'/' && rest =s "" then "" else String.◌∷◌ c rest

abbrev last_element : String → String → String
last_element best String.[] = best
last_element best (String.◌∷◌ c s) = last_element (if code c == b'/' then s else best) s

abbrev non_empty_base : String → String
non_empty_base path = if path =s "" then "/" else last_element path path

abbrev pub base_name : String → String
base_name path = if path =s "" then "." else non_empty_base (strip_slashes path)

-- Go's white space in ASCII.
abbrev pub is_space : ℕ → Bool
is_space c = (leb 9 c && leb c 13) || c == 32

abbrev pub trim_left : List ℕ → List ℕ
trim_left [] = []
trim_left (a ∷ s) = let rest = trim_left s in if is_space a then rest else a ∷ s

abbrev drop_space : ℕ → List ℕ → List ℕ
drop_space a [] = if is_space a then [] else a ∷ []
drop_space a (b ∷ s) = a ∷ b ∷ s

abbrev pub trim_right : List ℕ → List ℕ
trim_right [] = []
trim_right (a ∷ s) = drop_space a (trim_right s)

-- `strings.TrimSpace`
abbrev pub trim_space : List ℕ → List ℕ
trim_space s = trim_right (trim_left s)

pub same_refl : (s : List ℕ) → same s s ≡ true
same_refl [] = refl
same_refl (a ∷ s) = ground (arith, same_refl s)

pub same_eq : (s t : List ℕ) → same s t ≡ true → s ≡ t
same_eq [] [] h = refl
same_eq [] (b ∷ t) h = ground arith
same_eq (a ∷ s) [] h = ground arith
same_eq (a ∷ s) (b ∷ t) h = ground (arith, same_eq s t)
