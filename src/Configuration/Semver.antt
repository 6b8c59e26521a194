-- ===== src/Configuration/Semver.antt =====
-- semver/semver.go: versions of the command line.
pub mod Printed
use cfdev.Common.{
  ℕ, zero, suc, String, Bool, true, false, Option, none, some, List, [], ◌∷◌, ◌=s◌, ◌==◌,
  if◌then◌else◌,
}
use Prim.Native.Char.{code}
use cfdev.Common.Decimal.{atoi}
use cfdev.Common.Int.{ℤ, pos}
use cfdev.Common.Text.{push_front}

pub record Version : Type 0 where
  pub major : ℤ
  pub minor : ℤ
  pub build : ℤ
  pub original : String

-- `strings.SplitN` with up to `n` cuts.
unfoldable pub split_n : ℕ → ℕ → String → List String
split_n sep zero s = s ∷ []
split_n sep (suc n) String.[] = "" ∷ []
split_n sep (suc n) (String.◌∷◌ c s) = elim (code c == sep) [
  | true ↦ "" ∷ split_n sep n s
  | false ↦ push_front c (split_n sep (suc n) s)
]

unfoldable pub first : List String → String
first [] = ""
first (s ∷ ss) = s

-- The build number, up to a dash.
unfoldable pub build_text : String → String
unfolding split_n first
build_text s = first (split_n b'-' 1 s)

unfoldable pub with_build : String → ℤ → ℤ → List String → Option Version
unfolding build_text
with_build v major minor [] =
    some (record { major = major; minor = minor; build = pos 0; original = v })
with_build v major minor (c ∷ cs) = elim (atoi (build_text c)) [
  | none ↦ none
  | some build ↦ some (record { major = major; minor = minor; build = build; original = v })
]

unfoldable pub with_minor : String → ℤ → List String → Option Version
unfolding with_build
with_minor v major [] = with_build v major (pos 0) []
with_minor v major (b ∷ cs) = elim (atoi b) [
  | none ↦ none
  | some minor ↦ with_build v major minor cs
]

unfoldable pub with_major : String → List String → Option Version
unfolding with_minor
with_major v [] = with_minor v (pos 0) []
with_major v (a ∷ bs) =
    if v =s ""
    then with_minor v (pos 0) bs
    else elim (atoi a) [ none ↦ none | some major ↦ with_minor v major bs ]

-- `New`; `none` stands for the error of `strconv.Atoi`.
unfoldable pub new : String → Option Version
unfolding with_major split_n
new v = with_major v (split_n b'.' 2 v)

pub data Parsed : Type 0 where
  parsed : Version → Parsed
  panicked : Parsed

-- `Must`
unfoldable pub must : Option Version → Parsed
must none = panicked
must (some v) = parsed v
