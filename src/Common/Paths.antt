-- ===== src/Common/Paths.antt =====
-- `filepath.Join`, `filepath.Clean` and `filepath.Dir` on paths with slashes.
use Prim.Native.Char.{code}
use Prim.Native.String.{String, ◌++◌ as ◌<>◌}
use mathlib.Core.Option.{Option, none, some}
use mathlib.Core.Bool.{Bool, true, false, ◌||◌}
use mathlib.Core.List.{List, [], ◌∷◌}
use text.Mathlib.Text.{◌==◌ as ◌=s◌}
use cfdev.Common.Tests.{if◌then◌else◌, ◌==◌}
use cfdev.Common.Text.{codes, has_prefix, split}

-- `strings.Join`
abbrev pub join_with : String → List String → String
join_with sep [] = ""
join_with sep (t ∷ []) = t
join_with sep (t ∷ u ∷ ts) = t <> (sep <> join_with sep (u ∷ ts))

-- What `..` leaves of the elements before it, the last first.
abbrev up : Bool → List String → List String
up true [] = []
up false [] = ".." ∷ []
up rooted (e ∷ out) = if e =s ".." then ".." ∷ e ∷ out else out

abbrev walk_element : Bool → String → List String → List String
walk_element rooted e out =
    if e =s "" || e =s "." then out else (if e =s ".." then up rooted out else e ∷ out)

-- The elements of a clean path, the last first.
abbrev walk : Bool → List String → List String → List String
walk rooted [] out = out
walk rooted (e ∷ es) out = walk rooted es (walk_element rooted e out)

abbrev reversed : List String → List String → List String
reversed [] done = done
reversed (e ∷ es) done = reversed es (e ∷ done)

abbrev shown : Bool → List String → String
shown true out = "/" <> join_with "/" (reversed out [])
shown false [] = "."
shown false (e ∷ out) = join_with "/" (reversed (e ∷ out) [])

abbrev is_rooted : String → Bool
is_rooted path = has_prefix (codes path) (codes "/")

-- `filepath.Clean`
abbrev clean : String → String
clean path = shown (is_rooted path) (walk (is_rooted path) (split b'/' path) [])

-- `filepath.Join`
abbrev pub join_path : List String → String
join_path [] = ""
join_path (e ∷ es) =
    let rest = join_path es in if e =s "" then rest else clean (join_with "/" (e ∷ es))

-- The text up to its last slash, the slash included; `none` where there is none.
abbrev to_last_slash : String → Option String
to_last_slash String.[] = none
to_last_slash (String.◌∷◌ c s) = elim (to_last_slash s) [
  | some d ↦ some (String.◌∷◌ c d)
  | none ↦ if code c == b'/' then some "/" else none
]

-- `filepath.Dir`
abbrev pub dir_name : String → String
dir_name path = elim (to_last_slash path) [ some d ↦ clean d | none ↦ "." ]

abbrev after_last_slash : String → String
after_last_slash String.[] = ""
after_last_slash (String.◌∷◌ c s) = elim (to_last_slash s) [
  | some d ↦ after_last_slash s
  | none ↦ if code c == b'/' then s else String.◌∷◌ c s
]

-- `filepath.Split`
abbrev pub split_path : String → String × String
split_path path = (elim (to_last_slash path) [ some d ↦ d | none ↦ "" ], after_last_slash path)
