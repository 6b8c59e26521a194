-- ===== src/Daemons/Launchd/Table.antt =====
-- What launchd_darwin.go reads from the table that `launchctl list` prints.
use Prim.Native.Char.{Char, code}
use cfdev.Common.{
  ℕ, String, ◌<>◌, ◌≡◌, subst, ◌||◌, ◌≢◌, refl, sym, ◌∙◌, ap, inl, inr, Bool, true, false, not,
  none, some, List, [], ◌∷◌, ◌++◌, map, ◌=s◌, eq_iff, ◌==◌, Bool-cases, arith, All, if◌then◌else◌,
}
use cfdev.Common.Text.{codes, contains, split, is_space}
use cfdev.Common.Text.Joined.{contains_before, contains_behind, contains_self}
use cfdev.Common.Text.Fields.{
  fields, split_where, split-split_where, Free, split_where_whole, split_where_after, Free-append,
}
use cfdev.Daemons.Launchd.{row, pick, running_in}

-- A row of the table: the process, or `-`, the last status, and the label.
pub record Job : Type 0 where
  pub pid : String
  pub status : String
  pub label : String

abbrev pub line : Job → String
line j = j.pid <> ("\t" <> (j.status <> ("\t" <> j.label)))

-- The rows, each with a newline after it.
abbrev pub rows : List Job → String
rows [] = ""
rows (j ∷ jobs) = line j <> ("\n" <> rows jobs)

abbrev pub header : Job
header = record { pid = "PID"; status = "Status"; label = "Label" }

-- The table that `launchctl list` prints.
abbrev pub table : List Job → String
table jobs = rows (header ∷ jobs)

-- A field without white space.
abbrev IsWord : String → Type 0
IsWord w = Free is_space w × ((w =s "") ≡ false)

abbrev pub IsRow : Job → Type 0
IsRow j = IsWord j.pid × IsWord j.status × IsWord j.label

-- What a reader of the jobs would say: the first one of the label decides.
abbrev pub runs : List Job → String → Bool
runs [] label = false
runs (j ∷ jobs) label =
    let rest = runs jobs label in if j.label =s label then not (j.pid =s "-") else rest

is_newline : ℕ → Bool
is_newline c = c == b'\n'

Free-newline : (w : String) → Free is_space w → Free is_newline w
unfolding is_newline
Free-newline String.[] h = tt
Free-newline (String.◌∷◌ c w) h = (ground (arith, h.0), Free-newline w h.1)

abbrev tab : Char
tab = Char.char 9 tt

abbrev newline : Char
newline = Char.char 10 tt

fields-line : (j : Job) → IsRow j → fields (line j) ≡ j.pid ∷ j.status ∷ j.label ∷ []
fields-line j (p, s, l) =
    rw
      (
        split_where_after is_space j.pid (j.status <> ("\t" <> j.label)) tab p.0 refl,
        split_where_after is_space j.status j.label tab s.0 refl,
        split_where_whole is_space j.label l.0,
        p.1,
        s.1,
        l.1,
      )
      refl

Free-line : (j : Job) → IsRow j → Free is_newline (line j)
unfolding is_newline
Free-line j (p, s, l) =
    Free-append is_newline j.pid ("\t" <> (j.status <> ("\t" <> j.label))) (Free-newline j.pid p.0)
      (Free-append is_newline "\t" (j.status <> ("\t" <> j.label)) (refl, tt)
        (Free-append is_newline j.status ("\t" <> j.label) (Free-newline j.status s.0)
          (Free-append is_newline "\t" j.label (refl, tt) (Free-newline j.label l.0))))

-- The lines of the table, and the empty one after the last newline.
pieces :
    (jobs : List Job)
    → All IsRow jobs
    → split_where is_newline (rows jobs) ≡ map line jobs ++ "" ∷ []
pieces [] h = refl
pieces (j ∷ jobs) h =
    split_where_after is_newline (line j) (rows jobs) newline (Free-line j h.0) (newline_ends tt)
    ∙ ap (λ ls. line j ∷ ls) (pieces jobs h.1)
  where
    newline_ends : Unit {0} → is_newline (code newline) ≡ true
    newline_ends u = unfold is_newline in refl

split-rows : (jobs : List Job) → All IsRow jobs → split b'\n' (rows jobs) ≡ map line jobs ++ "" ∷ []
unfolding is_newline
split-rows jobs h = split-split_where b'\n' (rows jobs) ∙ pieces jobs h

row-line :
    (j : Job) (label : String)
    → IsRow j
    → row (fields (line j)) label ≡ (if j.label =s label then some (not (j.pid =s "-")) else none)
unfolding row
row-line j label h = ap (λ cols. row cols label) (fields-line j h)

running_in-lines :
    (jobs : List Job) (label : String)
    → All IsRow jobs
    → running_in (map line jobs ++ "" ∷ []) label ≡ runs jobs label
unfolding running_in row pick
running_in-lines [] label h = refl
running_in-lines (j ∷ jobs) label h =
    let rest = running_in (map line jobs ++ "" ∷ []) label in
    ap (λ o. pick o rest) (row-line j label h.0) ∙ elim (Bool-cases (j.label =s label)) [
      | inl e ↦ rw e refl
      | inr e ↦ rw e (running_in-lines jobs label h.1)
    ]

header-IsRow : IsRow header
header-IsRow = (
  ((refl, (refl, (refl, tt))), refl),
  ((refl, (refl, (refl, (refl, (refl, (refl, tt)))))), refl),
  ((refl, (refl, (refl, (refl, (refl, tt))))), refl),
)

-- From the table that `launchctl list` prints, `IsRunning` reads whether the first job of that
-- label runs, if no field of the table holds white space or is empty and the label is not the
-- word that stands over its column.
pub running_in-table :
    (jobs : List Job) (label : String)
    → All IsRow jobs
    → label ≢ "Label"
    → running_in (split b'\n' (table jobs)) label ≡ runs jobs label
running_in-table jobs label h other =
    ap (λ ls. running_in ls label) (split-rows (header ∷ jobs) (header-IsRow, h))
    ∙ running_in-lines (header ∷ jobs) label (header-IsRow, h)
    ∙ (elim (Bool-cases ("Label" =s label)) [
      | inl e ↦ absurd (other (sym ((eq_iff "Label" label).0 e)))
      | inr e ↦ rw e refl
    ])

-- A job of that label is loaded.
abbrev pub has_job : List Job → String → Bool
has_job [] label = false
has_job (j ∷ jobs) label = j.label =s label || has_job jobs label

line-contains : (j : Job) → contains (codes (line j)) (codes j.label) ≡ true
line-contains j = contains_behind j.pid _ (codes j.label) (
    contains_behind "\t" _ (codes j.label) (
      contains_behind j.status _ (codes j.label)
        (contains_behind "\t" _ (codes j.label) (contains_self j.label))))

-- The label of a loaded job stands in the table.
rows-contains :
    (jobs : List Job) (label : String)
    → has_job jobs label ≡ true
    → contains (codes (rows jobs)) (codes label) ≡ true
rows-contains [] label h = cc
rows-contains (j ∷ jobs) label h = elim (Bool-cases (j.label =s label)) [
  | inl e ↦
      subst (λ (l : String). contains (codes (rows (j ∷ jobs))) (codes l) ≡ true)
        ((eq_iff j.label label).0 e) (contains_before (line j) _ (codes j.label) (line-contains j))
  | inr e ↦
      contains_behind (line j) _ (codes label)
        (contains_behind "\n" _ (codes label) (rows-contains jobs label (rw e at h)))
]

pub table-contains :
    (jobs : List Job) (label : String)
    → has_job jobs label ≡ true
    → contains (codes (table jobs)) (codes label) ≡ true
table-contains jobs label h =
    contains_behind (line header) _ (codes label)
      (contains_behind "\n" _ (codes label) (rows-contains jobs label h))

-- A label that does not stand in the table is that of no job.
pub unlisted :
    (jobs : List Job) (label : String)
    → contains (codes (table jobs)) (codes label) ≡ false
    → has_job jobs label ≡ false
unlisted jobs label h = elim (Bool-cases (has_job jobs label)) [
  | inl e ↦ cc (table-contains jobs label e, h)
  | inr e ↦ e
]
