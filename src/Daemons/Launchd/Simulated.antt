-- ===== src/Daemons/Launchd/Simulated.antt =====
-- A launchctl that is simulated, and does what is relied on.
use Prim.Native.Char.{code}
use cfdev.Common.{
  ◌≡◌, ◌≢◌, refl, inl, inr, String, Bool, true, false, not, ◌&&◌, Option, none, some, List, [], ◌∷◌,
  ◌=s◌, eq_iff, All, arith, Bool-cases, if◌then◌else◌,
}
use cfdev.Common.Text.{is_space}
use cfdev.Common.Text.Fields.{Free}
use cfdev.System.Sample.{host_with}
use cfdev.System.{System, Op, Fault, missing, other, run, read_file}
use cfdev.Daemons.{DaemonSpec}
use cfdev.Daemons.Launchd.{load_args}
use cfdev.Daemons.Launchd.Table.{Job, IsRow, table, runs, has_job}
use cfdev.Daemons.Launchd.Launchctl.{Launchctl}

unfoldable pub is_free : String → Bool
is_free String.[] = true
is_free (String.◌∷◌ c s) = not (is_space (code c)) && is_free s

Free-is_free : (s : String) → is_free s ≡ true → Free is_space s
unfolding is_free
Free-is_free String.[] h = tt
Free-is_free (String.◌∷◌ c s) h = (ground (arith, h), Free-is_free s (ground (arith, h)))

unfoldable pub is_word : String → Bool
unfolding is_free
is_word w = is_free w && not (w =s "")

unfoldable pub without : String → List Job → List Job
without label [] = []
without label (j ∷ jobs) =
    let rest = without label jobs in if j.label =s label then rest else j ∷ rest

abbrev job : String → String → Job
job pid label = record { pid = pid; status = "0"; label = label }

-- What a command does to the jobs.
unfoldable pub changed : String → String → List Job → List Job
unfolding without
changed verb label jobs =
    if verb =s "start"
    then job "1" label ∷ jobs
    else if verb =s "stop"
    then job "-" label ∷ jobs
    else if verb =s "remove"
    then without label jobs
    else jobs

-- The verb and the label of a command.
abbrev command_of : Op → Option (String × String)
command_of (run (c ∷ verb ∷ label ∷ [])) = some (verb, label)
command_of _ = none

-- A command about a label that is a word succeeds; `list` does; nothing is ever loaded. There is no
-- file to read.
abbrev obeyed : Option (String × String) → List Job → List Job
obeyed none jobs = jobs
obeyed (some (verb, label)) jobs = if is_word label then changed verb label jobs else jobs

abbrev effect : Op → List Job → List Job
effect o jobs = obeyed (command_of o) jobs

abbrev pub jobs_of : List Op → List Job
jobs_of [] = []
jobs_of (o ∷ h) = effect o (jobs_of h)

abbrev refusal : Op → Option Fault
refusal (run (c ∷ verb ∷ [])) = none
refusal (run (c ∷ verb ∷ label ∷ [])) = if is_word label then none else some (other "no such label")
refusal (run _) = some (other "not loaded")
refusal (read_file path) = some (missing "no such file")
refusal _ = none

abbrev answer : Op → List Job → String
answer (run (c ∷ verb ∷ [])) jobs = table jobs
answer _ jobs = ""

abbrev pub mac : System
mac = host_with (λ h o. refusal o) (λ h o. answer o (jobs_of h))

runs-start : (label : String) (jobs : List Job) → runs (changed "start" label jobs) label ≡ true
unfolding changed
runs-start label jobs = rw ((eq_iff label label).1 refl) refl

runs-stop : (label : String) (jobs : List Job) → runs (changed "stop" label jobs) label ≡ false
unfolding changed
runs-stop label jobs = rw ((eq_iff label label).1 refl) refl

has_job-without : (label : String) (jobs : List Job) → has_job (without label jobs) label ≡ false
unfolding without
has_job-without label [] = refl
has_job-without label (j ∷ jobs) = elim (Bool-cases (j.label =s label)) [
  | inl e ↦ rw (e, without) (has_job-without label jobs)
  | inr e ↦ rw (e, without) (rw e (has_job-without label jobs))
]

has_job-remove :
    (label : String) (jobs : List Job) → has_job (changed "remove" label jobs) label ≡ false
unfolding changed
has_job-remove label jobs = has_job-without label jobs

All-without : (label : String) (jobs : List Job) → All IsRow jobs → All IsRow (without label jobs)
unfolding without
All-without label [] h = tt
All-without label (j ∷ jobs) h = elim (Bool-cases (j.label =s label)) [
  | inl e ↦ rw (e, without) (All-without label jobs h.1)
  | inr e ↦ rw (e, without) (h.0, All-without label jobs h.1)
]

IsRow-job :
    (pid label : String)
    → Free is_space pid × ((pid =s "") ≡ false)
    → is_word label ≡ true
    → IsRow (job pid label)
unfolding is_word
IsRow-job pid label p h =
    (p, ((refl, tt), refl), (Free-is_free label (ground (arith, h)), ground (arith, h)))

All-changed :
    (verb label : String) (jobs : List Job)
    → is_word label ≡ true
    → All IsRow jobs
    → All IsRow (changed verb label jobs)
unfolding changed
All-changed verb label jobs w h = elim (Bool-cases (verb =s "start")) [
  | inl a ↦ rw a (IsRow-job "1" label ((refl, tt), refl) w, h)
  | inr a ↦ elim (Bool-cases (verb =s "stop")) [
    | inl b ↦ rw (a, b) (IsRow-job "-" label ((refl, tt), refl) w, h)
    | inr b ↦ elim (Bool-cases (verb =s "remove")) [
      | inl c ↦ rw (a, b, c) (All-without label jobs h)
      | inr c ↦ rw (a, b, c) h
    ]
  ]
]

All-obeyed :
    (o : Option (String × String)) (jobs : List Job) → All IsRow jobs → All IsRow (obeyed o jobs)
All-obeyed none jobs h = h
All-obeyed (some (verb, label)) jobs h = elim (Bool-cases (is_word label)) [
  | inl w ↦ rw w (All-changed verb label jobs w h)
  | inr w ↦ rw w h
]

All-jobs_of : (h : List Op) → All IsRow (jobs_of h)
All-jobs_of [] = tt
All-jobs_of (o ∷ h) = All-obeyed (command_of o) (jobs_of h) (All-jobs_of h)

-- A command that was not refused was about a word.
accepted :
    (label : String)
    → (if is_word label then none else some (other "no such label")) ≡ none
    → is_word label ≡ true
accepted label h = elim (Bool-cases (is_word label)) [
  | inl w ↦ w
  | inr w ↦ absurd (ground (arith, w, h))
]

never_loaded : (path : String) (spec : DaemonSpec) → refusal (run (load_args path spec)) ≢ none
unfolding load_args
never_loaded path spec h = elim (Bool-cases (spec.session_type =s "")) [
  | inl e ↦ ground (arith, e, h)
  | inr e ↦ ground (arith, e, h)
]

pub mac-Launchctl : Launchctl mac jobs_of
mac-Launchctl = record {
  rows_are_words = All-jobs_of;
  listing = λ h f. refl;
  listing_keeps = λ h. refl;
  removal_keeps = λ h path. refl;
  loads = λ h path spec f. absurd (never_loaded path spec f);
  starts = λ h label f. rw (accepted label f) (runs-start label (jobs_of h));
  stops = λ h label f. rw (accepted label f) (runs-stop label (jobs_of h));
  removes = λ h label f. rw (accepted label f) (has_job-remove label (jobs_of h));
}
