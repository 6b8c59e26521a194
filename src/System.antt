-- ===== src/System.antt =====
-- The operating system as the daemons, the hypervisors and the network use it: commands, files,
-- sockets and time. A run is the history of the operations that it has made, the latest first.
-- What an operation comes to is unknown: a `System` is any function of it and of the history.
pub mod Preserves
pub mod Leads
pub mod Sample
use cfdev.Common.{◌≡◌, refl, ℕ, Bool, String, ◌<>◌, Option, none, some, List, [], ◌∷◌}
use cfdev.Common.Int.{ℤ}
use cfdev.Errors.{Error, plain, error}
use cfdev.Runtime.{Result, ok, err, ◌>>=◌, pure, raise, wrapping}

pub data Op : Type 0 where
  -- `exec.Command(…)`, run to its end.
  run : List String → Op
  -- The same with more variables in its environment and its output in a log.
  run_logged : List String → List String → String → Op
  read_file stat create remove remove_all mkdir_all : String → Op
  -- `os.OpenFile` to write, with the mode of a new file, and `os.Chmod`.
  open_file chmod : String → ℕ → Op
  -- A file's path and its new contents.
  write_file : String → String → Op
  -- A connection to a socket, closed at once.
  dial : String → Op
  -- A pause, in seconds.
  sleep : ℕ → Op
  -- `C.proc_pidpath` of a process, and `SIGKILL` to one.
  proc_pidpath kill : ℤ → Op
  print : String → Op
  -- A session of SSH: connecting to an address, and a command with what it reads.
  ssh_dial : String → Op
  ssh_session : Op
  ssh_run : String → String → Op
  -- A message on the channel that ends the program.
  send : String → Op

-- The error of an operation. `missing` is one that `os.IsNotExist` holds of.
pub data Fault : Type 0 where
  missing other : String → Fault

pub record System : Type 0 where
  pub fault : List Op → Op → Option Fault
  pub output : List Op → Op → String
  -- What `C.proc_pidpath` returns.
  pub count : List Op → Op → ℤ
  -- Whether a timer that the run waits on has fired.
  pub fired : List Op → Bool
  -- `%q`, and the error of `strconv.Atoi`.
  pub quoted : String → String
  pub number_error : String → String

abbrev pub Run {ℓ} : Type ℓ → Type ℓ
Run A = List Op → Result A × List Op

abbrev pub message : Fault → String
message (missing t) = t
message (other t) = t

abbrev pub result {ℓ} : {A : Type ℓ} → Option Fault → A → Result A
result none a = ok a
result (some e) a = err (plain (message e))

-- A result without an error was that of no fault.
pub result-none {ℓ} : {A : Type ℓ} (f : Option Fault) (a : A) {b : A} → result f a ≡ ok b → f ≡ none
result-none none a e = refl
result-none (some x) a e = cc

module _ (s : System) where
  -- An operation whose error is returned at once.
  unfoldable pub step : Op → List Op → Result (Unit {0}) × List Op
  step o h = (result (s.fault h o) tt, o ∷ h)

  -- The same, for its output.
  unfoldable pub reading : Op → List Op → Result String × List Op
  reading o h = (result (s.fault h o) (s.output h o), o ∷ h)

  -- An operation whose error the caller looks at.
  unfoldable pub trying : Op → List Op → Result (Option Fault) × List Op
  trying o h = (ok (s.fault h o), o ∷ h)

  -- An operation whose error is dropped.
  unfoldable pub ignoring : Op → List Op → Result String × List Op
  ignoring o h = (ok (s.output h o), o ∷ h)

module _ {ℓ} {A : Type ℓ} where
  -- `x, err := m`, where the caller goes on with the error.
  unfoldable pub observing : (List Op → Result A × List Op) → List Op → Result (Result A) × List Op
  observing m h = (ok (m h).0, (m h).1)

  abbrev pub prefixed : String → Result A → Result A
  prefixed text (ok a) = ok a
  prefixed text (err e) = err (plain (text <> ": " <> error e))

  -- `if err := m; err != nil { return fmt.Errorf("text: %s", err) }`
  unfoldable pub prefixing : String → (List Op → Result A × List Op) → List Op → Result A × List Op
  prefixing text m h = (prefixed text (m h).0, (m h).1)

-- `Output` of runner/powershell.go.
unfoldable pub powershell : System → String → List Op → Result String × List Op
unfolding reading
powershell s command h =
    let o = run ("powershell.exe" ∷ "-Command" ∷ command ∷ []) in
    elim (s.fault h o) [
      | none ↦ (ok (s.output h o), o ∷ h)
      | some e ↦ (
        err (
            plain (
              "failed to execute: powershell.exe -Command "
              <> s.quoted command
              <> ": "
              <> message e
              <> ": "
              <> s.output h o)),
        o ∷ h,
      )
    ]
