-- ===== src/Commands/Plugin.antt =====
-- `Run` of main.go: the plugin asks for consent, runs its command and reports the error.
use cfdev.Common.{
  String, Bool, false, not, ◌&&◌, Option, none, some, List, [], ◌∷◌, ◌=s◌, if◌then◌else◌,
}
use cfdev.Common.Text.{codes, lower, same}
use cfdev.Errors.{Error, error, safe_error}
use cfdev.Runtime.{
  Call, World, Exec, Result, ok, err, text, say, event, event_with, prompt_opt_in, exit, ◌>>=◌,
  ◌>>◌, pure, ignoring, attempt,
}

abbrev is_word : String → String → Bool
is_word a word = same (lower (codes a)) (codes word)

-- Whether the user is asked: for every command but those that ask themselves.
asks_first : List String → Bool
asks_first (plugin ∷ command ∷ args) =
    not (is_word command "telemetry") && not (is_word command "start")
asks_first _ = false

is_uninstall : List String → Bool
is_uninstall [] = false
is_uninstall (a ∷ args) = a =s "CLI-MESSAGE-UNINSTALL"

module _ (w : World) where
  -- `UI.Failed`, and the end of the process.
  fail : Error → Exec (Unit {0})
  fail e = do ignoring w (say (text (error e))); ignoring w (exit 1)

  report_failure : Error → Exec (Unit {0})
  report_failure e = do
    ignoring w (say (text (error e)))
    ignoring w (event_with "error" (safe_error e))
    ignoring w (exit 1)

  -- What follows the commands' own run, which is a parameter.
  after_root : (List Call → Result (Unit {0}) × List Call) → Exec (Unit {0})
  unfolding report_failure
  after_root root h = elim (root h).0 [
    | ok u ↦ (ok tt, (root h).1)
    | err e ↦ report_failure e (root h).1
  ]

  go_on_after : Option Error → Exec (Unit {0}) → Exec (Unit {0})
  unfolding fail
  go_on_after none rest = rest
  go_on_after (some e) rest = fail e

  -- `Run`. Closing the analytics client is left out.
  run : List String → Exec (Unit {0}) → Exec (Unit {0})
  unfolding is_uninstall asks_first go_on_after after_root
  run args root = if is_uninstall args then ignoring w (event "uninstall") else (do
    asked ← if asks_first args then attempt w (prompt_opt_in "") else pure none
    go_on_after asked (after_root root))
