-- ===== src/Daemons/Launchd/Launchctl.antt =====
-- What launchd_darwin.go relies on: the documented behaviour of launchctl.
use cfdev.Common.{◌≡◌, ◌≢◌, String, true, false, none, List, [], ◌∷◌, All}
use cfdev.System.{System, Op, run, remove as remove_file, write_file}
use cfdev.Daemons.{DaemonSpec}
use cfdev.Daemons.Contract.{Registry}
use cfdev.Daemons.Launchd.{plist, load_args}
use cfdev.Daemons.Launchd.Table.{Job, IsRow, table, runs, has_job}

-- launchctl, with the jobs that launchd has after a history: `list` prints them, and each command
-- that succeeds does what its manual says. Files are nothing to it.
pub record Launchctl (s : System) (jobs : List Op → List Job) : Type 0 where
  pub rows_are_words : (h : List Op) → All IsRow (jobs h)
  pub listing :
      (h : List Op)
      → s.fault h (run ("launchctl" ∷ "list" ∷ [])) ≡ none
      → s.output h (run ("launchctl" ∷ "list" ∷ [])) ≡ table (jobs h)
  pub listing_keeps : (h : List Op) → jobs (run ("launchctl" ∷ "list" ∷ []) ∷ h) ≡ jobs h
  pub removal_keeps : (h : List Op) (path : String) → jobs (remove_file path ∷ h) ≡ jobs h
  -- A property list that has just been written.
  pub loads :
      (h : List Op) (path : String) (spec : DaemonSpec)
      → s.fault (write_file path (plist spec) ∷ h) (run (load_args path spec)) ≡ none
      → has_job (jobs (run (load_args path spec) ∷ write_file path (plist spec) ∷ h)) spec.label
        ≡ true
  pub starts :
      (h : List Op) (label : String)
      → s.fault h (run ("launchctl" ∷ "start" ∷ label ∷ [])) ≡ none
      → runs (jobs (run ("launchctl" ∷ "start" ∷ label ∷ []) ∷ h)) label ≡ true
  pub stops :
      (h : List Op) (label : String)
      → s.fault h (run ("launchctl" ∷ "stop" ∷ label ∷ [])) ≡ none
      → runs (jobs (run ("launchctl" ∷ "stop" ∷ label ∷ []) ∷ h)) label ≡ false
  pub removes :
      (h : List Op) (label : String)
      → s.fault h (run ("launchctl" ∷ "remove" ∷ label ∷ [])) ≡ none
      → has_job (jobs (run ("launchctl" ∷ "remove" ∷ label ∷ []) ∷ h)) label ≡ false

abbrev pub registry : (List Op → List Job) → Registry
registry jobs = record {
  knows = λ h label. has_job (jobs h) label;
  runs = λ h label. runs (jobs h) label;
  IsName = λ label. label ≢ "Label";
}
