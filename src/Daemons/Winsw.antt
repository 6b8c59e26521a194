-- ===== src/Daemons/Winsw.antt =====
-- daemon/winsw_windows.go: daemons as Windows services, each with a copy of winsw.exe.
pub mod Services
pub mod Kept
mod Examples
use cfdev.Common.{
  String, ◌<>◌, Bool, true, false, not, ◌||◌, Option, none, some, List, [], ◌∷◌, ◌=s◌,
  if◌then◌else◌,
}
use cfdev.Common.Paths.{join_with, join_path, dir_name}
use cfdev.Common.Text.{codes, contains, same, trim_space}
use cfdev.Errors.{plain}
use cfdev.Runtime.{Result, ok, err, ◌>>=◌, ◌>>◌, pure}
use cfdev.System.{
  System, Op, Run, message, run, create, read_file, mkdir_all, write_file, step, reading, ignoring,
  observing,
}
use cfdev.Daemons.{DaemonSpec, DaemonRunner}
use cfdev.Daemons.Launchd.{is_sure}

pub record WinSw : Type 0 where
  pub binary_path : String
  pub services_dir : String

-- `NewWinSW`
new_winsw : String → WinSw
new_winsw home = record {
  binary_path = join_path (home ∷ "cache" ∷ "winsw.exe" ∷ []);
  services_dir = join_path (home ∷ "winservice" ∷ []);
}

-- `Config`, the document that winsw reads.
pub record Config : Type 0 where
  pub id : String
  pub name : String
  pub description : String
  pub executable : String
  pub arguments : String
  pub start_mode : String
  pub log_path : String
  pub log_mode : String

config_of : DaemonSpec → Config
config_of spec = record {
  id = spec.label;
  name = spec.label;
  description = spec.label;
  executable = spec.program;
  arguments = join_with " " spec.program_arguments;
  start_mode = "Manual";
  log_path = dir_name spec.stdout_path;
  log_mode = "rotate";
}

-- `getServicePaths`
pub get_service_paths : String → String → String × String
get_service_paths label services_dir =
    let service_dst = join_path (services_dir ∷ label ∷ []) in
    (service_dst, join_path (service_dst ∷ (label <> ".exe") ∷ []))

abbrev pub installed_query : String → List String
installed_query label =
    "powershell.exe" ∷ "-C" ∷ ("Get-Service | Where-Object {$_.Name -eq \"" <> label <> "\"}") ∷ []

-- What `winsw.exe status` says.
pub says_running : String → Bool
says_running out = contains (codes out) (codes "Started") || contains (codes out) (codes "Running")

-- What `powershell.exe` says of an installed service is more than space.
pub says_installed : String → Bool
says_installed out = not (same (trim_space (codes out)) [])

pub executable_path : WinSw → String → String
unfolding get_service_paths
executable_path w label = (get_service_paths label w.services_dir).1

-- The document that `xml.Encoder` writes is a parameter; an error of the encoder is dropped.
module _ (s : System) (encode : Config → String) (w : WinSw) where
  -- `runCommand` on winsw.exe. `%v` of the arguments is what `join_with` makes of them in brackets.
  pub run_command : String → String → Run (Unit {0})
  run_command path verb h =
      let o = run (path ∷ verb ∷ []) in
      elim (s.fault h o) [
        | none ↦ (ok tt, o ∷ h)
        | some e ↦ (
          err (
              plain (
                "Failed to execute "
                <> path
                <> ", ["
                <> join_with " " (path ∷ verb ∷ [])
                <> "]: "
                <> message e
                <> ": "
                <> s.output h o)),
          o ∷ h,
        )
      ]

  -- `copyBinary`
  pub copy_binary : String → String → Run (Unit {0})
  unfolding reading step
  copy_binary src dst = do contents ← reading s (read_file src); step s (write_file dst contents)

  -- `createXml`
  pub create_xml : String → DaemonSpec → Run (Unit {0})
  unfolding step ignoring config_of
  create_xml service_dst spec = do
    step s (create (join_path (service_dst ∷ (spec.label <> ".xml") ∷ [])))
    _written ← ignoring s (
        write_file (join_path (service_dst ∷ (spec.label <> ".xml") ∷ []))
          (encode (config_of spec)))
    pure tt

  -- `AddDaemon`
  pub add_daemon : DaemonSpec → Run (Unit {0})
  unfolding step executable_path get_service_paths run_command
  add_daemon spec = do
    step s (mkdir_all (get_service_paths spec.label w.services_dir).0)
    copy_binary w.binary_path (executable_path w spec.label)
    create_xml (get_service_paths spec.label w.services_dir).0 spec
    run_command (executable_path w spec.label) "install"

  -- `isInstalled`
  pub is_installed : String → Run Bool
  unfolding ignoring says_installed
  is_installed label = do out ← ignoring s (run (installed_query label)); pure (says_installed out)

  -- `RemoveDaemon`
  pub remove_daemon : String → Run (Unit {0})
  unfolding executable_path run_command
  remove_daemon label = do
    installed ← is_installed label
    if installed then run_command (executable_path w label) "uninstall" else pure tt

  -- `Start`
  pub start : String → Run (Unit {0})
  unfolding executable_path run_command
  start label = run_command (executable_path w label) "start"

  pub status : String → Run Bool
  unfolding reading says_running executable_path
  status label = do
    out ← reading s (run (executable_path w label ∷ "status" ∷ []))
    pure (says_running out)

  -- `IsRunning`
  pub is_running : String → Run Bool
  is_running label = do
    installed ← is_installed label
    if installed then status label else pure false

  -- `Stop`
  pub stop : String → Run (Unit {0})
  unfolding observing is_sure executable_path run_command
  stop label = do
    running ← observing (is_running label)
    if is_sure running then run_command (executable_path w label) "stop" else pure tt

  pub winsw : DaemonRunner
  winsw = record {
    add_daemon = add_daemon;
    remove_daemon = remove_daemon;
    start = start;
    stop = stop;
    is_running = is_running;
  }
