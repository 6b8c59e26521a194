-- ===== src/Daemons/Launchd.antt =====
-- daemon/launchd_darwin.go: daemons that launchd keeps.
pub mod Table
pub mod Launchctl
pub mod Kept
pub mod Simulated
use cfdev.Common.{
  String, ◌<>◌, Bool, true, false, not, Option, none, some, List, [], ◌∷◌, ◌++◌, ◌=s◌,
  if◌then◌else◌,
}
use cfdev.Common.Dict.{Dict}
use cfdev.Common.Paths.{join_path}
use cfdev.Common.Text.{codes, contains, split}
use cfdev.Common.Text.Fields.{fields}
use cfdev.Runtime.{Result, ok, err, ◌>>=◌, ◌>>◌, pure}
use cfdev.System.{
  System, Op, Run, Fault, missing, other, run, create, remove as remove_file, write_file, step,
  reading, trying, ignoring, observing, result,
}
use cfdev.Daemons.{DaemonSpec, DaemonRunner}

pub record Launchd : Type 0 where
  pub plist_dir : String

-- `New`
unfoldable pub new : String → Launchd
new plist_dir = record {
  plist_dir = if plist_dir =s "" then "/Library/LaunchDaemons" else plist_dir;
}

section_if : String → String → String
section_if value text = if value =s "" then "" else "\n  " <> text <> "\n  "

arguments : List String → String
arguments [] = ""
arguments (t ∷ ts) = "\n    <string>" <> t <> "</string>\n  " <> arguments ts

socket_entries : Dict String → String
socket_entries [] = ""
socket_entries ((name, path) ∷ d) =
    "\n    <key>"
    <> name
    <> "</key>\n    <dict>\n      <key>SockPathMode</key>\n      <integer>438</integer>\n"
    <> "      <key>SockPathName</key>\n      <string>"
    <> path
    <> "</string>\n    </dict>\n    "
    <> socket_entries d

sockets_section : Dict String → String
unfolding socket_entries
sockets_section [] = ""
sockets_section (e ∷ d) =
    "\n  <key>Sockets</key>\n  <dict>\n    " <> socket_entries (e ∷ d) <> "\n  </dict>\n  "

-- `plistTemplate`, executed. Nothing is escaped.
pub plist : DaemonSpec → String
unfolding section_if arguments sockets_section
plist spec =
    "<?xml version=\"1.0\" encoding=\"UTF-8\"?>\n<!DOCTYPE plist PUBLIC \"-//Apple//DTD PLIST 1.0//EN\""
    <> " \"http://www.apple.com/DTDs/PropertyList-1.0.dtd\">\n<plist version=\"1.0\">\n<dict>\n"
    <> "  <key>Label</key>\n  <string>"
    <> spec.label
    <> "</string>\n  <key>Program</key>\n  <string>"
    <> spec.program
    <> "</string>\n  "
    <> section_if spec.session_type
        ("<key>LimitLoadToSessionType</key>\n  <string>" <> spec.session_type <> "</string>")
    <> "\n  <key>ProgramArguments</key>\n  <array>\n  "
    <> arguments spec.program_arguments
    <> "\n  </array>\n  <key>RunAtLoad</key>\n  <"
    <> (if spec.run_at_load then "true" else "false")
    <> "/>\n  "
    <> sockets_section spec.sockets
    <> "\n  "
    <> section_if spec.stdout_path
        ("<key>StandardOutPath</key>\n  <string>" <> spec.stdout_path <> "</string>")
    <> "\n  "
    <> section_if spec.stderr_path
        ("<key>StandardErrorPath</key>\n  <string>" <> spec.stderr_path <> "</string>")
    <> "\n</dict>\n</plist>\n"

pub plist_path : Launchd → String → String
plist_path l label = join_path (l.plist_dir ∷ (label <> ".plist") ∷ [])

-- The first row of the listing for the label says whether its daemon runs.
unfoldable pub row : List String → String → Option Bool
row (pid ∷ status ∷ name ∷ cols) label = if name =s label then some (not (pid =s "-")) else none
row _ label = none

unfoldable pub pick : Option Bool → Bool → Bool
pick (some b) rest = b
pick none rest = rest

unfoldable pub running_in : List String → String → Bool
unfolding row pick
running_in [] label = false
running_in (line ∷ lines) label = pick (row (fields line) label) (running_in lines label)

-- The arguments of `launchctl load`.
pub load_args : String → DaemonSpec → List String
load_args path spec =
    "launchctl"
    ∷ "load"
    ∷ ((if spec.session_type =s "" then [] else "-S" ∷ "Background" ∷ []) ++ ("-F" ∷ path ∷ []))

-- `if running, _ := …; !running`
unfoldable pub is_sure : Result Bool → Bool
is_sure (ok b) = b
is_sure (err e) = false

module _ (s : System) where
  unfoldable pub list : Run String
  unfolding reading
  list = reading s (run ("launchctl" ∷ "list" ∷ []))

  -- `IsRunning`
  unfoldable pub is_running : String → Run Bool
  unfolding running_in
  is_running label = do out ← list; pure (running_in (split b'\n' out) label)

  -- `isLoaded`
  pub is_loaded : String → Run Bool
  is_loaded label = do out ← list; pure (contains (codes out) (codes label))

  -- `remove`
  pub remove : String → Run (Unit {0})
  unfolding step
  remove label = step s (run ("launchctl" ∷ "remove" ∷ label ∷ []))

  -- `load`
  pub load : String → DaemonSpec → Run (Unit {0})
  unfolding step load_args
  load path spec = step s (run (load_args path spec))

  -- `writePlist`
  pub write_plist : DaemonSpec → String → Run (Unit {0})
  unfolding step
  write_plist spec dest = do step s (create dest); step s (write_file dest (plist spec))

  -- `AddDaemon`
  unfoldable pub add_daemon : Launchd → DaemonSpec → Run (Unit {0})
  unfolding observing
  add_daemon l spec = do
    _removed ← observing (remove spec.label)
    write_plist spec (plist_path l spec.label)
    load (plist_path l spec.label) spec

  -- The result of `os.Remove`: a file that is not there is no error.
  tolerated : Option Fault → Result (Unit {0})
  tolerated none = ok tt
  tolerated (some (missing t)) = ok tt
  tolerated (some (other t)) = result (some (other t)) tt

  pub remove_plist : String → Run (Unit {0})
  unfolding tolerated
  remove_plist path h = (tolerated (s.fault h (remove_file path)), remove_file path ∷ h)

  -- `RemoveDaemon`
  pub remove_daemon : Launchd → String → Run (Unit {0})
  remove_daemon l label = do
    loaded ← is_loaded label
    if loaded then remove label else pure tt
    remove_plist (plist_path l label)

  -- `Start`
  pub start : String → Run (Unit {0})
  unfolding step
  start label = step s (run ("launchctl" ∷ "start" ∷ label ∷ []))

  -- `Stop`
  unfoldable pub stop : String → Run (Unit {0})
  unfolding step observing is_sure
  stop label = do
    running ← observing (is_running label)
    if is_sure running then step s (run ("launchctl" ∷ "stop" ∷ label ∷ [])) else pure tt

  unfoldable pub launchd : Launchd → DaemonRunner
  launchd l = record {
    add_daemon = add_daemon l;
    remove_daemon = remove_daemon l;
    start = start;
    stop = stop;
    is_running = is_running;
  }
