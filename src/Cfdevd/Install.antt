-- ===== src/Cfdevd/Install.antt =====
-- cfdevd/install.go: cfdevd installs itself as a daemon of launchd.
use cfdev.Common.{String, false, List, [], ◌∷◌, if◌then◌else◌}
use cfdev.Common.Paths.{dir_name}
use cfdev.Runtime.{◌>>=◌, ◌>>◌, pure}
use cfdev.System.{
  System, Run, read_file, create, chmod, mkdir_all, write_file, step, reading, prefixing,
}
use cfdev.Daemons.{DaemonSpec}
use cfdev.Daemons.Launchd.{new, is_running, add_daemon}

abbrev cfdevd_label : String
cfdevd_label = "org.cloudfoundry.cfdevd"

abbrev program : String
program = "/Library/PrivilegedHelperTools/org.cloudfoundry.cfdevd"

cfdevd_spec : List String → DaemonSpec
cfdevd_spec args = record {
  label = cfdevd_label;
  program = program;
  program_arguments = program ∷ args;
  session_type = "";
  run_at_load = false;
  sockets = ("ListenSocket", "/var/tmp/cfdevd.socket") ∷ [];
  stdout_path = "/var/tmp/cfdevd.stdout.log";
  stderr_path = "/var/tmp/cfdevd.stderr.log";
}

module _ (s : System) where
  -- `copyExecutable`
  copy_executable : String → String → Run (Unit {0})
  unfolding step reading
  copy_executable src dest = do
    step s (mkdir_all (dir_name dest))
    step s (create dest)
    step s (chmod dest 484)
    contents ← reading s (read_file src)
    step s (write_file dest contents)

  install_spec : String → DaemonSpec → Run (Unit {0})
  unfolding prefixing add_daemon
  install_spec program_src spec = do
    prefixing "failed to copy cfdevd" (copy_executable program_src program)
    prefixing "failed to install cfdevd" (add_daemon s (new "") spec)

  -- `install`
  install : String → List String → Run (Unit {0})
  unfolding prefixing is_running cfdevd_spec
  install program_src args = do
    running ← prefixing "checking if analyticsd is running" (is_running s cfdevd_label)
    if running then pure tt else install_spec program_src (cfdevd_spec args)
