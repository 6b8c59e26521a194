-- ===== src/Daemons/AnalyticsD.antt =====
-- cfanalytics/analyticsd.go: the analytics daemon, as a daemon of the operating system.
use cfdev.Common.{String, Bool, false, [], ◌∷◌, if◌then◌else◌}
use cfdev.Common.Environment.{Environ, getenv}
use cfdev.Common.Paths.{join_path}
use cfdev.Configuration.{Config}
use cfdev.Runtime.{◌>>◌}
use cfdev.System.{Run}
use cfdev.Daemons.{DaemonSpec, DaemonRunner}

-- `AnalyticsDLabel`
abbrev analyticsd_label : String
analyticsd_label = "org.cloudfoundry.cfdev.cfanalyticsd"

-- `DaemonSpec` of macOS and of Windows.
darwin_spec : Config → Environ → DaemonSpec
unfolding getenv
darwin_spec c env = record {
  label = analyticsd_label;
  program = join_path (c.cache_dir ∷ "analyticsd" ∷ []);
  session_type = "Background";
  program_arguments = join_path (c.cache_dir ∷ "analyticsd" ∷ []) ∷ getenv "CFDEV_MODE" env ∷ [];
  run_at_load = false;
  sockets = [];
  stdout_path = join_path (c.log_dir ∷ "analyticsd.stdout.log" ∷ []);
  stderr_path = join_path (c.log_dir ∷ "analyticsd.stderr.log" ∷ []);
}

windows_spec : Config → Environ → DaemonSpec
unfolding getenv
windows_spec c env = record {
  label = analyticsd_label;
  program = join_path (c.cache_dir ∷ "analyticsd.exe" ∷ []);
  session_type = "";
  program_arguments = getenv "CFDEV_MODE" env ∷ [];
  run_at_load = false;
  sockets = [];
  stdout_path = join_path (c.log_dir ∷ "analyticsd.stdout.log" ∷ []);
  stderr_path = "";
}

module _ (runner : DaemonRunner) (is_windows : Bool) (c : Config) (env : Environ) where
  daemon_spec : DaemonSpec
  unfolding darwin_spec windows_spec
  daemon_spec = if is_windows then windows_spec c env else darwin_spec c env

  -- `Start`
  start : Run (Unit {0})
  unfolding daemon_spec
  start = do runner.add_daemon daemon_spec; runner.start analyticsd_label

  -- `Stop`
  stop : Run (Unit {0})
  stop = runner.stop analyticsd_label

  -- `Destroy`
  destroy : Run (Unit {0})
  destroy = runner.remove_daemon analyticsd_label

  -- `IsRunning`
  is_running : Run Bool
  is_running = runner.is_running analyticsd_label
