-- ===== src/Hypervisor/LinuxKit/Examples.antt =====
-- The theorems on the virtual machine of macOS: at a host whose pid file is stale, and at a simulated
-- launchctl.
use cfdev.Common.{
  ◌≡◌, ◌≢◌, ◌↔◌, refl, eq_iff, List, ◌∷◌, true, String, false, Option, none, some, [],
}
use cfdev.Common.Int.{pos}
use cfdev.Configuration.Sample.{config}
use cfdev.Errors.{Error}
use cfdev.Runtime.{ok, err, ◌>>=◌}
use cfdev.System.{System, Op, run, Fault, other, remove, read_file, proc_pidpath}
use cfdev.Daemons.Launchd.Launchctl.{registry}
use cfdev.Daemons.Launchd.Table.{runs}
use cfdev.Daemons.Launchd.Kept.{launchd-Implements}
use cfdev.Daemons.Launchd.Simulated.{mac, jobs_of, mac-Launchctl, changed, is_word, is_free}
use cfdev.Hypervisor.LinuxKit.Stopped.{IsLocal, reads, looks_up, kills, removes, is_running-stop}
use cfdev.Daemons.Launchd.{launchd, new}
use cfdev.Hypervisor.LinuxKit.{
  linuxkit_label, safe_kill, pidfile, stop, is_running, after_read, last_error,
}
use cfdev.Hypervisor.LinuxKit.Killing.{Guarded, safe_kill-Guarded, stop_lem}

abbrev printed : Op → String
printed (read_file path) = "123"
printed (proc_pidpath pid) = "/usr/local/bin/hyperkit"
printed o = ""

-- Removing a file fails.
abbrev refused : Op → Option Fault
refused (remove path) = some (other "operation not permitted")
refused o = none

abbrev host : System
host = record {
  fault = λ h o. refused o;
  output = λ h o. printed o;
  count = λ h o. pos 23;
  fired = λ h. false;
  quoted = λ t. t;
  number_error = λ t. t;
}

safe_kill-Guarded_example :
    Guarded host "hyperkit" (safe_kill host "/state/hyperkit.pid" "hyperkit" []).1
safe_kill-Guarded_example = safe_kill-Guarded host "hyperkit" refl "/state/hyperkit.pid" [] tt

stop_lem_example :
    let runner = launchd host (new "") in
    let stopped = runner.stop linuxkit_label [] in
    let killed = safe_kill host (pidfile config) "hyperkit" stopped.1 in
    ((stop host runner config "cfdev" []).1 ≡ killed.1)
    × (((stop host runner config "cfdev" []).0 ≡ ok tt)
        ↔ ((stopped.0 ≡ ok tt) × (killed.0 ≡ ok tt)))
    × ((e : Error) → killed.0 ≡ err e → (stop host runner config "cfdev" []).0 ≡ err e)
stop_lem_example = stop_lem host (launchd host (new "")) config "cfdev" []

idle :
    (o : Op) (h : List Op)
    → IsLocal o
    → runs (jobs_of h) linuxkit_label ≡ false
    → runs (jobs_of (o ∷ h)) linuxkit_label ≡ false
idle o h (reads path) e = e
idle o h (looks_up pid) e = e
idle o h (kills pid) e = e
idle o h (removes path) e = e

is_no_title : ◌≢◌ {A = String} linuxkit_label "Label"
is_no_title e = cc ((eq_iff linuxkit_label "Label").1 e)

-- The machine was started.
abbrev started : List Op
started = run ("launchctl" ∷ "start" ∷ linuxkit_label ∷ []) ∷ []

is_running-stop_example :
    let runner = launchd mac (new "") in
    (is_running mac runner config "cfdev" (stop mac runner config "cfdev" started).1).0 ≢ ok true
unfolding launchd changed is_word is_free new ◌>>=◌ is_running stop safe_kill after_read last_error
    cfdev.Daemons.Launchd.is_running cfdev.Daemons.Launchd.list cfdev.Daemons.Launchd.stop
    cfdev.Daemons.Launchd.running_in cfdev.Daemons.Launchd.pick cfdev.Daemons.Launchd.row
is_running-stop_example =
    is_running-stop mac (launchd mac (new "")) config (registry jobs_of)
      (launchd-Implements mac jobs_of mac-Launchctl (new "")) is_no_title idle "cfdev" started true
      refl refl
