-- ===== src/Commands/Telemetry.antt =====
-- cmd/telemetry/telemetry.go: shows whether telemetry is on, and turns it on or off.
pub mod Off
use cfdev.Common.{String, Bool, true, false, Option, none, some, if◌then◌else◌}
use cfdev.Errors.{Error}
use cfdev.Runtime.{
  Call, text, say, event, set_cf_analytics, set_custom_analytics, toggle_enabled,
  analyticsd_is_running, analyticsd_start, analyticsd_stop, analyticsd_destroy, World, Exec, ◌>>=◌,
  ◌>>◌, pure, wrapping, call, ignoring, ask, peek,
}

-- The flags `--off` and `--on`.
pub record Flags : Type 0 where
  pub off : Bool
  pub on : Bool

module _ (w : World) where
  unfoldable pub stop_daemon : Bool → Exec (Unit {0})
  stop_daemon running =
      if running
      then (do
        wrapping "turning off analyticsd" (call w analyticsd_stop)
        wrapping "destroying analyticsd" (call w analyticsd_destroy))
      else pure tt

  start_daemon : Bool → Exec (Unit {0})
  start_daemon running =
      if running then pure tt else wrapping "turning on analyticsd" (call w analyticsd_start)

  -- `turnTelemetryOff`
  unfoldable pub turn_telemetry_off : Exec (Unit {0})
  unfolding stop_daemon
  turn_telemetry_off = do
    ignoring w (event "telemetry off")
    wrapping "turning off telemetry" (call w (set_custom_analytics false))
    running ← wrapping "checking if analyticsd is running" (ask w w.flag analyticsd_is_running)
    stop_daemon running

  -- `turnTelemetryOn`
  pub turn_telemetry_on : Exec (Unit {0})
  unfolding start_daemon
  turn_telemetry_on = do
    wrapping "turning on telemetry" (call w (set_cf_analytics true))
    running ← wrapping "checking if analyticsd is running" (ask w w.flag analyticsd_is_running)
    start_daemon running

  turn : Flags → Exec (Unit {0})
  unfolding turn_telemetry_off turn_telemetry_on
  turn flags =
      if flags.off then turn_telemetry_off else if flags.on then turn_telemetry_on else pure tt

  -- `RunE`
  pub run_e : Flags → Exec (Unit {0})
  unfolding turn
  run_e flags = do
    turn flags
    enabled ← peek w w.flag toggle_enabled
    ignoring w
        (say (text (if enabled then "Telemetry is turned ON" else "Telemetry is turned OFF")))
