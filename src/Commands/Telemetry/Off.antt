-- ===== src/Commands/Telemetry/Off.antt =====
-- What `cf dev telemetry --off` has done where it returns no error.
use cfdev.Common.{◌≡◌, ◌⊎◌, inl, inr, false, none, List, ◌∷◌, arith, Bool-cases, Option-cases}
use cfdev.Runtime.{
  Call, event, set_custom_analytics, analyticsd_is_running, analyticsd_stop, analyticsd_destroy,
  World, ok, ◌>>=◌, wrapping, pure,
}
use cfdev.Commands.Telemetry.{stop_daemon, turn_telemetry_off}

-- The daemon was not running, or has been stopped and removed.
abbrev pub IsDown : World → List Call → Type 0
IsDown w h =
    (w.flag h analyticsd_is_running ≡ false)
    ⊎ ((w.fails (analyticsd_is_running ∷ h) analyticsd_stop ≡ none)
        × (w.fails (analyticsd_stop ∷ analyticsd_is_running ∷ h) analyticsd_destroy ≡ none))

-- If turning telemetry off returns no error, then the choice against it has been saved, and the
-- analytics daemon was found not to be running or has been stopped and removed.
pub turn_telemetry_off-IsDown :
    (w : World) (h : List Call)
    → (turn_telemetry_off w h).0 ≡ ok tt
    → let saved = set_custom_analytics false ∷ event "telemetry off" ∷ h in
      (w.fails (event "telemetry off" ∷ h) (set_custom_analytics false) ≡ none)
      × (w.fails saved analyticsd_is_running ≡ none)
      × IsDown w saved
unfolding turn_telemetry_off stop_daemon wrapping pure ◌>>=◌
turn_telemetry_off-IsDown w h done =
    let saved = set_custom_analytics false ∷ event "telemetry off" ∷ h in
    elim (Option-cases (w.fails (event "telemetry off" ∷ h) (set_custom_analytics false))) [
      | inr (x, e) ↦ absurd (ground (arith, e, done))
      | inl e ↦ elim (Option-cases (w.fails saved analyticsd_is_running)) [
        | inr (x, f) ↦ absurd (ground (arith, e, f, done))
        | inl f ↦ elim (Bool-cases (w.flag saved analyticsd_is_running)) [
          | inr down ↦ (e, f, inl down)
          | inl up ↦
              let asked = analyticsd_is_running ∷ saved in
              elim (Option-cases (w.fails asked analyticsd_stop)) [
                | inr (x, g) ↦ absurd (ground (arith, e, f, up, g, done))
                | inl g ↦
                    elim (Option-cases (w.fails (analyticsd_stop ∷ asked) analyticsd_destroy)) [
                      | inr (x, k) ↦ absurd (ground (arith, e, f, up, g, k, done))
                      | inl k ↦ (e, f, inr (g, k))
                    ]
              ]
        ]
      ]
    ]
