-- ===== src/Daemons/Examples.antt =====
-- The theorems on daemons at a launchctl and a set of services that are simulated.
use cfdev.Common.{◌≡◌, ◌≢◌, ◌≤◌, refl, ℕ, String, true, false, List, [], ◌∷◌, eq_iff, arith}
use cfdev.Runtime.{◌>>=◌}
use cfdev.System.{Op, run, send}
use cfdev.Daemons.Contract.{Implements}
use cfdev.Daemons.Launchd.{launchd, is_running, running_in, pick, row, list, new}
use cfdev.Daemons.Launchd.Table.{runs}
use cfdev.Daemons.Launchd.Launchctl.{registry}
use cfdev.Daemons.Launchd.Kept.{launchd-Implements}
use cfdev.Daemons.Watch.{watch}
use cfdev.Daemons.Watch.Lively.{after_rounds, watch_ends}
use cfdev.Daemons.Launchd.Simulated.{jobs_of, mac, mac-Launchctl, is_free, is_word, changed}

launchd-Implements_example : Implements (launchd mac (new "")) (registry jobs_of)
launchd-Implements_example = launchd-Implements mac jobs_of mac-Launchctl (new "")

vpnkit_is_no_title : ◌≢◌ {A = String} "vpnkit" "Label"
vpnkit_is_no_title e = cc ((eq_iff "vpnkit" "Label").1 e)

-- vpnkit was started, and has been stopped.
abbrev stopped : List Op
stopped =
    run ("launchctl" ∷ "stop" ∷ "vpnkit" ∷ []) ∷ run ("launchctl" ∷ "start" ∷ "vpnkit" ∷ []) ∷ []

watch_ends_example :
    (m : ℕ) × (m ≤ 1)
    × (runs (jobs_of (after_rounds (launchd mac (new "")) "vpnkit" "vpnkit" m stopped)) "vpnkit"
        ≡ false)
    × (watch (launchd mac (new "")) "vpnkit" "vpnkit" 3 stopped ≡ (
      true,
      send "vpnkit"
          ∷ ((launchd mac (new "")).is_running "vpnkit"
              (after_rounds (launchd mac (new "")) "vpnkit" "vpnkit" m stopped)).1,
    ))
unfolding launchd is_running list running_in pick row changed is_word is_free new ◌>>=◌
watch_ends_example =
    watch_ends (launchd mac (new "")) "vpnkit" "vpnkit" (registry jobs_of)
      (launchd-Implements mac jobs_of mac-Launchctl (new "")) vpnkit_is_no_title 1 3 stopped false
      (omega arith) refl refl
