-- ===== src/Daemons/Watch.antt =====
-- `Watch` of hypervisor/linuxkit.go and of network/vpnkit.go: the loop that polls a daemon and sends
-- the name of the program on the exit channel once the daemon no longer runs.
pub mod Lively
use cfdev.Common.{ℕ, zero, suc, String, Bool, true, false, List, ◌∷◌}
use cfdev.Runtime.{Result, ok, err}
use cfdev.System.{Op, sleep, send}
use cfdev.Daemons.{DaemonRunner}

-- `!running && err == nil`
pub has_ended : Result Bool → Bool
has_ended (ok true) = false
has_ended (ok false) = true
has_ended (err e) = false

module _ (runner : DaemonRunner) (label : String) (name : String) where
  -- Up to `fuel` polls, and whether the loop has ended.
  pub watch : ℕ → List Op → Bool × List Op
  unfolding has_ended
  watch zero h = (false, h)
  watch (suc fuel) h =
      let polled = runner.is_running label h in
      elim (has_ended polled.0) [
        | true ↦ (true, send name ∷ polled.1)
        | false ↦ watch fuel (sleep 5 ∷ polled.1)
      ]
