-- ===== src/Commands/Stop.antt =====
-- cmd/stop/stop.go: tears everything down, whatever fails on the way, and reports the last failure.
pub mod Teardown
pub mod Order
use cfdev.Common.{String, Bool, true, false, Option, none, some, if◌then◌else◌}
use cfdev.Errors.{Error, safe_wrap}
use cfdev.Runtime.{
  Call, event, check_requirements, analyticsd_stop, analyticsd_destroy, vm_stop, vm_destroy,
  vpnkit_stop, vpnkit_destroy, remove_aliases, cfdevd_uninstall, World, Exec, ◌>>=◌, ◌>>◌, pure,
  raise, call, ignoring, attempt,
}

-- `if err := …; err != nil { reterr = SafeWrap(err, msg) }`
pub note : String → Option Error → Option Error → Option Error
note msg reterr none = reterr
note msg reterr (some e) = some (safe_wrap e msg)

pub finish : Option Error → Exec (Unit {0})
finish none = pure tt
finish (some e) = raise (safe_wrap e "cf dev stop")

module _ (w : World) where
  step : Call → String → Option Error → Exec (Option Error)
  step c msg reterr = do failed ← attempt w c; pure (note msg reterr failed)

  -- `RunE`. The flag is `runtime.GOOS == "darwin"`.
  pub run_e : Bool → Exec (Unit {0})
  unfolding step note
  run_e darwin = do
    ignoring w (event "stop")
    call w check_requirements
    e₁ ← step analyticsd_stop "failed to stop analyticsd" none
    e₂ ← step analyticsd_destroy "failed to destroy analyticsd" e₁
    e₃ ← step vm_stop "failed to stop the VM" e₂
    e₄ ← step vm_destroy "failed to destroy the VM" e₃
    e₅ ← step vpnkit_stop "failed to stop vpnkit" e₄
    e₆ ← step vpnkit_destroy "failed to destroy vpnkit" e₅
    e₇ ← step remove_aliases "failed to remove IP aliases" e₆
    e₈ ← if darwin then step cfdevd_uninstall "failed to uninstall cfdevd" e₇ else pure e₇
    finish e₈
