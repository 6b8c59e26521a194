-- ===== src/Commands/DeployService.antt =====
-- cmd/deploy-service/deploy_service.go: deploys one service of the metadata.
pub mod Deployed
use cfdev.Common.{
  ℕ, String, ◌<>◌, Bool, true, false, Option, none, some, List, [], ◌∷◌, ◌=s◌, if◌then◌else◌,
}
use cfdev.Errors.{Error, plain, safe_wrap}
use cfdev.Metadata.{Service, Metadata}
use cfdev.Provision.{get_white_listed_service}
use cfdev.Runtime.{
  Call, event, exit, read_metadata, ping, deploy_services, World, Result, ok, err, Exec, ◌>>=◌,
  ◌>>◌, pure, raise, wrapping, call, ignoring, attempt, ask,
}
use cfdev.Commands.Provision.{compatibility_version}

module _ (w : World) where
  unfoldable pub deploy_found : Result Service → Exec (Unit {0})
  deploy_found (err e) = raise (safe_wrap e "Failed to whitelist service")
  deploy_found (ok service) = do
    wrapping "Failed to deploy services" (call w (deploy_services (service ∷ [])))
    ignoring w (event "deployed service")

  unfoldable pub after_ping : String → Metadata → Option Error → Exec (Unit {0})
  unfolding deploy_found
  after_ping name metadata (some e) =
      raise (plain "cf dev is not running. Please execute 'cf dev start'")
  after_ping name metadata none = deploy_found (get_white_listed_service name metadata.services)

  unfoldable pub deploy_from : String → Metadata → Exec (Unit {0})
  unfolding after_ping
  deploy_from name metadata =
      if metadata.version =s compatibility_version
      then (do failed ← attempt w ping; after_ping name metadata failed)
      else raise (
          plain
            "asset version is incompatible with the current version of the plugin. Please execute 'cf dev start'")

  -- `Execute`
  unfoldable pub execute : String → Exec (Unit {0})
  unfolding deploy_from
  execute name = do
    metadata ←
        wrapping "something went wrong while reading the assets. Please execute 'cf dev start'"
          (ask w w.metadata read_metadata)
    deploy_from name metadata

  -- `RunE`, without the goroutine that exits on a signal.
  pub run_e : List String → Exec (Unit {0})
  unfolding execute
  run_e [] = raise (plain "A service name need to be passed as a argument")
  run_e (name ∷ []) = execute name
  run_e (name ∷ other ∷ names) = raise (plain "A service name need to be passed as a argument")
