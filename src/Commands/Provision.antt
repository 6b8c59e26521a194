-- ===== src/Commands/Provision.antt =====
-- cmd/provision/provision.go: deploys the BOSH director, Cloud Foundry and the services.
pub mod Order
use cfdev.Common.{ℕ, String, ◌<>◌, Bool, true, false, List, [], ◌∷◌, ◌=s◌, if◌then◌else◌}
use cfdev.Common.Int.{ℤ}
use cfdev.Common.Text.{split}
use cfdev.Errors.{Error, plain, error}
use cfdev.Metadata.{Metadata}
use cfdev.Provision.{white_list_services}
use cfdev.Runtime.{
  Call, text, say, read_metadata, parse_url, ping, deploy_bosh, deploy_cf, deploy_services,
  print_message, World, Result, ok, err, Exec, ◌>>=◌, ◌>>◌, pure, raise, wrapping, call, ignoring,
  ask,
}

-- `start.Args`
pub record Args : Type 0 where
  pub registries : String
  pub deploy_single_service : String
  pub deps_path : String
  pub no_provision : Bool
  pub cpus : ℤ
  pub mem : ℤ

abbrev pub compatibility_version : String
compatibility_version = "v3"

abbrev about_value : String → Result String → Result String
about_value value (ok host) = ok host
about_value value (err e) = err (plain ("'" <> value <> "' - " <> error e))

module _ (w : World) where
  -- The loop body of `parseDockerRegistriesFlag`; `url.Parse` gives the host of the URL,
  -- or the error inside its `url.Error`.
  parse_registry : String → Exec String
  parse_registry value h =
      let (r, h') = ask w w.reply (parse_url ("//" <> value)) h in (about_value value r, h')

  parse_registries : List String → Exec (List String)
  parse_registries [] = pure []
  parse_registries (value ∷ values) = do
    host ← parse_registry value
    hosts ← parse_registries values
    pure (host ∷ hosts)

  pub parse_docker_registries_flag : String → Exec (List String)
  unfolding parse_registries parse_registry
  parse_docker_registries_flag flag =
      if flag =s "" then pure [] else parse_registries (split b',' flag)

  -- For a message that is a template: `template.Must` panics on any other, which is no run here.
  pub print_splash : String → Exec (Unit {0})
  print_splash message =
      if message =s ""
      then pure tt
      else wrapping "Failed to print deps file provided message" (call w (print_message message))

  pub provision : Metadata → List String → String → Exec (Unit {0})
  unfolding print_splash
  provision metadata registries deploy_single_service = do
    wrapping "VM is not running. Please execute 'cf dev start'" (call w ping)
    ignoring w (say (text "Deploying the BOSH Director..."))
    wrapping "Failed to deploy the BOSH Director" (call w deploy_bosh)
    ignoring w (say (text "Deploying CF..."))
    wrapping "Failed to deploy the Cloud Foundry" (call w (deploy_cf registries))
    wrapping "Failed to deploy services"
        (call w (deploy_services (white_list_services deploy_single_service metadata.services)))
    print_splash metadata.message

  pub with_metadata : Args → Metadata → Exec (Unit {0})
  with_metadata args metadata =
      if metadata.version =s compatibility_version
      then (do
        registries ←
            wrapping "Unable to parse docker registries"
              (parse_docker_registries_flag args.registries)
        provision metadata registries args.deploy_single_service)
      else raise (
          plain
            "asset version is incompatible with the current version of the plugin. Please execute 'cf dev start'")

  -- `Execute`
  pub execute : Args → Exec (Unit {0})
  unfolding with_metadata
  execute args = do
    metadata ←
        wrapping "something went wrong while reading the assets. Please execute 'cf dev start'"
          (ask w w.metadata read_metadata)
    with_metadata args metadata
