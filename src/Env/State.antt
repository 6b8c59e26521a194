-- ===== src/Env/State.antt =====
-- SetupState of env/env.go: what is unpacked from the downloaded assets, and where.
mod Examples
pub mod Unpacked
use cfdev.Common.{String, Bool, true, false, List, [], ◌∷◌, ◌++◌, if◌then◌else◌}
use cfdev.Configuration.{Config}
use cfdev.Runtime.{Result, wrapping}
use cfdev.Archive.{TarOpts, Archive, untar}
use cfdev.System.{System, Op, Run}

abbrev file : String → String → TarOpts
file name dst = record {
  include_file = name;
  include_folder = "";
  exclude = "";
  flatten_folder = false;
  dst = dst;
}

abbrev folder : String → Bool → String → TarOpts
folder name flatten dst = record {
  include_file = "";
  include_folder = name;
  exclude = "";
  flatten_folder = flatten;
  dst = dst;
}

-- `thingsToUntar`
pub things_to_untar : Bool → Config → List TarOpts
things_to_untar is_windows c =
    (file "state.json" c.state_bosh
      ∷ file "creds.yml" c.state_bosh
      ∷ file "secret" c.state_bosh
      ∷ file "jumpbox.key" c.state_bosh
      ∷ file "ca.crt" c.state_bosh
      ∷ file "ca.yml" c.state_bosh
      ∷ file "id_rsa" c.cache_dir
      ∷ folder "services" false c.cfdev_home
      ∷ folder "binaries" true c.cache_dir
      ∷ folder "deployment_config" true c.cache_dir
      ∷ [])
    ++ ((if is_windows
          then file "disk.vhdx" c.state_linuxkit
          else file "disk.qcow2" c.state_linuxkit)
        ∷ [])

-- `SetupState`
pub setup_state :
    System → (String → Result Archive) → Bool → Config → List Op → Result (Unit {0}) × List Op
unfolding untar things_to_untar
setup_state s open_archive is_windows c =
    wrapping "failed to untar the desired parts of the tarball"
      (untar s open_archive c.deps_file (things_to_untar is_windows c))
