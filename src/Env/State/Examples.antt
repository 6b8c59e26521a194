-- ===== src/Env/State/Examples.antt =====
-- The theorems on the assets at an archive of three members.
use cfdev.Common.{refl, true, false, none, some, [], ◌∷◌, All}
use cfdev.Configuration.Sample.{config}
use cfdev.Runtime.{ok}
use cfdev.System.Sample.{host_with}
use cfdev.System.{System}
use cfdev.Archive.{Entry, Place, Archive}
use cfdev.Archive.Placed.{Placed}
use cfdev.Env.State.{things_to_untar, setup_state}
use cfdev.Env.State.Unpacked.{setup_state-Placed}

abbrev secret : Entry
secret = record { name = "bosh/secret"; is_dir = false; mode = 420; contents = "admin" }

abbrev script : Entry
script = record { name = "services/deploy-cf"; is_dir = false; mode = 493; contents = "#!/bin/sh" }

abbrev archive : Archive
archive = record {
  entries =
      record { name = "services"; is_dir = true; mode = 493; contents = "" } ∷ secret ∷ script ∷ [];
  ending = none;
}

abbrev disk : System
disk = host_with (λ h o. none) (λ h o. "")

setup_state-Placed_example :
    All
      (Placed (things_to_untar false config) archive.entries)
      (setup_state disk (λ path. ok archive) false config []).1
setup_state-Placed_example = setup_state-Placed disk (λ path. ok archive) false config archive refl

abbrev script_place : Place
script_place = record {
  directory = some "/home/.cfdev/services";
  target = "/home/.cfdev/services/deploy-cf";
}
