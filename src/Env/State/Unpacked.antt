-- ===== src/Env/State/Unpacked.antt =====
-- What SetupState of env/env.go leaves on the disk.
use cfdev.Common.{◌≡◌, String, Bool, [], All}
use cfdev.Configuration.{Config}
use cfdev.Runtime.{Result, ok}
use cfdev.System.{System}
use cfdev.System.Preserves.{Preserves-wrapping}
use cfdev.Archive.{Archive, untar}
use cfdev.Archive.Placed.{Placed, untar-Preserves}
use cfdev.Env.State.{things_to_untar, setup_state}

module _ (s : System) (open_archive : String → Result Archive) (is_windows : Bool) (c : Config)
    (a : Archive) (opened : open_archive c.deps_file ≡ ok a) where
  -- Unpacking the assets does nothing to the disk but to put members of the archive in places that
  -- one of the options of `SetupState` wants them in: each file that is opened or written, and each
  -- directory that is made, is such a place, whether the run fails or not.
  pub setup_state-Placed :
      All
        (Placed (things_to_untar is_windows c) a.entries)
        (setup_state s open_archive is_windows c []).1
  unfolding setup_state
  setup_state-Placed =
      let P = Placed (things_to_untar is_windows c) a.entries in
      Preserves-wrapping (All P) _ (untar s open_archive c.deps_file (things_to_untar is_windows c))
        (untar-Preserves s (All P) open_archive c.deps_file (things_to_untar is_windows c) a opened
          (λ o placed h all. (placed, all)))
        [] tt
