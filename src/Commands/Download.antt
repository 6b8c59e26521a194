-- ===== src/Commands/Download.antt =====
-- cmd/download/download.go and cmd/catalog/catalog.go: the commands that fetch the assets and that
-- show what they are. The goroutine that exits on a signal is left out.
use cfdev.Common.{String, List}
use cfdev.Resource.{Item}
use cfdev.Runtime.{World, Exec, text, say, create_dirs, cache_sync, ◌>>◌, wrapping, call, ignoring}

module _ (w : World) where
  -- `CacheSync`
  sync_cache : List Item → Exec (Unit {0})
  sync_cache dependencies = wrapping "Unable to sync assets" (call w (cache_sync dependencies))

  -- `RunE` of download.
  run_download : List Item → Exec (Unit {0})
  unfolding sync_cache
  run_download dependencies = do
    wrapping "setup for download" (call w create_dirs)
    ignoring w (say (text "Downloading Resources..."))
    sync_cache dependencies

  -- `RunE` of catalog; what `json.MarshalIndent` makes of the catalog is a parameter.
  run_catalog : (List Item → String) → List Item → Exec (Unit {0})
  run_catalog marshal_indent dependencies = ignoring w (say (text (marshal_indent dependencies)))
