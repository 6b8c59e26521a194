-- ===== src/Commands/Version.antt =====
-- cmd/version/version.go: `cf dev version`, of the assets that are there or of a file of assets.
use cfdev.Common.{
  String, ◌<>◌, Bool, true, false, Option, none, some, List, [], ◌∷◌, ◌=s◌, map, if◌then◌else◌,
}
use cfdev.Common.Paths.{join_with, join_path}
use cfdev.Archive.{TarOpts, Archive, untar}
use cfdev.Configuration.{Config}
use cfdev.Metadata.{Metadata, Version}
use cfdev.Runtime.{Result, ◌>>=◌, ◌>>◌, pure}
use cfdev.System.{System, Op, Run, Fault, stat, print, remove_all, ignoring, trying, observing}

-- `exists`, from the error of `os.Stat`.
exists_by : Option Fault → Bool
exists_by none = true
exists_by (some e) = false

version_line : Version → String
version_line v = v.name <> ": " <> v.value

abbrev metadata_opts : String → List TarOpts
metadata_opts tmp =
    record {
      include_file = "metadata.yml";
      include_folder = "";
      exclude = "";
      flatten_folder = true;
      dst = tmp;
    }
    ∷ []

-- The archive, the directory that `ioutil.TempDir` makes and the metadata of a file are parameters.
module _ (s : System) (c : Config) (open_archive : String → Result Archive) (tmp : String)
    (read_metadata : List Op → String → Option Metadata) where
  exists : String → Run Bool
  unfolding trying exists_by
  exists path = do fault ← trying s (stat path); pure (exists_by fault)

  say : String → Run (Unit {0})
  unfolding ignoring
  say text = do _shown ← ignoring s (print text); pure tt

  -- `printCliVersion`
  print_cli_version : Run (Unit {0})
  print_cli_version =
      say ("CLI: " <> c.cli_version.original <> "\nBUILD: " <> c.build_version <> "\n")

  say_versions : Option Metadata → Run (Unit {0})
  unfolding version_line
  say_versions none = pure tt
  say_versions (some m) = say (join_with "\n" (map version_line m.versions))

  show_versions : String → Run (Unit {0})
  unfolding exists say_versions
  show_versions path = do
    print_cli_version
    there ← exists path
    if there then (λ h. say_versions (read_metadata h path) h) else pure tt

  -- The file of assets, unpacked into a directory that is removed at the end.
  show_file : String → Run (Unit {0})
  unfolding observing exists show_versions ignoring
  show_file path = do
    _unpacked ← observing (untar s open_archive path (metadata_opts tmp))
    there ← exists (join_path (tmp ∷ "metadata.yml" ∷ []))
    if there
        then show_versions (join_path (tmp ∷ "metadata.yml" ∷ []))
        else say "Metadata not found version unknown"
    _removed ← ignoring s (remove_all tmp)
    pure tt

  -- `Execute`
  execute : String → Run (Unit {0})
  unfolding exists show_file
  execute path = do
    there ← if path =s "" then pure true else exists path
    if path =s ""
        then show_versions (join_path (c.cache_dir ∷ "metadata.yml" ∷ []))
        else if there
        then show_file path
        else say (path <> ": file not found")
