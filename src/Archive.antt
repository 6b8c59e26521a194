-- ===== src/Archive.antt =====
-- resource/tar_util.go: unpacking the parts of an archive that are asked for.
pub mod Placed
pub mod Complete
use cfdev.Common.{
  ℕ, String, ◌<>◌, Bool, true, false, not, ◌&&◌, Option, none, some, List, [], ◌∷◌, ◌=s◌, ◌==◌,
  length, if◌then◌else◌,
}
use Prim.Native.Char.{code}
use cfdev.Common.Paths.{join_path, split_path}
use cfdev.Common.Text.{codes, contains, base_name}
use cfdev.Errors.{Error}
use cfdev.Runtime.{Result, ok, err, ◌>>=◌, ◌>>◌, pure, raise}
use cfdev.System.{System, Op, Run, open_file, mkdir_all, write_file, step}

-- `TarOpts`
pub record TarOpts : Type 0 where
  pub include_file : String
  pub include_folder : String
  pub exclude : String
  pub flatten_folder : Bool
  pub dst : String

-- A member of an archive: its header, and its contents.
pub record Entry : Type 0 where
  pub name : String
  pub is_dir : Bool
  pub mode : ℕ
  pub contents : String

-- What reading an archive gives: its members, and the error that ends it, if it is not the end of
-- the file.
pub record Archive : Type 0 where
  pub entries : List Entry
  pub ending : Option Error

-- Where an option puts a member: a directory to make first, and the file.
pub record Place : Type 0 where
  pub directory : Option String
  pub target : String

unfoldable pub in_folder : TarOpts → Entry → Bool
in_folder o e = contains (codes (split_path e.name).0) (codes o.include_folder)

-- The place, where the option wants the member; `none` stands for an empty target.
unfoldable pub folder_place : TarOpts → Entry → Place
folder_place o e =
    if not o.flatten_folder
    then record {
      directory = some (join_path (o.dst ∷ (split_path e.name).0 ∷ []));
      target = join_path (o.dst ∷ e.name ∷ []);
    }
    else record { directory = none; target = join_path (o.dst ∷ (split_path e.name).1 ∷ []) }

unfoldable pub file_place : TarOpts → Entry → Place
file_place o e = record {
  directory = none;
  target =
      if not o.flatten_folder
      then join_path (o.dst ∷ e.name ∷ [])
      else join_path (o.dst ∷ base_name e.name ∷ []);
}

unfoldable pub place : TarOpts → Entry → Option Place
unfolding in_folder folder_place file_place
place o e =
    if not (o.include_folder =s "")
    then (if in_folder o e then some (folder_place o e) else none)
    else (if o.include_file =s base_name e.name then some (file_place o e) else none)

module _ (s : System) where
  unfoldable pub make : Option String → Run (Unit {0})
  unfolding step
  make none = pure tt
  make (some dir) = step s (mkdir_all dir)

  unfoldable pub copy : Entry → String → Run (Unit {0})
  unfolding step
  copy e target = do step s (open_file target e.mode); step s (write_file target e.contents)

  -- The rest of the loop's body, once the place is known; `rest` goes on to the next option.
  unfoldable pub copy_at : Bool → Run Bool → TarOpts → Entry → Option Place → Run Bool
  unfolding make copy
  copy_at single rest o e none = rest
  copy_at single rest o e (some p) = do
    make p.directory
    if p.target =s "" then rest else do copy e p.target; pure (single && not (o.include_file =s ""))

  -- The loop of `copyCurrentFileIfMatch`: true where the archive need not be read on.
  unfoldable pub copy_if_match : Bool → List TarOpts → Entry → Run Bool
  unfolding copy_at
  copy_if_match single [] e = pure false
  copy_if_match single (o ∷ opts) e =
      let rest = copy_if_match single opts e in
      if e.is_dir then pure false else copy_at single rest o e (place o e)

  -- `copyCurrentFileIfMatch`
  unfoldable pub copy_current_file_if_match : Entry → List TarOpts → Run Bool
  unfolding copy_if_match
  copy_current_file_if_match e opts = copy_if_match (length opts == 1) opts e

  unfoldable pub at_end : Option Error → Run (Unit {0})
  at_end none = pure tt
  at_end (some e) = raise e

  -- The loop of `Untar`.
  unfoldable pub untar_entries : List TarOpts → Option Error → List Entry → Run (Unit {0})
  unfolding copy_current_file_if_match at_end
  untar_entries opts ending [] = at_end ending
  untar_entries opts ending (e ∷ es) = do
    found_everything ← copy_current_file_if_match e opts
    if found_everything then pure tt else untar_entries opts ending es

  -- `Untar`. Opening the archive, with its error, is a parameter.
  unfoldable pub untar : (String → Result Archive) → String → List TarOpts → Run (Unit {0})
  unfolding untar_entries
  untar open_archive src opts = elim (open_archive src) [
    | err e ↦ raise e
    | ok a ↦ untar_entries opts a.ending a.entries
  ]
