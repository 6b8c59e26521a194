-- ===== src/Resource/Storage.antt =====
-- resource/cache.go: what the cache sees. A disk of files, a progress bar, and a clock that counts
-- the answers of the system; what the system answers, the server's replies and the MD5 function
-- among it, is any `System`. Then the places of the assets and their checksums.
use cfdev.Common.{
  ℕ, zero, suc, ◌+◌, String, ◌<>◌, Bool, true, false, ◌||◌, Option, none, some, List, [], ◌=s◌,
  if◌then◌else◌,
}
use cfdev.Common.Dict.{Dict, get}
use cfdev.Common.Text.{codes, has_prefix}
use cfdev.Errors.{Error, plain}
use cfdev.Resource.{Item}
use cfdev.Resource.Progress.{Progress}

abbrev pub Bytes : Type 0
Bytes = List ℕ

-- A reply: no connection, or a status with the part of the body that arrives and the error that
-- breaks it off, if one does.
pub data Reply : Type 0 where
  unreachable : Error → Reply
  response : ℕ → String → Bytes → Option Error → Reply

-- A local file: the part that can be read, and the error that breaks it off, if one does.
pub data Source : Type 0 where
  cannot_open : Error → Source
  opened : Bytes → Option Error → Source

-- What a file's digest comes to.
pub data Digest : Type 0 where
  absent : Digest
  unreadable : Error → Digest
  digest : String → Digest

pub record System : Type 0 where
  pub md5 : Bytes → String
  pub read_error : ℕ → String → Option Error
  pub write_error : ℕ → String → Option Error
  pub request_error : String → Option Error
  pub http : ℕ → String → Option ℕ → Reply
  pub source : ℕ → String → Source
  pub chmod_error : ℕ → String → Option Error
  pub rename_fails : ℕ → String → Bool
  pub remove_fails : ℕ → String → Bool

pub record State : Type 0 where
  pub files : Dict Bytes
  pub progress : Progress
  pub clock : ℕ

pub record Cache : Type 0 where
  pub dir : String
  pub skip_asset_verification : Bool

-- `filepath.Join(c.Dir, name)`, for a clean directory and a plain name.
abbrev pub target : Cache → Item → String
target c item = c.dir <> ("/" <> item.name)

abbrev pub tmp_path : Cache → Item → String
tmp_path c item = c.dir <> ("/" <> (item.name <> (".tmp." <> item.md5)))

abbrev pub not_found : String → Error
not_found path = plain ("open " <> path <> ": no such file or directory")

abbrev pub tick : State → State
tick s = record s { clock = s.clock + 1 }

-- What `checksumMatches` returns.
pub data Check : Type 0 where
  check_failed : Error → Check
  matches : Bool → Check

unfoldable pub compare_digest : String → Digest → Check
compare_digest md5 absent = matches false
compare_digest md5 (unreadable e) = check_failed e
compare_digest md5 (digest m) = matches (m =s md5)

unfoldable pub exists_digest : Digest → Check
exists_digest absent = matches false
exists_digest (unreadable e) = check_failed e
exists_digest (digest m) = matches true

-- `strings.HasPrefix(item.URL, "file://") || strings.HasPrefix(item.URL, "C:")`
unfoldable pub is_local : Item → Bool
is_local item =
    has_prefix (codes item.url) (codes "file://") || has_prefix (codes item.url) (codes "C:")

drop_chars : ℕ → String → String
drop_chars zero s = s
drop_chars (suc n) String.[] = ""
drop_chars (suc n) (String.◌∷◌ c s) = drop_chars n s

-- `strings.Replace(url, "file://", "", 1)`
unfoldable pub local_path : String → String
unfolding drop_chars
local_path String.[] = ""
local_path (String.◌∷◌ c s) =
    let rest = local_path s in
    if has_prefix (codes (String.◌∷◌ c s)) (codes "file://")
    then drop_chars 6 s
    else String.◌∷◌ c rest

-- The bytes that are on disk, none if there is no file.
unfoldable pub content : Option Bytes → Bytes
content none = []
content (some b) = b

module _ (y : System) where
  -- `MD5` of a file.
  unfoldable pub md5_file : String → State → Digest
  md5_file path s = elim (y.read_error s.clock path) [
    | some e ↦ unreadable e
    | none ↦ elim (get path s.files) [ none ↦ absent | some b ↦ digest (y.md5 b) ]
  ]

  -- `checksumMatches`; `fileExists` reads the same answers.
  unfoldable pub checksum_matches : Cache → Item → State → Check
  unfolding md5_file compare_digest exists_digest
  checksum_matches c item s =
      if c.skip_asset_verification
      then exists_digest (md5_file (target c item) s)
      else compare_digest item.md5 (md5_file (target c item) s)
