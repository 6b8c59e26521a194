-- ===== src/Resource/Cache.antt =====
-- resource/cache.go: brings the assets of a catalog into the cache directory and checks their MD5.
pub mod Frame
pub mod Verified
pub mod Synced
mod Tests
use cfdev.Common.{
  ℕ, zero, suc, ◌+◌, String, ◌<>◌, Bool, true, false, not, ◌&&◌, ◌||◌, Option, none, some, List, [],
  ◌∷◌, ◌++◌, ◌=s◌, ◌==◌, length, leb, ltb, if◌then◌else◌,
}
use cfdev.Common.Dict.{Dict, get, put, erase}
use cfdev.Common.Text.{codes, has_prefix}
use cfdev.Errors.{Error, plain, safe_wrap}
use cfdev.Resource.{Item}
use cfdev.Resource.Progress
use cfdev.Resource.Progress.{Progress}
use cfdev.Resource.Storage.{
  System, State, Cache, Reply, unreachable, response, Source, cannot_open, opened, Digest, absent,
  unreadable, digest, Bytes, Check, check_failed, matches, compare_digest, exists_digest, is_local,
  local_path, content, md5_file, checksum_matches, target, tmp_path, not_found, tick,
}
use cfdev.Resource.Retry.{Failure, final, wrap_as_retryable, retryable, retry}

module _ (y : System) where
  -- What arrives is appended to the file and shown.
  receive : String → Bytes → State → State
  unfolding content
  receive tmp bytes s = record s {
    files = put tmp (content (get tmp s.files) ++ bytes) s.files;
    progress = Progress.add (length bytes) s.progress;
  }

  reset : State → State
  reset s = record s { progress = Progress.reset_current s.progress }

  -- The status and the body of a reply.
  pub handle : String → Reply → State → Option Failure × State
  unfolding receive reset
  handle tmp (unreachable e) s = (some (wrap_as_retryable e), reset s)
  handle tmp (response status text bytes broken) s =
      if leb 200 status && ltb status 300
      then (elim broken [
        | none ↦ (none, receive tmp bytes s)
        | some e ↦ (some (wrap_as_retryable e), reset (receive tmp bytes s))
      ])
      else if status == 416
      then (none, s)
      else (some (final (safe_wrap (plain text) "http status")), s)

  -- The file is opened for appending, and made if it is not there.
  pub open_append : String → State → State
  unfolding content
  open_append tmp s = record s { files = put tmp (content (get tmp s.files)) s.files }

  -- What is there already counts as progress, and only the rest is asked for.
  pub resume : Option Bytes → State → State
  resume none s = s
  resume (some b) s = record s { progress = Progress.add (length b) s.progress }

  pub range : Option Bytes → Option ℕ
  range none = none
  range (some b) = some (length b)

  -- `downloadHTTP`
  pub download_http : String → String → State → Option Failure × State
  unfolding handle open_append resume range
  download_http url tmp s = elim (y.request_error url) [
    | some e ↦ (some (final e), tick s)
    | none ↦
        let before = get tmp s.files in
        let resumed = tick (resume before s) in
        elim (y.write_error s.clock tmp) [
          | some e ↦ (some (final e), resumed)
          | none ↦ handle tmp (y.http s.clock url (range before)) (open_append tmp resumed)
        ]
  ]

  -- `retry.Retry(downloadFn, retry.Retryable(10, …))`: ten rounds of fuel are enough for ten runs.
  pub download_retrying : String → String → State → Option Failure × State
  download_retrying url tmp s = elim (retry (download_http url tmp) 10 (retryable 10) 0 s) [
    | none ↦ (some (final (plain "out of fuel")), s)
    | some r ↦ r
  ]

  -- `copyFile`
  copy_file : Cache → Item → State → Option Failure × State
  unfolding local_path
  copy_file c item s = elim (y.source s.clock (local_path item.url)) [
    | cannot_open e ↦ (some (final e), tick s)
    | opened bytes broken ↦ elim (y.write_error s.clock (target c item)) [
      | some e ↦ (some (final e), tick s)
      | none ↦
          let copied = record (tick s) {
            files = put (target c item) bytes s.files;
            progress = Progress.add (length bytes) s.progress;
          } in
          elim broken [ none ↦ (none, copied) | some e ↦ (some (final e), copied) ]
    ]
  ]

  -- `os.Remove`, whose error is dropped: a file that cannot be removed stays.
  pub discard : String → State → State
  discard path s =
      if y.remove_fails s.clock path then tick s else record (tick s) { files = erase path s.files }

  -- The end of `download`: the digest of what was downloaded, and the move to its place.
  pub verify : Cache → Item → State → Option Failure × State
  unfolding md5_file discard
  verify c item s = elim (md5_file y (tmp_path c item) s) [
    | absent ↦ (some (final (not_found (tmp_path c item))), tick s)
    | unreadable e ↦ (some (final e), tick s)
    | digest m ↦
        if m =s item.md5
        then (if y.rename_fails s.clock (tmp_path c item) then (none, tick s) else (
          none,
          record (tick s) {
            files =
                put (target c item) (content (get (tmp_path c item) s.files))
                  (erase (tmp_path c item) s.files);
          },
        ))
        else (
          some (
              final (
                safe_wrap (plain (item.name <> ": " <> m <> " != " <> item.md5))
                  "md5 did not match")),
          discard (tmp_path c item) s,
        )
  ]

  pub fetch : Cache → Item → State → Option Failure × State
  unfolding verify download_retrying
  fetch c item s =
      let (failed, s') = download_retrying item.url (tmp_path c item) s in
      elim failed [ some e ↦ (some e, s') | none ↦ verify c item s' ]

  pub found : Cache → Item → State → Option Failure × State
  found c item s =
      let shown = record (tick s) { progress = Progress.add item.size s.progress } in
      elim (y.chmod_error s.clock (target c item)) [
        | none ↦ (none, shown)
        | some e ↦ (some (final e), shown)
      ]

  -- `download`. The error of the last `Chmod` after a copy is dropped.
  pub download : Cache → Item → State → Option Failure × State
  unfolding fetch found copy_file checksum_matches
  download c item s =
      if not item.in_use
      then (none, s)
      else (let s = record s { progress = Progress.set_last_completed s.progress } in
          elim (checksum_matches y c item s) [
            | check_failed e ↦ (some (final e), tick s)
            | matches true ↦ found c item (tick s)
            | matches false ↦
                if is_local item then copy_file c item (tick s) else fetch c item (tick s)
          ])

  pub total : List Item → ℕ
  total [] = 0
  total (item ∷ items) =
      let rest = total items in if item.in_use then Progress.uint64 (item.size + rest) else rest

  -- The loop of `Sync`.
  pub sync_items : Cache → List Item → State → Option Failure × State
  sync_items c [] s = (none, s)
  sync_items c (item ∷ items) s =
      let (failed, s') = download c item s in
      let rest = sync_items c items s' in elim failed [ some e ↦ (some e, s') | none ↦ rest ]

  pub sync : Cache → List Item → State → Option Failure × State
  unfolding sync_items total
  sync c items s =
      let (failed, s') =
        sync_items c items (record s { progress = Progress.start (total items) s.progress }) in
      elim failed [
        | some e ↦ (some e, s')
        | none ↦ (none, record s' { progress = Progress.end_bar s'.progress })
      ]
