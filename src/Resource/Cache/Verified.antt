-- ===== src/Resource/Cache/Verified.antt =====
-- What a download of resource/cache.go leaves at the place of an asset.
use cfdev.Common.{
  ℕ, String, ◌≡◌, refl, sym, ◌∙◌, true, false, Option, some, ◌⊎◌, inl, inr, arith, eq_iff, ◌=s◌,
  Bool-cases, Option-cases,
}
use cfdev.Common.Dict.{get, put, erase, get-put}
use cfdev.Resource.{Item}
use cfdev.Resource.Progress
use cfdev.Resource.Retry.{Failure}
use cfdev.Resource.Storage.{
  System, State, Cache, Bytes, Check, compare_digest, check_failed, matches, target, tmp_path,
  is_local, md5_file, checksum_matches, tick, content,
}
use cfdev.Resource.Cache.{download_retrying, verify, fetch, found, download}
use cfdev.Resource.Cache.Frame.{Same, target-ne-tmp_path, download_retrying-Same, discard-Same}

-- The file at the path has the digest.
abbrev pub IsVerified : System → String → String → State → Type 0
IsVerified y path md5 s = (b : Bytes) × (get path s.files ≡ some b) × (y.md5 b ≡ md5)

module _ (y : System) (c : Cache) (item : Item) where
  -- What comes of an attempt: the asset is at its place, or what was there is as it was, and the
  -- attempt has failed or the move was refused.
  abbrev pub Outcome : State → Option Failure × State → Type 0
  Outcome s r =
      IsVerified y (target c item) item.md5 (r.1)
      ⊎ (Same (target c item) s (r.1)
          × (((e : Failure) × (r.0 ≡ some e))
              ⊎ ((n : ℕ) × (y.rename_fails n (tmp_path c item) ≡ true))))

  put-IsVerified :
      (b : Bytes) (s : State)
      → (y.md5 b =s item.md5) ≡ true
      → IsVerified y
          (target c item)
          item.md5
          (record (tick s) { files = put (target c item) b (erase (tmp_path c item) s.files) })
  put-IsVerified b s e = (
    b,
    get-put (target c item) (target c item) b (erase (tmp_path c item) s.files)
        ∙ ground (arith, eq_iff (target c item) (target c item)),
    (eq_iff (y.md5 b) item.md5).0 e,
  )

  verify-Outcome : (s : State) → Outcome s (verify y c item s)
  unfolding verify md5_file content
  verify-Outcome s = elim (Option-cases (y.read_error s.clock (tmp_path c item))) [
    | inr (x, r) ↦ inr (rw (r, verify) (refl, inl (_, refl)))
    | inl r ↦ elim (Option-cases (get (tmp_path c item) s.files)) [
      | inl g ↦ inr (rw (r, g, verify) (refl, inl (_, refl)))
      | inr (b, g) ↦ elim (Bool-cases (y.md5 b =s item.md5)) [
        | inr m ↦ inr (
            rw (r, g, m, verify)
              (
                discard-Same y (tmp_path c item) (target c item) s
                    (λ e. target-ne-tmp_path c item (sym e)),
                inl (_, refl),
              ))
        | inl m ↦ elim (Bool-cases (y.rename_fails s.clock (tmp_path c item))) [
          | inl f ↦ inr (rw (r, g, m, f, verify) (refl, inr (s.clock, f)))
          | inr f ↦ inl (rw (r, g, m, f, verify, g) (put-IsVerified b s m))
        ]
      ]
    ]
  ]

  Outcome-before :
      (s s' : State) (r : Option Failure × State)
      → Same (target c item) s s'
      → Outcome s' r
      → Outcome s r
  Outcome-before s s' r same (inl v) = inl v
  Outcome-before s s' r same (inr (e, why)) = inr (e ∙ same, why)

  fetch-Outcome : (s : State) → Outcome s (fetch y c item s)
  unfolding fetch
  fetch-Outcome s =
      let got = download_retrying y item.url (tmp_path c item) s in
      let same =
        download_retrying-Same y (tmp_path c item) (target c item)
          (λ e. target-ne-tmp_path c item (sym e)) item.url s in
      elim (Option-cases (got.0)) [
        | inl d ↦
            rw (d, fetch)
              (Outcome-before s (got.1) (verify y c item (got.1)) same (verify-Outcome (got.1)))
        | inr (x, d) ↦ rw (d, fetch) (inr (same, inl (x, refl)))
      ]

  found-Outcome :
      (s : State) → IsVerified y (target c item) item.md5 s → Outcome s (found y c item s)
  unfolding found
  found-Outcome s v = elim (Option-cases (y.chmod_error s.clock (target c item))) [
    | inl e ↦ inl (rw (e, found) v)
    | inr (x, e) ↦ inl (rw (e, found) v)
  ]

  -- Where the digests are compared, an asset that matches is the verified one.
  checksum_matches-IsVerified :
      (s : State)
      → c.skip_asset_verification ≡ false
      → checksum_matches y c item s ≡ matches true
      → IsVerified y (target c item) item.md5 s
  unfolding checksum_matches md5_file compare_digest
  checksum_matches-IsVerified s skip e =
      elim (Option-cases (y.read_error s.clock (target c item))) [
        | inr (x, r) ↦ absurd (ground (arith, skip, r, e))
        | inl r ↦ elim (Option-cases (get (target c item) s.files)) [
          | inl g ↦ absurd (ground (arith, skip, r, g, e))
          | inr (b, g) ↦ (b, g, ground (arith, skip, r, g, e, eq_iff (y.md5 b) item.md5))
        ]
      ]

  download-Outcome_at :
      (s : State)
      → c.skip_asset_verification ≡ false
      → item.in_use ≡ true
      → is_local item ≡ false
      → (k : Check)
      → checksum_matches y c item (record s { progress = Progress.set_last_completed s.progress })
        ≡ k
      → Outcome s (download y c item s)
  unfolding download get
  download-Outcome_at s skip used remote (check_failed x) e =
      rw (used, e, download) (inr (refl, inl (_, refl)))
  download-Outcome_at s skip used remote (matches true) e =
      let s' = record s { progress = Progress.set_last_completed s.progress } in
      rw (used, e, download)
        (Outcome-before s (tick s') (found y c item (tick s')) refl
          (found-Outcome (tick s') (checksum_matches-IsVerified s' skip e)))
  download-Outcome_at s skip used remote (matches false) e =
      let s' = record s { progress = Progress.set_last_completed s.progress } in
      rw (used, e, remote, download)
        (Outcome-before s (tick s') (fetch y c item (tick s')) refl (fetch-Outcome (tick s')))

  -- With verification on, `download` of an asset in use that is fetched over the network leaves the
  -- asset with its MD5 at its place, or leaves that place as it was and returns an error (or the
  -- system refused to move the verified file there). This holds whatever the disk, the server and
  -- the clock answer, on resumed and on repeated downloads too.
  pub download-Outcome :
      (s : State)
      → c.skip_asset_verification ≡ false
      → item.in_use ≡ true
      → is_local item ≡ false
      → Outcome s (download y c item s)
  download-Outcome s skip used remote =
      let s' = record s { progress = Progress.set_last_completed s.progress } in
      download-Outcome_at s skip used remote (checksum_matches y c item s') refl
