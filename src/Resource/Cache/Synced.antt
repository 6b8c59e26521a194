-- ===== src/Resource/Cache/Synced.antt =====
-- What Sync of resource/cache.go leaves in the cache directory.
use cfdev.Common.{
  ℕ, String, subst, All, ◌≡◌, ◌≢◌, refl, sym, ◌∙◌, true, false, none, List, [], ◌∷◌, inl, inr,
  arith, eq_iff, ◌=s◌, Bool-cases, Option-cases,
}
use cfdev.Common.Dict.{get, put, erase, get-put}
use cfdev.Resource.{Item}
use cfdev.Resource.Progress
use cfdev.Resource.Storage.{
  System, State, Cache, Bytes, Check, check_failed, matches, target, tmp_path, is_local, md5_file,
  checksum_matches, tick, content,
}
use cfdev.Resource.Cache.{
  download_retrying, verify, fetch, found, download, sync_items, total, sync,
}
use cfdev.Resource.Cache.Frame.{discard-Same, Same, download_retrying-Same, get-erase_ne}
use cfdev.Resource.Cache.Verified.{IsVerified, download-Outcome}

module _ (y : System) (c : Cache) (item : Item) (path : String) (ne : target c item ≢ path)
    (ne_tmp : tmp_path c item ≢ path) where
  put-Same :
      (b : Bytes) (s : State)
      → get path (put (target c item) b (erase (tmp_path c item) s.files)) ≡ get path s.files
  put-Same b s =
      get-put (target c item) path b (erase (tmp_path c item) s.files)
      ∙ ground (arith, eq_iff (target c item) path, get-erase_ne (tmp_path c item) path s ne_tmp)

  verify-Same : (s : State) → Same path s (verify y c item s).1
  unfolding verify md5_file content
  verify-Same s = elim (Option-cases (y.read_error s.clock (tmp_path c item))) [
    | inr (x, r) ↦ rw (r, verify) refl
    | inl r ↦ elim (Option-cases (get (tmp_path c item) s.files)) [
      | inl g ↦ rw (r, g, verify) refl
      | inr (b, g) ↦ elim (Bool-cases (y.md5 b =s item.md5)) [
        | inr m ↦ rw (r, g, m, verify) (discard-Same y (tmp_path c item) path s ne_tmp)
        | inl m ↦ elim (Bool-cases (y.rename_fails s.clock (tmp_path c item))) [
          | inl f ↦ rw (r, g, m, f, verify) refl
          | inr f ↦ rw (r, g, m, f, verify, g) (put-Same b s)
        ]
      ]
    ]
  ]

  fetch-Same : (s : State) → Same path s (fetch y c item s).1
  unfolding fetch
  fetch-Same s =
      let got = download_retrying y item.url (tmp_path c item) s in
      let same = download_retrying-Same y (tmp_path c item) path ne_tmp item.url s in
      elim (Option-cases (got.0)) [
        | inl d ↦ rw (d, fetch) (verify-Same (got.1) ∙ same)
        | inr (x, d) ↦ rw (d, fetch) same
      ]

  found-Same : (s : State) → Same path s (found y c item s).1
  unfolding found
  found-Same s = elim (Option-cases (y.chmod_error s.clock (target c item))) [
    | inl e ↦ rw (e, found) refl
    | inr (x, e) ↦ rw (e, found) refl
  ]

  download-Same_at :
      (s : State)
      → is_local item ≡ false
      → (k : Check)
      → checksum_matches y c item (record s { progress = Progress.set_last_completed s.progress })
        ≡ k
      → item.in_use ≡ true
      → Same path s (download y c item s).1
  unfolding download get
  download-Same_at s remote (check_failed x) e used = rw (used, e, download) refl
  download-Same_at s remote (matches true) e used =
      let s' = record s { progress = Progress.set_last_completed s.progress } in
      rw (used, e, download) (found-Same (tick s'))
  download-Same_at s remote (matches false) e used =
      let s' = record s { progress = Progress.set_last_completed s.progress } in
      rw (used, e, remote, download) (fetch-Same (tick s'))

  -- A download over the network touches the asset's place and the one it downloads to, no other.
  pub download-Same :
      (s : State) → is_local item ≡ false → item.in_use ≡ true → Same path s (download y c item s).1
  download-Same s remote used =
      let s' = record s { progress = Progress.set_last_completed s.progress } in
      download-Same_at s remote (checksum_matches y c item s') refl used

-- An asset that is in use and fetched over the network.
abbrev pub IsRemote : Item → Type 0
IsRemote i = (i.in_use ≡ true) × (is_local i ≡ false)

-- No asset's download touches the place of another.
abbrev pub AreApart : Cache → List Item → Type 0
AreApart c [] = Unit
AreApart c (i ∷ items) =
    All (λ j. (target c j ≢ target c i) × (tmp_path c j ≢ target c i)) items × AreApart c items

module _ (y : System) (c : Cache) (skip : c.skip_asset_verification ≡ false)
    (moves : (n : ℕ) (path : String) → y.rename_fails n path ≡ false) where
  download-IsVerified :
      (i : Item) (s : State)
      → IsRemote i
      → (download y c i s).0 ≡ none
      → IsVerified y (target c i) i.md5 (download y c i s).1
  download-IsVerified i s remote ok = elim (download-Outcome y c i s skip (remote.0) (remote.1)) [
    | inl v ↦ v
    | inr (same, inl (x, failed)) ↦ absurd (ground (arith, ok, failed))
    | inr (same, inr (n, refused)) ↦ absurd (ground (arith, moves n (tmp_path c i), refused))
  ]

  sync_items-Same :
      (path : String) (items : List Item) (s : State)
      → All (λ j. (target c j ≢ path) × (tmp_path c j ≢ path)) items
      → All IsRemote items
      → Same path s (sync_items y c items s).1
  unfolding sync_items
  sync_items-Same path [] s apart remote = refl
  sync_items-Same path (i ∷ items) s apart remote =
      let here = download-Same y c i path (apart.0.0) (apart.0.1) s (remote.0.1) (remote.0.0) in
      elim (Option-cases ((download y c i s).0)) [
        | inr (x, e) ↦ rw (e, sync_items) here
        | inl e ↦
            rw (e, sync_items)
              (sync_items-Same path items ((download y c i s).1) (apart.1) (remote.1) ∙ here)
      ]

  sync_items-first :
      (i : Item) (items : List Item) (s : State)
      → (download y c i s).0 ≡ none
      → sync_items y c (i ∷ items) s ≡ sync_items y c items (download y c i s).1
  unfolding sync_items
  sync_items-first i items s e = rw (e, sync_items) refl

  sync_items-IsVerified :
      (items : List Item) (s : State)
      → All IsRemote items
      → AreApart c items
      → (sync_items y c items s).0 ≡ none
      → All (λ i. IsVerified y (target c i) i.md5 (sync_items y c items s).1) items
  unfolding sync_items
  sync_items-IsVerified [] s remote apart ok = tt
  sync_items-IsVerified (i ∷ items) s remote apart ok = elim (Option-cases ((download y c i s).0)) [
    | inr (x, e) ↦ absurd (ground (arith, ok, e))
    | inl e ↦
        let s' = (download y c i s).1 in
        let (b, placed, good) = download-IsVerified i s (remote.0) e in
        subst (λ r. All (λ j. IsVerified y (target c j) j.md5 (r.1)) (i ∷ items))
          (sym (sync_items-first i items s e))
          (
            (b, sync_items-Same (target c i) items s' (apart.0) (remote.1) ∙ placed, good),
            sync_items-IsVerified items s' (remote.1) (apart.1) (ground (arith, ok, e)),
          )
  ]

  -- Where verification is on, the system moves every verified file, every asset is in use and
  -- fetched over the network, and no download touches the place of another asset, a `Sync` that
  -- returns no error leaves every asset at its place with the MD5 that the catalog states.
  pub sync-IsVerified :
      (items : List Item) (s : State)
      → All IsRemote items
      → AreApart c items
      → (sync y c items s).0 ≡ none
      → All (λ i. IsVerified y (target c i) i.md5 (sync y c items s).1) items
  unfolding sync
  sync-IsVerified items s remote apart ok =
      let s' = record s { progress = Progress.start (total y items) s.progress } in
      elim (Option-cases ((sync_items y c items s').0)) [
        | inr (x, e) ↦ absurd (ground (arith, ok, e))
        | inl e ↦ rw (e, sync) (sync_items-IsVerified items s' remote apart e)
      ]
