-- ===== src/Resource/Cache/Frame.antt =====
-- Which files a download touches.
use text.Mathlib.TextLemmas.{append_cancel_left, append-nil, append-eq-nil_iff}
use cfdev.Common.{
  ℕ, zero, suc, ◌++◌, String, ◌<>◌, ◌≡◌, refl, sym, ◌∙◌, ◌≢◌, Option, none, some, inl, inr, arith,
  eq_iff, Bool-cases, Option-cases,
}
use cfdev.Common.Dict.{get, put, erase, get-put, get-erase}
use cfdev.Resource.{Item}
use cfdev.Resource.Retry.{attempts, retry-attempts}
use cfdev.Resource.Storage.{
  System, State, Cache, Reply, unreachable, response, Bytes, target, tmp_path, tick, content,
}
use cfdev.Resource.Cache.{
  discard, resume, range, handle, open_append, download_http, download_retrying,
}

not-blank : ◌≢◌ {A = String} ".tmp." ""
not-blank = ground (arith, eq_iff ".tmp." "")

-- The name of a download differs from the name of the asset.
pub target-ne-tmp_path : (c : Cache) (item : Item) → target c item ≢ tmp_path c item
target-ne-tmp_path c item e =
    let no_suffix =
      append_cancel_left item.name "" (".tmp." <> item.md5)
        (append-nil item.name ∙ append_cancel_left "/" _ _ (append_cancel_left c.dir _ _ e)) in
    not-blank ((append-eq-nil_iff.0 (sym no_suffix)).0)

-- The file is as it was.
abbrev pub Same : String → State → State → Type 0
Same path s t = get path t.files ≡ get path s.files

get-put_ne :
    (k j : String) (v : Bytes) (s : State) → k ≢ j → get j (put k v s.files) ≡ get j s.files
get-put_ne k j v s ne = get-put k j v s.files ∙ ground (arith, eq_iff k j)

pub get-erase_ne : (k j : String) (s : State) → k ≢ j → get j (erase k s.files) ≡ get j s.files
get-erase_ne k j s ne = get-erase k j s.files ∙ ground (arith, eq_iff k j)

-- Whether the removal succeeds or not.
pub discard-Same : (y : System) (k j : String) (s : State) → k ≢ j → Same j s (discard y k s)
unfolding discard
discard-Same y k j s ne = elim (Bool-cases (y.remove_fails s.clock k)) [
  | inl e ↦ rw (e, discard) refl
  | inr e ↦ rw (e, discard) (get-erase_ne k j s ne)
]

module _ (y : System) (tmp path : String) (ne : tmp ≢ path) where
  receive-Same :
      (bytes : Bytes) (s : State)
      → get path (put tmp (content (get tmp s.files) ++ bytes) s.files) ≡ get path s.files
  receive-Same bytes s = get-put_ne tmp path (content (get tmp s.files) ++ bytes) s ne

  handle-Same : (reply : Reply) (s : State) → Same path s (handle y tmp reply s).1
  unfolding handle
  handle-Same (unreachable e) s = refl
  handle-Same (response status text bytes none) s = ground (arith, receive-Same bytes s)
  handle-Same (response status text bytes (some e)) s = ground (arith, receive-Same bytes s)

  resume-Same : (before : Option Bytes) (s : State) → Same path s (resume y before s)
  unfolding resume
  resume-Same none s = refl
  resume-Same (some b) s = refl

  open_append-Same : (s : State) → Same path s (open_append y tmp s)
  unfolding open_append
  open_append-Same s = get-put_ne tmp path (content (get tmp s.files)) s ne

  download_http-Same : (url : String) (s : State) → Same path s (download_http y url tmp s).1
  unfolding download_http
  download_http-Same url s =
      let resumed = tick (resume y (get tmp s.files) s) in
      let asked =
        handle-Same (y.http s.clock url (range y (get tmp s.files))) (open_append y tmp resumed)
        ∙ (open_append-Same resumed ∙ resume-Same (get tmp s.files) s) in
      elim (Option-cases (y.request_error url)) [
        | inl e ↦ elim (Option-cases (y.write_error s.clock tmp)) [
          | inl w ↦ rw (e, w, download_http) asked
          | inr (x, w) ↦ rw (e, w, download_http) (resume-Same (get tmp s.files) s)
        ]
        | inr (x, e) ↦ rw (e, download_http) refl
      ]

  attempts-Same :
      (url : String) (n : ℕ) (s : State) → Same path s (attempts (download_http y url tmp) n s).1
  unfolding attempts
  attempts-Same url zero s = download_http-Same url s
  attempts-Same url (suc n) s =
      ground (arith, download_http-Same url s, attempts-Same url n (download_http y url tmp s).1)

  download_retrying-attempts :
      (url : String) (s : State)
      → download_retrying y url tmp s ≡ attempts (download_http y url tmp) 9 s
  unfolding download_retrying
  download_retrying-attempts url s = rw (
    retry-attempts (download_http y url tmp) 10 10 s (omega arith) (omega arith),
    download_retrying,
  )

  pub download_retrying-Same :
      (url : String) (s : State) → Same path s (download_retrying y url tmp s).1
  download_retrying-Same url s = rw (download_retrying-attempts url s) (attempts-Same url 9 s)
