-- ===== src/Analyticsd/Paging.antt =====
-- How the pages of the cloud controller's events are put together.
use cfdev.Common.{
  ◌≡◌, refl, ℕ, zero, suc, ◌≤◌, length, String, none, some, List, [], ◌∷◌, ◌++◌, arith,
}
use cfdev.Runtime.{ok}
use cfdev.Analyticsd.{Event, Document, Cloud, State, Daemon, fetch, follow, after_page, fetch_pages}

module _ (y : Cloud) (d : Daemon) where
  -- The pages that the cloud controller answers with, from a query on, and the state after them:
  -- each answer but the last names the next page by a URL that can be parsed.
  pub data Pages : List (String × String) → State → List (List Event) → State → Type 0 where
    last_page :
        {params : List (String × String)} {s s' : State} (doc : Document)
        → fetch y d "/v2/events" params s ≡ (ok doc, s')
        → doc.next_url ≡ none
        → Pages params s (doc.resources ∷ []) s'
    page :
        {params next : List (String × String)} {s s' t : State} {pages : List (List Event)}
        (doc : Document) (url : String)
        → fetch y d "/v2/events" params s ≡ (ok doc, s')
        → doc.next_url ≡ some url
        → y.parse_url url ≡ ok next
        → Pages next s' pages t
        → Pages params s (doc.resources ∷ pages) t

  -- The events of all pages, in order, after some others.
  abbrev pub collect : List Event → List (List Event) → List Event
  collect events [] = events
  collect events (p ∷ ps) = collect (events ++ p) ps

  -- If the cloud controller's pages come to an end within the limit, then the loop of `FetchEvents`
  -- ends, without an error, with the events of all pages in order.
  pub fetch_pages-Pages :
      (n : ℕ) (params : List (String × String)) (events : List Event) (s t : State)
      (pages : List (List Event))
      → Pages params s pages t
      → length pages ≤ n
      → fetch_pages y d n params events s ≡ (some (ok (collect events pages)), t)
  unfolding fetch_pages after_page follow
  fetch_pages-Pages zero params events s t _ (last_page doc got end) enough = absurd (omega arith)
  fetch_pages-Pages zero params events s t _ (page doc url got next parsed rest) enough =
      absurd (omega arith)
  fetch_pages-Pages (suc n) params events s t _ (last_page doc got end) enough =
      rw (got, end, fetch_pages) refl
  fetch_pages-Pages (suc n) params events s t _ (page {pages = ps} doc url got next parsed rest)
        enough =
      rw (got, next, parsed, fetch_pages)
        (fetch_pages-Pages n _ (events ++ doc.resources) _ t ps rest (omega arith))
