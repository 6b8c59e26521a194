-- ===== src/Analyticsd/Polling/Anonymous.antt =====
-- What the analytics daemon tells segment.io.
use cfdev.Common.{
  ℕ, zero, suc, inl, inr, String, Option, none, some, List, [], ◌∷◌, ◌++◌, All, Option-cases,
  Bool-cases, ltb,
}
use cfdev.Runtime.{Result, ok, err}
use cfdev.Analyticsd.{
  Event, Document, Cloud, State, Daemon, fetch, follow, after_page, fetch_pages, fetch_events,
  fetch_latest_time,
}
use cfdev.Analyticsd.Handlers.{Command, new}
use cfdev.Analyticsd.Handlers.Naming.{IsAnonymous}
use cfdev.Analyticsd.Handlers.Sending.{fetch-keeps, handle_response-keeps}
use cfdev.Analyticsd.Polling.{
  save_latest_time, handle_known, handle_events, handle_fetched, after_fetch, poll, prepare,
  poll_times, start,
}

-- All that has been sent is anonymous.
abbrev pub AllAnonymous : Daemon → State → Type 0
AllAnonymous d s = All (IsAnonymous d) s.sent

module _ (y : Cloud) (d : Daemon) where
  fetch-AllAnonymous :
      (path : String) (params : List (String × String)) (s : State)
      → AllAnonymous d s
      → AllAnonymous d (fetch y d path params s).1
  fetch-AllAnonymous = fetch-keeps y d (AllAnonymous d) (λ s a. a) (λ t s i a. (i, a))

  follow-AllAnonymous :
      (again : List (String × String) → List Event → State → Option (Result (List Event)) × State)
      (events : List Event) (r : Result (List (String × String))) (s : State)
      → ((params : List (String × String)) (events : List Event) (s : State)
          → AllAnonymous d s
          → AllAnonymous d (again params events s).1)
      → AllAnonymous d s
      → AllAnonymous d (follow y d again events r s).1
  unfolding follow
  follow-AllAnonymous again events (err e) s h a = a
  follow-AllAnonymous again events (ok params) s h a = h params events s a

  after_page-AllAnonymous :
      (again : List (String × String) → List Event → State → Option (Result (List Event)) × State)
      (events : List Event) (r : Result Document) (s : State)
      → ((params : List (String × String)) (events : List Event) (s : State)
          → AllAnonymous d s
          → AllAnonymous d (again params events s).1)
      → AllAnonymous d s
      → AllAnonymous d (after_page y d again events r s).1
  unfolding after_page
  after_page-AllAnonymous again events (err e) s h a = a
  after_page-AllAnonymous again events (ok doc) s h a = elim (Option-cases (doc.next_url)) [
    | inl e ↦ rw (e, after_page) a
    | inr (url, e) ↦
        rw (e, after_page)
          (follow-AllAnonymous again (events ++ doc.resources) (y.parse_url url) s h a)
  ]

  fetch_pages-AllAnonymous :
      (n : ℕ) (params : List (String × String)) (events : List Event) (s : State)
      → AllAnonymous d s
      → AllAnonymous d (fetch_pages y d n params events s).1
  unfolding fetch_pages
  fetch_pages-AllAnonymous zero params events s a = a
  fetch_pages-AllAnonymous (suc n) params events s a =
      after_page-AllAnonymous (fetch_pages y d n) events ((fetch y d "/v2/events" params s).0) _
        (fetch_pages-AllAnonymous n) (fetch-AllAnonymous "/v2/events" params s a)

  save-AllAnonymous : (t : ℕ) (s : State) → AllAnonymous d s → AllAnonymous d (save_latest_time t s)
  unfolding save_latest_time
  save-AllAnonymous t s a = elim (Bool-cases (ltb s.last_time t)) [
    | inl e ↦ rw (e, save_latest_time) a
    | inr e ↦ rw (e, save_latest_time) a
  ]

  handle_known-AllAnonymous :
      (c : Option Command) (e : Event) (s : State)
      → AllAnonymous d s
      → AllAnonymous d (handle_known y d c e s).1
  unfolding handle_known
  handle_known-AllAnonymous none e s a = a
  handle_known-AllAnonymous (some c) e s a =
      handle_response-keeps y d (AllAnonymous d) (λ s a. a) (λ t s i a. (i, a)) c e s a

  handle_events-AllAnonymous :
      (es : List Event) (s : State) → AllAnonymous d s → AllAnonymous d (handle_events y d es s).1
  unfolding handle_events
  handle_events-AllAnonymous [] s a = a
  handle_events-AllAnonymous (e ∷ es) s a =
      let seen = save_latest_time e.timestamp s in
      let here =
        handle_known-AllAnonymous (new e.kind) e seen (save-AllAnonymous e.timestamp s a) in
      elim (Option-cases ((handle_known y d (new e.kind) e seen).0)) [
        | inl passed ↦ rw (passed, handle_events) (handle_events-AllAnonymous es _ here)
        | inr (x, failed) ↦ rw (failed, handle_events) here
      ]

  after_fetch-AllAnonymous :
      (r : Option (Result (List Event))) (s : State)
      → AllAnonymous d s
      → AllAnonymous d (after_fetch y d r s).1
  unfolding after_fetch handle_fetched
  after_fetch-AllAnonymous none s a = a
  after_fetch-AllAnonymous (some (err e)) s a = a
  after_fetch-AllAnonymous (some (ok events)) s a = handle_events-AllAnonymous events s a

  poll-AllAnonymous :
      (pages : ℕ) (s : State) → AllAnonymous d s → AllAnonymous d (poll y d pages s).1
  unfolding poll fetch_events
  poll-AllAnonymous pages s a =
      after_fetch-AllAnonymous ((fetch_events y d pages s.last_time s).0) _
        (fetch_pages-AllAnonymous pages _ [] s a)

  poll_times-AllAnonymous :
      (ticks pages : ℕ) (s : State)
      → AllAnonymous d s
      → AllAnonymous d (poll_times y d ticks pages s)
  unfolding poll_times
  poll_times-AllAnonymous zero pages s a = a
  poll_times-AllAnonymous (suc n) pages s a =
      poll_times-AllAnonymous n pages ((poll y d pages s).1) (poll-AllAnonymous pages s a)

-- However long the daemon runs, and whatever the cloud controller and segment.io answer, each track
-- that it sends is one of two: of usage, with the platform and the versions and at most the name of a
-- service of the white list or of a public buildpack; or the report of a request that the cloud
-- controller refused, with the platform, the version and, as it came, that answer.
pub start-AllAnonymous :
    (y : Cloud) (d : Daemon) (ticks pages now : ℕ)
    → AllAnonymous d (start y d ticks pages (record { sent = []; last_time = now; clock = 0 }))
unfolding start prepare fetch_latest_time
start-AllAnonymous y d ticks pages now =
    poll_times-AllAnonymous y d ticks pages _
      (save-AllAnonymous y d _ _ (fetch-AllAnonymous y d "/v2/events" _ _ tt))
