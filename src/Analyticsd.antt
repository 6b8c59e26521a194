-- ===== src/Analyticsd.antt =====
-- The analytics daemon: analyticsd/cloud_controller/client.go and analyticsd/daemon/daemon.go.
-- What the cloud controller and segment.io answer is any `Cloud`; the state counts the answers.
pub mod Handlers
pub mod Polling
pub mod Paging
mod Tests
use cfdev.Common.{
  ℕ, zero, suc, ◌+◌, String, ◌<>◌, Bool, true, false, Option, none, some, List, [], ◌∷◌, ◌++◌, ◌=s◌,
  ◌==◌, ltb, if◌then◌else◌,
}
use cfdev.Common.Dict.{Dict, put}
use cfdev.Errors.{Error, plain, error}
use cfdev.Runtime.{Result, ok, err}

-- The metadata of an event: the fields that the handlers decode, empty where they are absent.
pub record Metadata : Type 0 where
  pub buildpack : String
  pub service_plan_guid : String
  pub service_instance_guid : String

-- `Event`, with its time stamp parsed.
pub record Event : Type 0 where
  pub kind : String
  pub timestamp : ℕ
  pub metadata : Metadata

-- A JSON document: the fields that the client decodes, empty where they are absent.
pub record Document : Type 0 where
  pub next_url : Option String
  pub resources : List Event
  pub service_url : String
  pub label : String

-- An answer of the cloud controller. The body of a status other than 200 is a text.
pub data Answer : Type 0 where
  no_answer unreadable malformed : Error → Answer
  refused : String → String → Answer
  answered : Document → Answer

-- `analytics.Track`
pub record Track : Type 0 where
  pub user_id : String
  pub event : String
  pub time : ℕ
  pub properties : Dict String

pub record Cloud : Type 0 where
  -- What a GET of a path with a query comes to.
  pub get_url : ℕ → String → List (String × String) → Answer
  pub enqueue_error : ℕ → Track → Option Error
  -- `url.Parse` of a text, as the query of the URL.
  pub parse_url : String → Result (List (String × String))
  pub format_time : ℕ → String
  pub now : ℕ → ℕ

-- The tracks that segment.io has taken, the latest first, and the daemon's `lastTime`.
pub record State : Type 0 where
  pub sent : List Track
  pub last_time : ℕ
  pub clock : ℕ

pub record Daemon : Type 0 where
  pub uuid : String
  pub plugin_version : String
  pub os_version : String
  pub goos : String

abbrev pub empty_document : Document
empty_document = record { next_url = none; resources = []; service_url = ""; label = "" }

-- `eventTypes`
abbrev pub event_types : List String
event_types =
    "audit.app.create" ∷ "audit.app.restage" ∷ "app.crash" ∷ "audit.organization.create"
    ∷ "audit.space.create" ∷ "audit.service_instance.create" ∷ "audit.service_binding.create"
    ∷ "audit.service_broker.create" ∷ "audit.user_provided_service_instance.create"
    ∷ "audit.route.create" ∷ []

-- `strings.Join(…, ",")`
abbrev pub join : List String → String
join [] = ""
join (t ∷ []) = t
join (t ∷ u ∷ ts) = t <> "," <> join (u ∷ ts)

abbrev pub Step : Type 0 → Type 0
Step A = State → Result A × State

module _ (y : Cloud) (d : Daemon) where
  -- `Enqueue`
  unfoldable pub enqueue : Track → State → Option Error × State
  enqueue t s = elim (y.enqueue_error s.clock t) [
    | none ↦ (none, record s { sent = t ∷ s.sent; clock = s.clock + 1 })
    | some e ↦ (some e, record s { clock = s.clock + 1 })
  ]

  pub error_track : String → String → State → Track
  error_track status contents s = record {
    user_id = d.uuid;
    event = "analytics error";
    time = y.now s.clock;
    properties =
        ("message", "failed to contact cc api: [" <> status <> "] " <> contents)
        ∷ ("os", d.goos)
        ∷ ("version", d.plugin_version)
        ∷ [];
  }

  pub take_answer : Answer → State → Result Document × State
  unfolding error_track
  take_answer (no_answer e) s = (err (plain ("failed to query cloud controller: " <> error e)), s)
  take_answer (unreadable e) s = (err e, s)
  take_answer (malformed e) s = (err e, s)
  take_answer (answered doc) s = (ok doc, s)
  take_answer (refused status contents) s =
      (ok empty_document, (enqueue (error_track status contents s) s).1)

  -- `Fetch`. A status other than 200 is reported to segment.io, and leaves the result empty with no
  -- error.
  pub fetch : String → List (String × String) → State → Result Document × State
  unfolding take_answer
  fetch path params s =
      take_answer (y.get_url s.clock path params) (record s { clock = s.clock + 1 })

  newest : Result Document → State → ℕ
  newest (err e) s = y.now s.clock
  newest (ok doc) s = elim (doc.resources) [ [] ↦ y.now s.clock | e ∷ es ↦ e.timestamp ]

  -- `FetchLatestTime`
  pub fetch_latest_time : State → ℕ × State
  unfolding newest
  fetch_latest_time s =
      let (doc, s') =
        fetch "/v2/events" (("order-by", "timestamp") ∷ ("order-direction", "desc") ∷ []) s in
      (newest doc s', s')

  -- The next page, if its URL can be parsed.
  pub follow :
      (List (String × String) → List Event → State → Option (Result (List Event)) × State)
      → List Event
      → Result (List (String × String))
      → State
      → Option (Result (List Event)) × State
  follow again events (err e) s = (some (err e), s)
  follow again events (ok params) s = again params events s

  -- After the answer to one request: the error, or the next page and the rest of the loop.
  pub after_page :
      (List (String × String) → List Event → State → Option (Result (List Event)) × State)
      → List Event
      → Result Document
      → State
      → Option (Result (List Event)) × State
  unfolding follow
  after_page again events (err e) s = (some (err e), s)
  after_page again events (ok doc) s =
      let events = events ++ doc.resources in
      elim (doc.next_url) [
        | none ↦ (some (ok events), s)
        | some url ↦ follow again events (y.parse_url url) s
      ]

  -- The loop of `FetchEvents`, with the number of pages that may still be asked for and the events
  -- so far; `none` means that there are more pages.
  pub fetch_pages :
      ℕ → List (String × String) → List Event → State → Option (Result (List Event)) × State
  unfolding after_page
  fetch_pages zero params events s = (none, s)
  fetch_pages (suc n) params events s =
      let (doc, s') = fetch "/v2/events" params s in after_page (fetch_pages n) events doc s'

  -- `FetchEvents`
  pub fetch_events : ℕ → ℕ → State → Option (Result (List Event)) × State
  unfolding fetch_pages
  fetch_events pages since s =
      fetch_pages pages
        (("q", "type IN " <> join event_types) ∷ ("q", "timestamp>" <> y.format_time since) ∷ []) []
        s
