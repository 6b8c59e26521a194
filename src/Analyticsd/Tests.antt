-- ===== src/Analyticsd/Tests.antt =====
-- The theorems on the analytics daemon at a concrete cloud controller.
use cfdev.Errors.{plain}
use cfdev.Common.{
  ◌≡◌, ◌=s◌, if◌then◌else◌, refl, ℕ, ◌%◌, ◌==◌, String, none, some, List, [], ◌∷◌, arith,
}
use cfdev.Runtime.{ok}
use cfdev.Analyticsd.{
  Event, Document, answered, refused, Cloud, State, Daemon, fetch, take_answer, fetch_pages,
}
use cfdev.Analyticsd.Paging.{Pages, last_page, page, collect, fetch_pages-Pages}
use cfdev.Analyticsd.Polling.{start}
use cfdev.Analyticsd.Polling.Anonymous.{AllAnonymous, start-AllAnonymous}

abbrev created : Event
created = record {
  kind = "audit.app.create";
  timestamp = 10;
  metadata = record {
    buildpack = "go_buildpack";
    service_plan_guid = "";
    service_instance_guid = "";
  };
}

abbrev crashed : Event
crashed = record {
  kind = "app.crash";
  timestamp = 12;
  metadata = record { buildpack = ""; service_plan_guid = ""; service_instance_guid = "" };
}

abbrev first_page : Document
first_page = record {
  next_url = some "/v2/events?page=2";
  resources = created ∷ [];
  service_url = "";
  label = "";
}

abbrev second_page : Document
second_page = record { next_url = none; resources = crashed ∷ []; service_url = ""; label = "" }

abbrev document_for : List (String × String) → Document
document_for [] = second_page
document_for (q ∷ qs) = first_page

-- Two pages of events, and a segment.io that takes every track.
abbrev cloud : Cloud
cloud = record {
  get_url = λ n path params. answered (document_for params);
  enqueue_error = λ n t. none;
  parse_url = λ url. ok [];
  format_time = λ t. "2018-08-08T08:08:08Z";
  now = λ n. 20;
}

abbrev daemon : Daemon
daemon = record { uuid = "u"; plugin_version = "0.0.14"; os_version = "10.14"; goos = "darwin" }

abbrev fresh : State
fresh = record { sent = []; last_time = 5; clock = 0 }

abbrev bound : Event
bound = record {
  kind = "audit.service_binding.create";
  timestamp = 14;
  metadata = record { buildpack = ""; service_plan_guid = ""; service_instance_guid = "g" };
}

abbrev service : Document
service = record {
  next_url = none;
  resources = created ∷ bound ∷ [];
  service_url = "/v2/services/g";
  label = "p-MySQL";
}

-- A cloud controller that refuses every third request.
abbrev moody : Cloud
moody = record cloud {
  get_url = λ n path params.
      if n % 3 == 0 then refused "500 Internal Server Error" "oops" else answered service;
}

start-AllAnonymous_example :
    AllAnonymous daemon (start moody daemon 3 10 (record { sent = []; last_time = 0; clock = 0 }))
start-AllAnonymous_example = start-AllAnonymous moody daemon 3 10 0

-- A segment.io that refuses the tracks of crashes.
abbrev choosy : Cloud
choosy = record cloud {
  enqueue_error = λ n t. if t.event =s "app push failed" then some (plain "refused") else none;
}

abbrev after : ℕ → State
after n = record { sent = []; last_time = 5; clock = n }

two-Pages :
    Pages cloud daemon
      (("q", "type IN app.crash") ∷ [])
      fresh
      ((created ∷ []) ∷ (crashed ∷ []) ∷ [])
      (after 2)
unfolding fetch take_answer
two-Pages =
    page {s' = after 1} first_page "/v2/events?page=2" refl refl refl
      (last_page second_page refl refl)

fetch_pages-Pages_example :
    fetch_pages cloud daemon 10 (("q", "type IN app.crash") ∷ []) [] fresh
    ≡ (some (ok (collect cloud daemon [] ((created ∷ []) ∷ (crashed ∷ []) ∷ []))), after 2)
fetch_pages-Pages_example =
    fetch_pages-Pages cloud daemon 10 (("q", "type IN app.crash") ∷ []) [] fresh (after 2)
      ((created ∷ []) ∷ (crashed ∷ []) ∷ []) two-Pages (omega arith)
