-- ===== src/Analyticsd/Handlers.antt =====
-- analyticsd/command: which event has a handler, and what each handler sends.
pub mod Dispatch
pub mod Naming
pub mod Sending
use cfdev.Common.{
  ℕ, String, ◌<>◌, Bool, true, false, ◌||◌, Option, none, some, List, [], ◌∷◌, ◌++◌, ◌=s◌,
  if◌then◌else◌,
}
use cfdev.Common.Dict.{Dict, get}
use cfdev.Common.Text.{codes, lower, same}
use cfdev.Errors.{Error, plain, error}
use cfdev.Runtime.{Result, ok, err}
use cfdev.Analyticsd.{Metadata, Event, Document, Track, Cloud, State, Daemon, enqueue, fetch}

pub data Command : Type 0 where
  app_restage app_create app_crash org_create space_create service_create service_bind : Command
  service_broker_create user_provided_service_create route_create : Command

-- `New`
pub new : String → Option Command
new event =
    if event =s "audit.app.restage"
    then some app_restage
    else if event =s "audit.app.create"
    then some app_create
    else if event =s "app.crash"
    then some app_crash
    else if event =s "audit.organization.create"
    then some org_create
    else if event =s "audit.space.create"
    then some space_create
    else if event =s "audit.service_instance.create"
    then some service_create
    else if event =s "audit.service_binding.create"
    then some service_bind
    else if event =s "audit.service_broker.create"
    then some service_broker_create
    else if event =s "audit.user_provided_service_instance.create"
    then some user_provided_service_create
    else if event =s "audit.route.create"
    then some route_create
    else none

-- `SERVICE_WHITELIST`
abbrev pub service_whitelist : List String
service_whitelist =
    "mysql" ∷ "p-mysql" ∷ "p.mysql" ∷ "rabbit" ∷ "rabbitmq" ∷ "p-rabbitmq" ∷ "p.rabbitmq" ∷ "redis"
    ∷ "p-redis" ∷ "p.redis" ∷ "p-circuit-breaker-dashboard" ∷ "p-config-server"
    ∷ "p-service-registry" ∷ []

listed_in : List String → String → Bool
listed_in [] label = false
listed_in (l ∷ ls) label = same (lower (codes label)) (lower (codes l)) || listed_in ls label

-- `serviceIsWhiteListed`
pub service_is_white_listed : String → Bool
unfolding listed_in
service_is_white_listed label = listed_in service_whitelist label

-- `buildpackWhitelist`
abbrev pub buildpack_whitelist : Dict String
buildpack_whitelist =
    ("staticfile_buildpack", "staticfile")
    ∷ ("java_buildpack", "java")
    ∷ ("ruby_buildpack", "ruby")
    ∷ ("dotnet_core_buildpack", "dotnet_core")
    ∷ ("nodejs_buildpack", "nodejs")
    ∷ ("go_buildpack", "go")
    ∷ ("python_buildpack", "python")
    ∷ ("php_buildpack", "php")
    ∷ ("binary_buildpack", "binary")
    ∷ ("", "unspecified")
    ∷ []

known_or_custom : Option String → String
known_or_custom none = "custom"
known_or_custom (some b) = b

pub buildpack_name : String → String
unfolding known_or_custom
buildpack_name b = known_or_custom (get b buildpack_whitelist)

abbrev send_failure : Option Error → Option Error
send_failure none = none
send_failure (some e) = some (plain ("failed to send analytics: " <> error e))

abbrev request_failure : String → Error → Error
request_failure path e = plain ("failed to make request to: " <> path <> ": " <> error e)

module _ (y : Cloud) (d : Daemon) where
  abbrev platform : Dict String
  platform =
      ("os", d.goos) ∷ ("plugin_version", d.plugin_version) ∷ ("os_version", d.os_version) ∷ []

  send : String → Event → Dict String → State → Option Error × State
  send name e properties s =
      let (failed, s') =
        enqueue y d
          (record { user_id = d.uuid; event = name; time = e.timestamp; properties = properties })
          s in
      (send_failure failed, s')

  handle_app_create : Event → State → Option Error × State
  unfolding send buildpack_name
  handle_app_create e s =
      send "app created" e (("buildpack", buildpack_name e.metadata.buildpack) ∷ platform) s

  handle_app_restage : Event → State → Option Error × State
  unfolding send
  handle_app_restage e s = send "app restage" e platform s

  handle_app_crash : Event → State → Option Error × State
  unfolding send
  handle_app_crash e s = send "app push failed" e platform s

  handle_org_create : Event → State → Option Error × State
  unfolding send
  handle_org_create e s = send "org created" e platform s

  handle_space_create : Event → State → Option Error × State
  unfolding send
  handle_space_create e s = send "space created" e platform s

  handle_service_broker_create : Event → State → Option Error × State
  unfolding send
  handle_service_broker_create e s = send "created service broker" e platform s

  handle_user_provided_service_create : Event → State → Option Error × State
  unfolding send
  handle_user_provided_service_create e s = send "created user provided service" e platform s

  handle_route_create : Event → State → Option Error × State
  unfolding send
  handle_route_create e s = send "created route" e platform s

  -- The label of the service, and the track, once the service's URL is known.
  report_label : String → Event → Document → State → Option Error × State
  unfolding send service_is_white_listed
  report_label name e doc s =
      if service_is_white_listed doc.label
      then send name e (("service", doc.label) ∷ platform) s
      else (none, s)

  with_label : String → Event → String → Result Document → State → Option Error × State
  unfolding report_label
  with_label name e path (err x) s = (some (request_failure path x), s)
  with_label name e path (ok doc) s = report_label name e doc s

  with_service_url : String → Event → String → Result Document → State → Option Error × State
  unfolding with_label
  with_service_url name e path (err x) s = (some (request_failure path x), s)
  with_service_url name e path (ok doc) s =
      let (found, s') = fetch y d doc.service_url [] s in with_label name e doc.service_url found s'

  handle_service_create : Event → State → Option Error × State
  unfolding with_service_url
  handle_service_create e s =
      let path = "/v2/service_plans/" <> e.metadata.service_plan_guid in
      let (found, s') = fetch y d path [] s in with_service_url "created service" e path found s'

  handle_service_bind : Event → State → Option Error × State
  unfolding with_service_url
  handle_service_bind e s =
      let path = "/v2/service_instances/" <> e.metadata.service_instance_guid in
      let (found, s') = fetch y d path [] s in
      with_service_url "app bound to service" e path found s'

  -- `HandleResponse` of the command that `New` returns.
  pub handle_response : Command → Event → State → Option Error × State
  unfolding handle_app_create handle_app_restage handle_app_crash handle_org_create
      handle_space_create handle_service_broker_create handle_user_provided_service_create
      handle_route_create handle_service_create handle_service_bind
  handle_response app_restage e s = handle_app_restage e s
  handle_response app_create e s = handle_app_create e s
  handle_response app_crash e s = handle_app_crash e s
  handle_response org_create e s = handle_org_create e s
  handle_response space_create e s = handle_space_create e s
  handle_response service_create e s = handle_service_create e s
  handle_response service_bind e s = handle_service_bind e s
  handle_response service_broker_create e s = handle_service_broker_create e s
  handle_response user_provided_service_create e s = handle_user_provided_service_create e s
  handle_response route_create e s = handle_route_create e s
