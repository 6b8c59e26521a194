-- ===== src/Analyticsd/Handlers/Sending.antt =====
-- What the handlers send, and what they keep of the daemon's state.
use cfdev.Common.{refl, ◌+◌, inl, inr, String, ◌<>◌, List, [], ◌∷◌, Bool-cases, Option-cases}
use cfdev.Common.Dict.{Dict}
use cfdev.Runtime.{Result, ok, err}
use cfdev.Analyticsd.{
  Event, Document, Answer, no_answer, unreadable, malformed, refused, answered, Track, Cloud, State,
  Daemon, enqueue, error_track, take_answer, fetch,
}
use cfdev.Analyticsd.Handlers.{
  Command, app_restage, app_create, app_crash, org_create, space_create, service_create,
  service_bind, service_broker_create, user_provided_service_create, route_create,
  service_is_white_listed, buildpack_name, send, report_label, with_label, with_service_url,
  handle_response,
}
use cfdev.Analyticsd.Handlers.Naming.{
  IsUsage, IsAnonymous, service_is_white_listed-Spells, buildpack_name-is_one_of,
}

-- What holds of the state is kept if it is kept by an answer and by an anonymous track.
module _ (y : Cloud) (d : Daemon) (P : State → Type 0)
    (answers : (s : State) → P s → P (record s { clock = s.clock + 1 }))
    (takes : (t : Track) (s : State)
      → IsAnonymous d t
      → P s
      → P (record s { sent = t ∷ s.sent; clock = s.clock + 1 })) where
  enqueue-keeps : (t : Track) (s : State) → IsAnonymous d t → P s → P (enqueue y d t s).1
  unfolding enqueue
  enqueue-keeps t s a p = elim (Option-cases (y.enqueue_error s.clock t)) [
    | inl e ↦ rw (e, enqueue) (takes t s a p)
    | inr (x, e) ↦ rw (e, enqueue) (answers s p)
  ]

  take_answer-keeps : (a : Answer) (s : State) → P s → P (take_answer y d a s).1
  unfolding take_answer error_track
  take_answer-keeps (no_answer e) s p = p
  take_answer-keeps (unreadable e) s p = p
  take_answer-keeps (malformed e) s p = p
  take_answer-keeps (answered doc) s p = p
  take_answer-keeps (refused status contents) s p =
      enqueue-keeps (error_track y d status contents s) s (inl (status, contents, refl, refl)) p

  pub fetch-keeps :
      (path : String) (params : List (String × String)) (s : State)
      → P s
      → P (fetch y d path params s).1
  unfolding fetch
  fetch-keeps path params s p =
      take_answer-keeps (y.get_url s.clock path params) (record s { clock = s.clock + 1 })
        (answers s p)

  send-keeps :
      (name : String) (e : Event) (properties : Dict String) (s : State)
      → IsUsage d
          (record { user_id = d.uuid; event = name; time = e.timestamp; properties = properties })
      → P s
      → P (send y d name e properties s).1
  unfolding send
  send-keeps name e properties s usage p =
      enqueue-keeps
        (record { user_id = d.uuid; event = name; time = e.timestamp; properties = properties }) s
        (inr usage) p

  report_label-keeps :
      (name : String) (e : Event) (doc : Document) (s : State)
      → P s
      → P (report_label y d name e doc s).1
  unfolding report_label
  report_label-keeps name e doc s p = elim (Bool-cases (service_is_white_listed doc.label)) [
    | inl listed ↦
        rw (listed, report_label)
          (send-keeps name e _ s
            (inr (inl (doc.label, service_is_white_listed-Spells doc.label listed, refl))) p)
    | inr hidden ↦ rw (hidden, report_label) p
  ]

  with_label-keeps :
      (name : String) (e : Event) (path : String) (r : Result Document) (s : State)
      → P s
      → P (with_label y d name e path r s).1
  unfolding with_label
  with_label-keeps name e path (err x) s p = p
  with_label-keeps name e path (ok doc) s p = report_label-keeps name e doc s p

  with_service_url-keeps :
      (name : String) (e : Event) (path : String) (r : Result Document) (s : State)
      → P s
      → P (with_service_url y d name e path r s).1
  unfolding with_service_url
  with_service_url-keeps name e path (err x) s p = p
  with_service_url-keeps name e path (ok doc) s p =
      with_label-keeps name e doc.service_url ((fetch y d doc.service_url [] s).0) _
        (fetch-keeps doc.service_url [] s p)

  looked_up-keeps :
      (name : String) (e : Event) (path : String) (s : State)
      → P s
      → P (with_service_url y d name e path (fetch y d path [] s).0 (fetch y d path [] s).1).1
  looked_up-keeps name e path s p =
      with_service_url-keeps name e path ((fetch y d path [] s).0) _ (fetch-keeps path [] s p)

  pub handle_response-keeps :
      (c : Command) (e : Event) (s : State) → P s → P (handle_response y d c e s).1
  unfolding handle_response
  handle_response-keeps app_restage e s p = send-keeps _ e _ s (inl refl) p
  handle_response-keeps app_create e s p =
      send-keeps _ e _ s
        (inr (
          inr (
            buildpack_name e.metadata.buildpack,
            buildpack_name-is_one_of e.metadata.buildpack,
            refl,
          )))
        p
  handle_response-keeps app_crash e s p = send-keeps _ e _ s (inl refl) p
  handle_response-keeps org_create e s p = send-keeps _ e _ s (inl refl) p
  handle_response-keeps space_create e s p = send-keeps _ e _ s (inl refl) p
  handle_response-keeps service_create e s p =
      looked_up-keeps _ e ("/v2/service_plans/" <> e.metadata.service_plan_guid) s p
  handle_response-keeps service_bind e s p =
      looked_up-keeps _ e ("/v2/service_instances/" <> e.metadata.service_instance_guid) s p
  handle_response-keeps service_broker_create e s p = send-keeps _ e _ s (inl refl) p
  handle_response-keeps user_provided_service_create e s p = send-keeps _ e _ s (inl refl) p
  handle_response-keeps route_create e s p = send-keeps _ e _ s (inl refl) p
