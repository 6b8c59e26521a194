-- ===== src/Commands/DeployService/Deployed.antt =====
-- What `cf dev deploy-service` has done where it returns no error.
use cfdev.Common.{
  ◌≡◌, refl, sym, ap, subst, ◌∙◌, inl, inr, String, true, none, List, [], ◌∷◌, ◌=s◌, eq_iff, Among,
  arith, Bool-cases, Option-cases,
}
use cfdev.Metadata.{Service}
use cfdev.Provision.{mentions, get_white_listed_service}
use cfdev.Provision.Services.{Found, get_white_listed_service-Found}
use cfdev.Runtime.{
  Call, event, read_metadata, ping, deploy_services, World, Result, ok, err, ◌>>=◌, raise,
}
use cfdev.Commands.Provision.{compatibility_version}
use cfdev.Commands.DeployService.{deploy_found, after_ping, deploy_from, execute}

-- One service of the metadata whose flag name stands in the name has been deployed, after the
-- virtual machine has answered, and nothing else.
abbrev pub HasDeployed : World → String → List Call → List Call → Type 0
HasDeployed w name h after =
    let metadata = w.metadata h read_metadata in
    let asked = ping ∷ read_metadata ∷ h in
    (service : Service) × Among service metadata.services
    × (mentions name service.flagname ≡ true)
    × (metadata.version ≡ compatibility_version)
    × (w.fails (read_metadata ∷ h) ping ≡ none)
    × (w.fails asked (deploy_services (service ∷ [])) ≡ none)
    × (after ≡ event "deployed service" ∷ deploy_services (service ∷ []) ∷ asked)

deploy_found-ok :
    (w : World) (r : Result Service) (h : List Call)
    → (deploy_found w r h).0 ≡ ok tt
    → (service : Service) × (r ≡ ok service)
      × (w.fails h (deploy_services (service ∷ [])) ≡ none)
      × ((deploy_found w r h).1 ≡ event "deployed service" ∷ deploy_services (service ∷ []) ∷ h)
unfolding deploy_found raise ◌>>=◌
deploy_found-ok w (err e) h done = absurd (ground (arith, done))
deploy_found-ok w (ok service) h done =
    elim (Option-cases (w.fails h (deploy_services (service ∷ [])))) [
      | inl e ↦ (service, refl, e, rw e refl)
      | inr (x, e) ↦ absurd (ground (arith, e, done))
    ]

execute-deploy_found :
    (w : World) (name : String) (h : List Call)
    → w.fails h read_metadata ≡ none
    → ((w.metadata h read_metadata).version =s compatibility_version) ≡ true
    → w.fails (read_metadata ∷ h) ping ≡ none
    → execute w name h
      ≡ deploy_found w
          (get_white_listed_service name (w.metadata h read_metadata).services)
          (ping ∷ read_metadata ∷ h)
unfolding execute deploy_from after_ping raise ◌>>=◌
execute-deploy_found w name h e current f = rw (e, current, f) refl

-- If `cf dev deploy-service` returns no error, then the assets were read and are compatible, the
-- virtual machine answered, and exactly one service was deployed: one of the metadata whose flag
-- name stands in the name that was given.
pub execute-HasDeployed :
    (w : World) (name : String) (h : List Call)
    → (execute w name h).0 ≡ ok tt
    → (w.fails h read_metadata ≡ none) × HasDeployed w name h (execute w name h).1
unfolding execute deploy_from after_ping raise ◌>>=◌
execute-HasDeployed w name h done = elim (Option-cases (w.fails h read_metadata)) [
  | inr (x, e) ↦ absurd (ground (arith, e, done))
  | inl e ↦
      let metadata = w.metadata h read_metadata in
      elim (Bool-cases (metadata.version =s compatibility_version)) [
        | inr old ↦ absurd (ground (arith, e, old, done))
        | inl current ↦ elim (Option-cases (w.fails (read_metadata ∷ h) ping)) [
          | inr (x, f) ↦ absurd (ground (arith, e, current, f, done))
          | inl f ↦
              let asked = ping ∷ read_metadata ∷ h in
              let r = get_white_listed_service name metadata.services in
              let passes = execute-deploy_found w name h e current f in
              let (service, found, deployed, after) =
                deploy_found-ok w r asked (ap (λ run. run.0) (sym passes) ∙ done) in
              let (among, mentioned) =
                subst (Found name metadata.services) found
                  (get_white_listed_service-Found name metadata.services) in
              (
                e,
                (
                  service,
                  among,
                  mentioned,
                  (eq_iff metadata.version compatibility_version).0 current,
                  f,
                  deployed,
                  ap (λ run. run.1) passes ∙ after,
                ),
              )
        ]
      ]
]
