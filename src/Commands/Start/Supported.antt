-- ===== src/Commands/Start/Supported.antt =====
-- What `cf dev start -s` accepts, and what is then deployed.
use cfdev.Common.{◌≡◌, refl, inl, inr, String, true, false, List, [], ◌∷◌, All, Among, Bool-cases}
use cfdev.Common.Text.{codes, lower, same, same_eq, split}
use cfdev.Common.Text.Pieces.{Contains, split-Contains}
use cfdev.Metadata.{Service}
use cfdev.Provision.{holds, white_list_services}
use cfdev.Provision.Services.{asks_for_none, white_list_services-mentioned}
use cfdev.Commands.Start.{has_flag, all_supported, is_service_supported}

-- The service answers to the flag name, without regard to case.
abbrev pub AnswersTo : String → Service → Type 0
AnswersTo name s = same (lower (codes s.flagname)) (lower (codes name)) ≡ true

has_flag-Among :
    (services : List Service) (name : String)
    → has_flag services name ≡ true
    → (s : Service) × Among s services × AnswersTo name s
unfolding has_flag
has_flag-Among [] name h = cc
has_flag-Among (s ∷ services) name h =
    elim (Bool-cases (same (lower (codes s.flagname)) (lower (codes name)))) [
      | inl e ↦ (s, inl refl, e)
      | inr e ↦ let (t, m, a) = has_flag-Among services name (rw e at h) in (t, inr m, a)
    ]

-- A service that answers to the name is deployed, up to another service of its name.
abbrev pub IsDeployed : String → List Service → String → Type 0
IsDeployed request services name =
    (s : Service) × Among s services
    × AnswersTo name s
    × (holds (white_list_services request services) s.name ≡ true)

IsDeployed-piece :
    (request : String) (services : List Service) (name : String)
    → asks_for_none request ≡ false
    → has_flag services name ≡ true
    → Contains request name
    → IsDeployed request services name
IsDeployed-piece request services name some_names supported inside =
    let (s, m, a) = has_flag-Among services name supported in
    (
      s,
      m,
      a,
      white_list_services-mentioned request services s some_names m
          (rw (same_eq (lower (codes s.flagname)) (lower (codes name)) a) inside),
    )

IsDeployed-all :
    (request : String) (services : List Service) (names : List String)
    → asks_for_none request ≡ false
    → all_supported names services ≡ true
    → All (Contains request) names
    → All (IsDeployed request services) names
unfolding all_supported
IsDeployed-all request services [] some_names supported inside = tt
IsDeployed-all request services (name ∷ names) some_names supported inside =
    elim (Bool-cases (has_flag services name)) [
      | inl e ↦ (
        IsDeployed-piece request services name some_names e inside.0,
        IsDeployed-all request services names some_names (rw e at supported) inside.1,
      )
      | inr e ↦ cc
    ]

-- What a start accepts, a provisioning deploys: if the requested services are accepted and are not
-- the words for all or for none, then every name in the comma-separated request has a service of
-- the metadata that answers to it and is deployed, up to another service of its name.
pub is_service_supported-IsDeployed :
    (request : String) (services : List Service)
    → is_service_supported request services ≡ true
    → same (lower (codes request)) (codes "all") ≡ false
    → same (lower (codes request)) (codes "none") ≡ false
    → asks_for_none request ≡ false
    → All (IsDeployed request services) (split b',' request)
unfolding is_service_supported
is_service_supported-IsDeployed request services supported not_all not_none some_names =
    IsDeployed-all request services (split b',' request) some_names
      (rw (not_all, not_none) at supported) (split-Contains b',' request)
