-- ===== src/Analyticsd/Handlers/Naming.antt =====
-- What a track of the analytics daemon may name.
use mathlib.Core.Bool.{false≢true}
use cfdev.Common.{
  ◌≡◌, ◌⊎◌, refl, inl, inr, String, ◌<>◌, Bool, true, ◌&&◌, List, [], ◌∷◌, ◌=s◌, Among, Bool-cases,
}
use cfdev.Common.Dict.{Dict, get}
use cfdev.Common.Text.{codes, lower, same}
use cfdev.Analyticsd.{Track, Daemon}
use cfdev.Analyticsd.Handlers.{
  listed_in, service_whitelist, service_is_white_listed, buildpack_name, buildpack_whitelist,
  known_or_custom,
}
use cfdev.Analyticsd.Handlers.Dispatch.{is_one_of}

-- The names of public buildpacks, and the word for every other.
abbrev public_buildpacks : List String
public_buildpacks =
    "staticfile" ∷ "java" ∷ "ruby" ∷ "dotnet_core" ∷ "nodejs" ∷ "go" ∷ "python" ∷ "php" ∷ "binary"
    ∷ "unspecified" ∷ "custom" ∷ []

-- The services of Pivotal that may be named.
abbrev public_services : List String
public_services =
    "mysql" ∷ "p-mysql" ∷ "p.mysql" ∷ "rabbit" ∷ "rabbitmq" ∷ "p-rabbitmq" ∷ "p.rabbitmq" ∷ "redis"
    ∷ "p-redis" ∷ "p.redis" ∷ "p-circuit-breaker-dashboard" ∷ "p-config-server"
    ∷ "p-service-registry" ∷ []

-- A label is one of the names, but for the case of its letters.
abbrev Spells : List String → String → Type 0
Spells names label =
    (name : String) × Among name names × (same (lower (codes label)) (lower (codes name)) ≡ true)

-- What the daemon knows of the host.
abbrev host_facts : Daemon → Dict String
host_facts d =
    ("os", d.goos) ∷ ("plugin_version", d.plugin_version) ∷ ("os_version", d.os_version) ∷ []

-- A track of usage has these facts, and no more than one name: of a public service or of a public
-- buildpack.
abbrev pub IsUsage : Daemon → Track → Type 0
IsUsage d t =
    (t.properties ≡ host_facts d)
    ⊎ ((label : String) × Spells public_services label
        × (t.properties ≡ ("service", label) ∷ host_facts d))
    ⊎ ((b : String) × (is_one_of b public_buildpacks ≡ true)
        × (t.properties ≡ ("buildpack", b) ∷ host_facts d))

-- The report of a status other than 200, with the answer of the cloud controller as it came.
abbrev pub IsReport : Daemon → Track → Type 0
IsReport d t =
    (status : String) × (contents : String) × (t.event ≡ "analytics error")
    × (t.properties
        ≡ ("message", "failed to contact cc api: [" <> status <> "] " <> contents)
          ∷ ("os", d.goos)
          ∷ ("version", d.plugin_version)
          ∷ [])

-- A track is one of usage, or the report of a refused request.
abbrev pub IsAnonymous : Daemon → Track → Type 0
IsAnonymous d t = IsReport d t ⊎ IsUsage d t

listed_in-Spells :
    (names : List String) (label : String) → listed_in names label ≡ true → Spells names label
unfolding listed_in
listed_in-Spells [] label h = cc
listed_in-Spells (l ∷ names) label h =
    elim (Bool-cases (same (lower (codes label)) (lower (codes l)))) [
      | inl e ↦ (l, inl refl, e)
      | inr e ↦
          let (name, among, spelled) = listed_in-Spells names label (rw e at h) in
          (name, inr among, spelled)
    ]

pub service_is_white_listed-Spells :
    (label : String) → service_is_white_listed label ≡ true → Spells public_services label
unfolding service_is_white_listed
service_is_white_listed-Spells label h = listed_in-Spells service_whitelist label h

-- Every name in the table is public.
names_are_public : Dict String → Bool
names_are_public [] = true
names_are_public ((k, v) ∷ d) = is_one_of v public_buildpacks && names_are_public d

known_or_custom-is_one_of :
    (b : String) (d : Dict String)
    → names_are_public d ≡ true
    → is_one_of (known_or_custom (get b d)) public_buildpacks ≡ true
unfolding known_or_custom get names_are_public
known_or_custom-is_one_of b [] h = refl
known_or_custom-is_one_of b ((k, v) ∷ d) h = elim (Bool-cases (is_one_of v public_buildpacks)) [
  | inr hidden ↦ absurd (false≢true (rw hidden at h))
  | inl public ↦ elim (Bool-cases (k =s b)) [
    | inl e ↦ rw (e, get) public
    | inr e ↦ rw (e, get) (known_or_custom-is_one_of b d (rw public at h))
  ]
]

pub buildpack_name-is_one_of : (b : String) → is_one_of (buildpack_name b) public_buildpacks ≡ true
unfolding buildpack_name names_are_public
buildpack_name-is_one_of b = known_or_custom-is_one_of b buildpack_whitelist refl
