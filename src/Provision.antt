-- ===== src/Provision.antt =====
-- provision/services.go: which services of the metadata are deployed.
pub mod Deploying
pub mod Services
use cfdev.Common.{
  String, ◌<>◌, Bool, true, false, not, ◌&&◌, ◌||◌, List, [], ◌∷◌, ◌++◌, ◌=s◌, if◌then◌else◌,
}
use cfdev.Common.Text.{codes, lower, contains, same, trim_space}
use cfdev.Errors.{Error, plain}
use cfdev.Metadata.{Service}
use cfdev.Runtime.{Result, ok, err}

-- `strings.Contains(strings.ToLower(a), strings.ToLower(b))`
abbrev pub mentions : String → String → Bool
mentions a b = contains (lower (codes a)) (lower (codes b))

-- `contains` of services.go: by the name of the service.
pub holds : List Service → String → Bool
holds [] name = false
holds (s ∷ services) name = s.name =s name || holds services name

-- The first loop of `WhiteListServices`.
pub always_included : List Service → List Service
always_included [] = []
always_included (s ∷ services) =
    let rest = always_included services in if s.flagname =s "always-include" then s ∷ rest else rest

-- The loop of its default case, with the list that grows.
pub requested : String → List Service → List Service → List Service
unfolding holds
requested white_list [] listed = listed
requested white_list (s ∷ services) listed = requested white_list services (
    if mentions white_list s.flagname && not (holds listed s.name)
    then listed ++ (s ∷ [])
    else listed)

-- `WhiteListServices`, which returns no error.
pub white_list_services : String → List Service → List Service
unfolding always_included requested
white_list_services white_list services =
    let asked = trim_space (lower (codes white_list)) in
    if same asked (codes "all")
    then services
    else if same asked (codes "") || same asked (codes "none")
    then always_included services
    else requested white_list services (always_included services)

-- `GetWhiteListedService`
unfoldable pub get_white_listed_service : String → List Service → Result Service
get_white_listed_service service_name [] =
    err (plain ("The service '" <> service_name <> "' is not a valid service"))
get_white_listed_service service_name (s ∷ services) =
    if mentions service_name s.flagname
    then ok s
    else get_white_listed_service service_name services
