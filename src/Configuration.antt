-- ===== src/Configuration.antt =====
-- config/config.go: where things are, what is downloaded, and the versions. Pointers of the
-- configuration stand as their values.
mod Examples
pub mod Sample
pub mod Semver
use cfdev.Common.{
  ℕ, String, ◌<>◌, Bool, true, false, not, ◌||◌, Option, none, some, List, [], ◌∷◌, ◌=s◌, ltb,
  if◌then◌else◌,
}
use cfdev.Common.Decimal.{parse_uint}
use cfdev.Common.Environment.{Environ, getenv}
use cfdev.Common.Paths.{join_path}
use cfdev.Errors.{Error, safe_wrap}
use cfdev.Resource.{Item}
use cfdev.Runtime.{Result, ok, err}
use cfdev.Configuration.Semver
use cfdev.Configuration.Semver.{Version, Parsed, must}

pub record Config : Type 0 where
  pub bosh_director_ip : String
  pub cf_router_ip : String
  pub host_ip : String
  pub cfdev_home : String
  pub state_dir : String
  pub state_bosh : String
  pub state_linuxkit : String
  pub cache_dir : String
  pub vpnkit_state_dir : String
  pub log_dir : String
  pub deps_file : String
  pub dependencies : List Item
  pub cfdevd_socket_path : String
  pub cfdevd_installation_path : String
  pub cli_version : Version
  pub build_version : String
  pub analytics_key : String
  pub services_dir : String
  pub cf_domain : String

-- The variables that the linker sets.
pub record Build : Type 0 where
  pub cfdeps_url : String
  pub cfdeps_md5 : String
  pub cfdeps_size : String
  pub cfdevd_url : String
  pub cfdevd_md5 : String
  pub cfdevd_size : String
  pub analyticsd_url : String
  pub analyticsd_md5 : String
  pub analyticsd_size : String
  pub analytics_key : String
  pub test_analytics_key : String
  pub cli_version : String
  pub build_version : String

-- `aToUint64`
a_to_uint64 : String → ℕ
a_to_uint64 a = elim (parse_uint a) [ none ↦ 0 | some i ↦ i ]

-- `sort.Slice` by size. On so few items it is an insertion sort.
insert : Item → List Item → List Item
insert x [] = x ∷ []
insert x (y ∷ ys) = let rest = insert x ys in if ltb x.size y.size then x ∷ y ∷ ys else y ∷ rest

sort_onto : List Item → List Item → List Item
unfolding insert
sort_onto [] sorted = sorted
sort_onto (x ∷ xs) sorted = sort_onto xs (insert x sorted)

asset : String → String → String → String → Item
unfolding a_to_uint64
asset url name md5 size = record {
  url = url;
  name = name;
  md5 = md5;
  size = a_to_uint64 size;
  in_use = true;
}

-- The items before they are sorted.
items : Bool → Build → List Item
items is_windows b =
    asset b.cfdeps_url "cfdev-deps.tgz" b.cfdeps_md5 b.cfdeps_size
    ∷ (if is_windows
        then asset b.analyticsd_url "analyticsd.exe" b.analyticsd_md5 b.analyticsd_size ∷ []
        else asset b.analyticsd_url "analyticsd" b.analyticsd_md5 b.analyticsd_size
          ∷ asset b.cfdevd_url "cfdevd" b.cfdevd_md5 b.cfdevd_size
          ∷ [])

abbrev wrapped : Result (List Item) → Result (List Item)
wrapped (ok c) = ok c
wrapped (err e) = err (safe_wrap e "Unable to parse CFDEV_CATALOG env variable")

-- `catalog`. What `json.Unmarshal` makes of a text is a parameter.
catalog : (String → Result (List Item)) → Bool → Build → Environ → Result (List Item)
unfolding getenv items sort_onto
catalog unmarshal is_windows b env =
    if not (getenv "CFDEV_CATALOG" env =s "")
    then wrapped (unmarshal (getenv "CFDEV_CATALOG" env))
    else ok (sort_onto (items is_windows b) [])

-- `getCfdevHome`
get_cfdev_home : Bool → Environ → String
unfolding getenv
get_cfdev_home is_windows env =
    if not (getenv "CFDEV_HOME" env =s "")
    then getenv "CFDEV_HOME" env
    else if is_windows
    then join_path (getenv "HOMEDRIVE" env ∷ getenv "HOMEPATH" env ∷ ".cfdev" ∷ [])
    else join_path (getenv "HOME" env ∷ ".cfdev" ∷ [])

choose_key : Build → Environ → String
unfolding getenv
choose_key b env =
    if getenv "CFDEV_MODE" env =s "debug" || b.analytics_key =s ""
    then b.test_analytics_key
    else b.analytics_key

unfoldable pub config_at : String → List Item → Build → Environ → Version → Config
unfolding choose_key
config_at home dependencies b env version = record {
  bosh_director_ip = "10.144.0.4";
  cf_router_ip = "10.144.0.34";
  host_ip = "192.168.65.2";
  cfdev_home = home;
  state_dir = join_path (home ∷ "state" ∷ []);
  state_bosh = join_path (home ∷ "state" ∷ "bosh" ∷ []);
  state_linuxkit = join_path (home ∷ "state" ∷ "linuxkit" ∷ []);
  cache_dir = join_path (home ∷ "cache" ∷ []);
  vpnkit_state_dir = join_path (home ∷ "state" ∷ "vpnkit" ∷ []);
  log_dir = join_path (home ∷ "log" ∷ []);
  deps_file = "";
  dependencies = dependencies;
  cfdevd_socket_path = join_path ("/var" ∷ "tmp" ∷ "cfdevd.socket" ∷ []);
  cfdevd_installation_path =
      join_path ("/Library" ∷ "PrivilegedHelperTools" ∷ "org.cloudfoundry.cfdevd" ∷ []);
  cli_version = version;
  build_version = b.build_version;
  analytics_key = choose_key b env;
  services_dir = join_path (home ∷ "services" ∷ []);
  cf_domain = "dev.cfdev.sh";
}

-- What `NewConfig` comes to: a configuration, an error, or a panic.
pub data Outcome : Type 0 where
  configured : Config → Outcome
  failed : Error → Outcome
  panicked : Outcome

configured_at : String → List Item → Build → Environ → Parsed → Outcome
unfolding config_at
configured_at home dependencies b env (Parsed.parsed v) =
    configured (config_at home dependencies b env v)
configured_at home dependencies b env Parsed.panicked = panicked

-- `NewConfig`
new_config : (String → Result (List Item)) → Bool → Build → Environ → Outcome
unfolding catalog get_cfdev_home configured_at
new_config unmarshal is_windows b env = elim (catalog unmarshal is_windows b env) [
  | err e ↦ failed e
  | ok dependencies ↦
      configured_at (get_cfdev_home is_windows env) dependencies b env
        (must (Semver.new b.cli_version))
]
