-- ===== src/Env.antt =====
-- env/env.go: the proxy configuration and the directories of CF Dev; and the list of hosts that
-- bypass the proxy in main.go.
pub mod Proxy
pub mod Variables
pub mod Dirs
pub mod State
mod Tests
use cfdev.Common.{
  String, ◌<>◌, Bool, true, false, not, ◌&&◌, Option, none, some, List, [], ◌∷◌, ◌++◌, map, ◌=s◌,
  if◌then◌else◌,
}
use cfdev.Common.Environment.{Environ, getenv, setenv}
use cfdev.Common.Text.{codes, contains, split}
use cfdev.Configuration.{Config}
use cfdev.Errors.{Error, plain, safe_wrap}
use cfdev.Runtime.{Result, ok, err}

pub record ProxyConfig : Type 0 where
  pub http : String
  pub https : String
  pub no_proxy : String

-- The upper case variable, or the lower case one where that is empty.
pub either : String → String → Environ → String
unfolding getenv
either upper lower env = if not (getenv upper env =s "") then getenv upper env else getenv lower env

-- One more address that bypasses the proxy.
pub exclude : String → String → String
exclude ip no_proxy =
    if not (ip =s "") && not (contains (codes no_proxy) (codes ip))
    then no_proxy <> ("," <> ip)
    else no_proxy

-- `BuildProxyConfig`
pub build_proxy_config : String → String → String → Environ → ProxyConfig
unfolding either exclude
build_proxy_config bosh_director_ip cf_router_ip host_ip env = record {
  http = either "HTTP_PROXY" "http_proxy" env;
  https = either "HTTPS_PROXY" "https_proxy" env;
  no_proxy =
      exclude host_ip
        (exclude cf_router_ip (exclude bosh_director_ip (either "NO_PROXY" "no_proxy" env)));
}

-- `strings.Join(…, ",")`
join : List String → String
join [] = ""
join (t ∷ []) = t
join (t ∷ u ∷ ts) = t <> ("," <> join (u ∷ ts))

-- The list, with the addresses and the domain of CF Dev.
pub bypassing : String → String
unfolding join
bypassing list = join (split b',' list ++ "10.144.0.4" ∷ "10.144.0.34" ∷ ".dev.cfdev.sh" ∷ [])

-- `setWhiteListedProxyVariables` of main.go.
pub set_white_listed_proxy_variables : Environ → Environ
unfolding getenv setenv bypassing
set_white_listed_proxy_variables env =
    let no_proxy_vars = getenv "NO_PROXY" env in
    let no_proxy_vars =
      if not (no_proxy_vars =s "") then getenv "no_proxy" env else no_proxy_vars in
    setenv "NO_PROXY" (bypassing no_proxy_vars) env

pub data Action : Type 0 where
  remove_all : String → Action
  mkdir_all : String → Action

-- The error of an action, wrapped.
failure : Action → String → Error
failure (remove_all dir) e = safe_wrap (plain ("path " <> dir <> ": " <> e)) "failed to remove dir"
failure (mkdir_all dir) e = safe_wrap (plain ("path " <> dir <> ": " <> e)) "failed to create dir"

-- The disk's answers to the actions, after those before them, the latest first.
abbrev pub Disk : Type 0
Disk = List Action → Action → Option String

module _ (disk : Disk) where
  -- The loops of `RemoveDirAlls` and `MkdirAlls`.
  pub each : List Action → List Action → Result (Unit {0}) × List Action
  unfolding failure
  each [] h = (ok tt, h)
  each (a ∷ actions) h =
      let rest = each actions (a ∷ h) in
      elim (disk h a) [ some e ↦ (err (failure a e), a ∷ h) | none ↦ rest ]

  pub remove_dir_alls : List String → List Action → Result (Unit {0}) × List Action
  unfolding each
  remove_dir_alls dirs h = each (map remove_all dirs) h

  pub mkdir_alls : List String → List Action → Result (Unit {0}) × List Action
  unfolding each
  mkdir_alls dirs h = each (map mkdir_all dirs) h

  after_removal : Config → Result (Unit {0}) → List Action → Result (Unit {0}) × List Action
  unfolding mkdir_alls
  after_removal c (err e) h = (err e, h)
  after_removal c (ok _) h =
      mkdir_alls
        (c.cfdev_home ∷ c.cache_dir ∷ c.vpnkit_state_dir ∷ c.state_linuxkit ∷ c.state_bosh
          ∷ c.services_dir ∷ c.log_dir ∷ [])
        h

  -- `CreateDirs`
  pub create_dirs : Config → List Action → Result (Unit {0}) × List Action
  unfolding remove_dir_alls after_removal
  create_dirs c h =
      let (r, h') = remove_dir_alls (c.log_dir ∷ c.services_dir ∷ c.state_dir ∷ []) h in
      after_removal c r h'
