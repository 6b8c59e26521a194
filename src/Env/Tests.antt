-- ===== src/Env/Tests.antt =====
-- The theorems on the environment at concrete variables and disks.
use cfdev.Common.{◌≡◌, refl, String, none, [], ◌∷◌, ◌++◌}
use cfdev.Common.Dict.{Dict}
use cfdev.Common.Environment.{unix, windows, getenv, setenv}
use cfdev.Common.Text.{codes}
use cfdev.Env.Variables.{additions, set_white_listed_proxy_variables_forgets}
use cfdev.Common.Int.{pos}
use cfdev.Configuration.{Build, Config, config_at}
use cfdev.Configuration.Semver.{Version}
use cfdev.Env.{
  either, build_proxy_config, set_white_listed_proxy_variables, Disk, each, remove_dir_alls,
  mkdir_alls, after_removal, create_dirs,
}
use cfdev.Env.Proxy.{Extends, IsNamed, build_proxy_config-IsNamed}
use cfdev.Env.Dirs.{history_of, AllDone, removals, creations, create_dirs-AllDone}

-- The user's list has an address that the director's is a part of.
abbrev variables : Dict String
variables = ("no_proxy", "10.144.0.40") ∷ ("http_proxy", "proxy.example.com") ∷ []

build_proxy_config-IsNamed_example :
    let env = unix variables in
    let own = either "NO_PROXY" "no_proxy" env in
    let final = (build_proxy_config "10.144.0.4" "10.144.0.34" "" env).no_proxy in
    Extends final own
    × IsNamed final own "10.144.0.4"
    × IsNamed final (build_proxy_config "10.144.0.4" "" "" env).no_proxy "10.144.0.34"
    × IsNamed final (build_proxy_config "10.144.0.4" "10.144.0.34" "" env).no_proxy ""
build_proxy_config-IsNamed_example =
    build_proxy_config-IsNamed "10.144.0.4" "10.144.0.34" "" (unix variables)

set_white_listed_proxy_variables_forgets_example :
    (codes (
        getenv "NO_PROXY"
          (set_white_listed_proxy_variables (setenv "NO_PROXY" "a.com" (unix variables))))
      ≡ codes (getenv "no_proxy" (unix variables)) ++ additions)
    × (codes (
          getenv "NO_PROXY"
            (set_white_listed_proxy_variables (setenv "NO_PROXY" "a.com" (windows variables))))
        ≡ codes "a.com" ++ additions)
set_white_listed_proxy_variables_forgets_example =
    set_white_listed_proxy_variables_forgets "a.com" variables refl

abbrev build : Build
build = record {
  cfdeps_url = "https://example.com/deps";
  cfdeps_md5 = "md5";
  cfdeps_size = "3";
  cfdevd_url = "https://example.com/cfdevd";
  cfdevd_md5 = "md5";
  cfdevd_size = "1";
  analyticsd_url = "https://example.com/analyticsd";
  analyticsd_md5 = "md5";
  analyticsd_size = "2";
  analytics_key = "key";
  test_analytics_key = "test-key";
  cli_version = "0.0.16";
  build_version = "16";
}

abbrev version : Version
version = record { major = pos 0; minor = pos 0; build = pos 16; original = "0.0.16" }

abbrev config : Config
config = config_at "/home/.cfdev" [] build (unix []) version

abbrev disk : Disk
disk = λ h a. none

create_dirs-AllDone_example :
    ((create_dirs disk config []).1
      ≡ history_of (creations config) (history_of (removals config) []))
    × AllDone disk (removals config) []
    × AllDone disk (creations config) (history_of (removals config) [])
unfolding create_dirs remove_dir_alls mkdir_alls after_removal each
create_dirs-AllDone_example = create_dirs-AllDone disk config [] refl
