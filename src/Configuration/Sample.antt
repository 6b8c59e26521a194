-- ===== src/Configuration/Sample.antt =====
-- A configuration for examples.
use cfdev.Common.{[]}
use cfdev.Common.Environment.{unix}
use cfdev.Common.Int.{pos}
use cfdev.Configuration.{Config, Build, config_at}

abbrev build : Build
build = record {
  cfdeps_url = "";
  cfdeps_md5 = "";
  cfdeps_size = "";
  cfdevd_url = "";
  cfdevd_md5 = "";
  cfdevd_size = "";
  analyticsd_url = "";
  analyticsd_md5 = "";
  analyticsd_size = "";
  analytics_key = "";
  test_analytics_key = "";
  cli_version = "1.2.3";
  build_version = "";
}

abbrev pub config : Config
config =
    config_at "/home/.cfdev" [] build (unix [])
      (record { major = pos 1; minor = pos 2; build = pos 3; original = "1.2.3" })
