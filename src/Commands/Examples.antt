-- ===== src/Commands/Examples.antt =====
-- The theorems on the commands at concrete runs.
use cfdev.Common.{◌≡◌, refl, true, false, Option, none, some, [], ◌∷◌, ◌⊎◌, All}
use cfdev.Common.Text.{split}
use cfdev.Common.Int.{pos}
use cfdev.Errors.{Error, plain}
use cfdev.Resource.{Item}
use cfdev.Metadata.{Service, Metadata}
use cfdev.Runtime.{
  Call, event, check_requirements, vm_stop, ping, World, set_custom_analytics,
  analyticsd_is_running, read_metadata, ◌>>=◌,
}
use cfdev.Runtime.Keeps.{Ordered, Post}
use cfdev.Provision.{get_white_listed_service}
use cfdev.Commands.Telemetry.{turn_telemetry_off, stop_daemon}
use cfdev.Commands.Telemetry.Off.{IsDown, turn_telemetry_off-IsDown}
use cfdev.Commands.DeployService
use cfdev.Commands.DeployService.{deploy_from, deploy_found, after_ping}
use cfdev.Commands.DeployService.Deployed.{HasDeployed, execute-HasDeployed}
use cfdev.Commands.Protocol.{start_requires}
use cfdev.Commands.Provision.{Args}
use cfdev.Commands.Start
use cfdev.Commands.Start.{is_service_supported, choose_memory}
use cfdev.Commands.Start.Order.{achieved, execute-IsOrdered}
use cfdev.Commands.Start.Supported.{IsDeployed, is_service_supported-IsDeployed}
use cfdev.Commands.Start.Waiting.{Stopped, Exhausted, wait_for_vm_total}
use cfdev.Commands.Stop
use cfdev.Commands.Stop.Teardown.{parts, history_after, last_failure, reported, run_e-parts}

abbrev mysql : Service
mysql = record {
  name = "mysql";
  flagname = "mysql";
  script = "mysql.sh";
  deployment = "mysql";
  is_errand = false;
}

abbrev redis : Service
redis = record {
  name = "redis";
  flagname = "redis";
  script = "redis.sh";
  deployment = "redis";
  is_errand = false;
}

abbrev metadata : Metadata
metadata = record {
  version = "v3";
  message = "";
  deployment_name = "cf";
  analytics_message = "";
  default_memory = pos 8192;
  services = mysql ∷ redis ∷ [];
  versions = [];
}

abbrev helper : Item
helper = record {
  url = "https://example.com/cfdevd";
  name = "cfdevd";
  md5 = "aa";
  size = 10;
  in_use = true;
}

abbrev args : Args
args = record {
  registries = "localhost:5000";
  deploy_single_service = "mysql";
  deps_path = "";
  no_provision = false;
  cpus = pos 4;
  mem = pos 0;
}

-- Every call answers, and no virtual machine is running.
abbrev quiet : World
quiet = record {
  fails = λ h c. none;
  flag = λ h c. false;
  amount = λ h c. 16000;
  reply = λ h c. "";
  metadata = λ h c. metadata;
}

abbrev stubborn_fails : Call → Option Error
stubborn_fails vm_stop = some (plain "vm is stuck")
stubborn_fails ping = some (plain "no answer")
stubborn_fails _ = none

-- The virtual machine neither stops nor answers.
abbrev stubborn : World
stubborn = record quiet { fails = λ h c. stubborn_fails c }

execute-IsOrdered_example :
    Ordered quiet start_requires (Start.execute quiet true (helper ∷ []) args []).1
    × Post quiet achieved
        (Start.execute quiet true (helper ∷ []) args []).0
        (Start.execute quiet true (helper ∷ []) args []).1
execute-IsOrdered_example = execute-IsOrdered quiet true (helper ∷ []) args

run_e-parts_example : Stop.run_e stubborn true [] ≡ (
  reported (last_failure stubborn (parts true) (check_requirements ∷ event "stop" ∷ []) none),
  history_after (parts true) (check_requirements ∷ event "stop" ∷ []),
)
run_e-parts_example = run_e-parts stubborn true [] refl

is_service_supported-IsDeployed_example :
    All (IsDeployed "mysql,redis" (mysql ∷ redis ∷ [])) (split b',' "mysql,redis")
unfolding is_service_supported
is_service_supported-IsDeployed_example =
    is_service_supported-IsDeployed "mysql,redis" (mysql ∷ redis ∷ []) refl refl refl refl

wait_for_vm_total_example : Stopped stubborn 120 none [] ⊎ Exhausted stubborn 120 none []
wait_for_vm_total_example = wait_for_vm_total stubborn 119 []

turn_telemetry_off-IsDown_example :
    (quiet.fails (event "telemetry off" ∷ []) (set_custom_analytics false) ≡ none)
    × (quiet.fails (set_custom_analytics false ∷ event "telemetry off" ∷ []) analyticsd_is_running
        ≡ none)
    × IsDown quiet (set_custom_analytics false ∷ event "telemetry off" ∷ [])
unfolding turn_telemetry_off stop_daemon ◌>>=◌
turn_telemetry_off-IsDown_example = turn_telemetry_off-IsDown quiet [] refl

execute-HasDeployed_example :
    (quiet.fails [] read_metadata ≡ none)
    × HasDeployed quiet "mysql" [] (DeployService.execute quiet "mysql" []).1
unfolding DeployService.execute deploy_from after_ping deploy_found get_white_listed_service ◌>>=◌
execute-HasDeployed_example = execute-HasDeployed quiet "mysql" [] refl
