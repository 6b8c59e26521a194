-- ===== src/Provision/Deploying/Examples.antt =====
-- The theorems on the deployments at a host where no command fails.
use cfdev.Common.{refl, All, true, false, Option, none, List, [], ◌∷◌}
use cfdev.Bosh.{Director}
use cfdev.Bosh.Progress.{VmProgress, running_errand}
use cfdev.Errors.{Error}
use cfdev.Configuration.Sample.{config}
use cfdev.Metadata.{Service}
use cfdev.Runtime.{◌>>=◌}
use cfdev.System.Sample.{host_with}
use cfdev.System.{System, Op}
use cfdev.Ssh.{run_ssh_command, retrieve_file, new_session, wait_for_ssh, dial_from}
use cfdev.Provision.Deploying.{
  deploy_bosh, copy_each, deploy_services, deploy_each, deploy_one, deploy_service, new_bosh,
  connected, report,
}
use cfdev.Provision.Deploying.Created.{StateFetched, deploy_bosh-StateFetched}
use cfdev.Provision.Deploying.Deployed.{ScriptRan, deploy_services-Ran}

abbrev host : System
host = host_with (λ h o. none) (λ h o. "secret")

abbrev mysql : Service
mysql = record {
  name = "Mysql";
  flagname = "mysql";
  script = "deploy-mysql";
  deployment = "cf-mysql";
  is_errand = false;
}

abbrev rabbitmq : Service
rabbitmq = record {
  name = "RabbitMQ";
  flagname = "rabbitmq";
  script = "deploy-rabbitmq";
  deployment = "rabbitmq";
  is_errand = true;
}

abbrev services : List Service
services = mysql ∷ rabbitmq ∷ []

abbrev factory : Director → Option Error
factory d = none

-- A tick at each deployment.
abbrev ticks : List Op → List VmProgress
ticks h = running_errand ∷ []

deploy_services-Ran_example :
    All
      (λ v.
        ScriptRan host config
          (λ t. t)
          (λ h. "3s")
          false
          v
          (deploy_services host config (λ t. t) (λ h. "3s") false factory ticks services []).1)
      services
unfolding ◌>>=◌ deploy_services deploy_each deploy_one deploy_service new_bosh connected report
deploy_services-Ran_example =
    deploy_services-Ran host config (λ t. t) (λ h. "3s") false factory ticks services [] refl

deploy_bosh-StateFetched_example :
    StateFetched host (deploy_bosh host config (λ t. none) (λ t. 0) []).1
unfolding deploy_bosh copy_each run_ssh_command retrieve_file new_session wait_for_ssh dial_from
    ◌>>=◌
deploy_bosh-StateFetched_example = deploy_bosh-StateFetched host (λ t. none) (λ t. 0) config [] refl
