-- ===== src/Provision/Deploying.antt =====
-- The deployments of provision/: BOSH over SSH, Cloud Foundry and the services by their scripts.
pub mod Created
pub mod Deployed
pub mod Examples
use cfdev.Common.{
  ℕ, String, ◌<>◌, Bool, Option, none, some, List, [], ◌∷◌, ◌++◌, map, if◌then◌else◌,
}
use cfdev.Common.Decimal.{show_nat}
use cfdev.Common.Paths.{join_with, join_path}
use cfdev.Common.Text.{base_name}
use cfdev.Bosh.{envs, Director, director_config}
use cfdev.Bosh.Progress.{VmProgress, uploading_releases, deploying, running_errand}
use cfdev.Configuration.{Config}
use cfdev.Errors.{Error, safe_wrap}
use cfdev.Metadata.{Service}
use cfdev.Runtime.{Result, ok, err, ◌>>=◌, ◌>>◌, pure, raise}
use cfdev.Ssh.{SshAddress, copy_file, run_ssh_command, retrieve_file}
use cfdev.System.{
  System, Op, Run, run_logged, read_file, create, print, sleep, step, reading, ignoring, observing,
}

abbrev pub machine : SshAddress
machine = record { ip = "127.0.0.1"; port = "9992" }

abbrev pub create_env : String
create_env =
    "/bosh/bosh --tty create-env /bosh/director.yml --state state.json --vars-store creds.yml"

module _ (s : System) (c : Config) where
  module _ (key_error : String → Option String) (bytes : String → ℕ) where
    -- The loop of `DeployBosh` over the files, whose errors are dropped.
    copy_each : String → List String → Run (Unit {0})
    unfolding observing copy_file
    copy_each key [] = pure tt
    copy_each key (item ∷ items) = do
      _copied ← observing (copy_file s key_error bytes item (base_name item) machine key 20)
      copy_each key items

    -- `DeployBosh`
    pub deploy_bosh : Run (Unit {0})
    unfolding step reading ignoring copy_each run_ssh_command retrieve_file
    deploy_bosh = do
      step s (create (join_path (c.log_dir ∷ "deploy-bosh.log" ∷ [])))
      key ← reading s (read_file (join_path (c.cache_dir ∷ "id_rsa" ∷ [])))
      copy_each key (
          join_path (c.state_bosh ∷ "state.json" ∷ [])
          ∷ join_path (c.state_bosh ∷ "creds.yml" ∷ [])
          ∷ [])
      _slept ← ignoring s (sleep 7)
      run_ssh_command s key_error bytes create_env machine key 20
      retrieve_file s key_error bytes (join_path (c.state_bosh ∷ "state.json" ∷ []))
          "/root/state.json" machine key 20

  -- The command that runs a script of the services.
  pub script_command : Bool → String → List String
  script_command is_windows script =
      if is_windows
      then "powershell.exe"
        ∷ "-ExecutionPolicy"
        ∷ "Bypass"
        ∷ "-File"
        ∷ join_path (c.services_dir ∷ (script <> ".ps1") ∷ [])
        ∷ []
      else join_path (c.services_dir ∷ script ∷ []) ∷ []

  -- `strings.ToLower` of a name, and a duration as a text, are parameters.
  module _ (lower_case : String → String) (duration : List Op → String) (is_windows : Bool) where
    pub log_path : String → String
    log_path name = join_path (c.log_dir ∷ ("deploy-" <> name <> ".log") ∷ [])

    -- `DeployService`
    deploy_service : Service → Run (Unit {0})
    unfolding envs step script_command log_path
    deploy_service v = do
      vars ← envs s c
      step s (create (log_path (lower_case v.name)))
      step s (run_logged (script_command is_windows v.script) vars (log_path (lower_case v.name)))

    -- The line that a tick of `report` prints.
    progress_line : VmProgress → String → String
    progress_line (uploading_releases n) time =
        "\r\u{1b}[K  Uploaded Releases: " <> show_nat n <> " (" <> time <> ")"
    progress_line (deploying n total) time =
        "\r\u{1b}[K  Progress: " <> show_nat n <> " of " <> show_nat total <> " (" <> time <> ")"
    progress_line running_errand time = "\r\u{1b}[K  Running errand (" <> time <> ")"

    -- `report`, for a deployment that comes to a result after some ticks, with what the director
    -- says at each. Its own operations stand in the history after those of the deployment.
    report : List VmProgress → String → Result (Unit {0}) → Run (Unit {0})
    unfolding ignoring progress_line
    report [] name (err e) h = (err (safe_wrap e ("Failed to deploy " <> name)), h)
    report [] name (ok u) h = (ok tt, print ("\r\u{1b}[K  Done (" <> duration h <> ")\n") ∷ h)
    report (p ∷ ps) name r h = report ps name r (print (progress_line p (duration h)) ∷ h)

    -- What the library's factory makes of a director, and what the ticks of a deployment show, are
    -- parameters.
    module _ (connect : Director → Option Error) (ticks : List Op → List VmProgress) where
      connected : Option Error → Run (Unit {0})
      connected none = pure tt
      connected (some e) = raise (safe_wrap e "failed to connect to bosh director")

      -- `bosh.New`
      new_bosh : Run (Unit {0})
      unfolding director_config connected
      new_bosh = do d ← director_config s c; connected (connect d)

      -- The body of the loop of `DeployServices`.
      deploy_one : Service → Run (Unit {0})
      unfolding ignoring observing deploy_service report
      deploy_one v = do
        _said ← ignoring s (print ("Deploying " <> v.name <> "..."))
        result ← observing (deploy_service v)
        λ h. report (ticks h) v.name result h

      deploy_each : List Service → Run (Unit {0})
      unfolding deploy_one
      deploy_each [] = pure tt
      deploy_each (v ∷ vs) = do deploy_one v; deploy_each vs

      -- `DeployServices`
      pub deploy_services : List Service → Run (Unit {0})
      unfolding new_bosh deploy_each
      deploy_services services = do new_bosh; deploy_each services

      cf_log : String
      cf_log = join_path (c.log_dir ∷ "deploy-cf.log" ∷ [])

      -- The variable that names the docker registries.
      registries : List String → String
      registries docker_registries =
          "DOCKER_REGISTRIES=[" <> join_with "," (map s.quoted docker_registries) <> "]"

      -- `DeployCloudFoundry`
      deploy_cloud_foundry : List String → Run (Unit {0})
      unfolding envs registries step new_bosh observing report script_command cf_log
      deploy_cloud_foundry docker_registries = do
        vars ← envs s c
        step s (create cf_log)
        new_bosh
        result ← observing (
            step s (
              run_logged (script_command is_windows "deploy-cf")
                (vars ++ (registries docker_registries ∷ [])) cf_log))
        λ h. report (ticks h) "cf" result h
