-- ===== src/Provision/Deploying/Deployed.antt =====
-- What DeployServices of provision/services.go has done when it returns no error.
use cfdev.Common.{◌≡◌, ◌⊎◌, refl, inl, inr, String, Bool, Option, none, List, [], ◌∷◌, All}
use cfdev.Bosh.{fetch_config, envs, Director}
use cfdev.Bosh.Progress.{VmProgress}
use cfdev.Configuration.{Config}
use cfdev.Errors.{Error}
use cfdev.Metadata.{Service}
use cfdev.Runtime.{Result, ok, err}
use cfdev.System.{
  System, Op, run_logged, read_file, create, print, step, reading, ignoring, observing, result-none,
}
use cfdev.System.Preserves.{Preserves, Preserves-pure, Preserves-bind, Preserves-step}
use cfdev.System.Leads.{
  Happened, Leads, Leads-first, Leads-then, Leads-either, Preserves-ignoring, Preserves-observing,
}
use cfdev.Provision.Deploying.{
  script_command, log_path, deploy_service, report, new_bosh, deploy_one, deploy_each,
  deploy_services,
}

module _ (s : System) (c : Config) (lower_case : String → String) (duration : List Op → String)
    (is_windows : Bool) where
  -- The script of a service was run, with its output in the log of the service, and succeeded.
  abbrev pub ScriptRan : Service → List Op → Type 0
  ScriptRan v = Happened (λ h o.
      ((vars : List String) × (o
          ≡ run_logged (script_command s c is_windows v.script) vars
              (log_path s c lower_case duration is_windows (lower_case v.name))))
      × (s.fault h o ≡ none))

  module _ (v : Service) where
    abbrev P : List Op → Type 0
    P = ScriptRan v

    kept : (o : Op) (h : List Op) → P h → P (o ∷ h)
    kept o h q = inr q

    Preserves-reading : (path : String) → Preserves P (reading s (read_file path))
    unfolding reading
    Preserves-reading path h q = inr q

    Preserves-envs : Preserves P (envs s c)
    unfolding envs fetch_config
    Preserves-envs =
        Preserves-bind P (observing (fetch_config s c)) _
          (Preserves-observing P (fetch_config s c) (
            Preserves-bind P (reading s (read_file _)) _ (Preserves-reading _)
              (λ t. Preserves-pure P _)))
          (λ b. Preserves-pure P _)

    Preserves-deploy_service :
        (w : Service) → Preserves P (deploy_service s c lower_case duration is_windows w)
    unfolding deploy_service
    Preserves-deploy_service w = Preserves-bind P (envs s c) _ Preserves-envs (λ vars.
        Preserves-bind P (step s (create _)) _ (Preserves-step P s (create _) (kept (create _)))
          (λ u. Preserves-step P s (run_logged _ vars _) (kept (run_logged _ vars _))))

    Leads-deploy_service : Leads P (deploy_service s c lower_case duration is_windows v)
    unfolding deploy_service step
    Leads-deploy_service = Leads-then P (envs s c) _ (λ vars.
        Leads-then P (step s (create _)) _ (λ u h x e. inl ((vars, refl), result-none _ _ e)))

    Preserves-report :
        (ps : List VmProgress) (name : String) (r : Result (Unit {0}))
        → Preserves P (report s c lower_case duration is_windows ps name r)
    unfolding report
    Preserves-report [] name (err e) h q = q
    Preserves-report [] name (ok u) h q = inr q
    Preserves-report (p ∷ ps) name r h q = Preserves-report ps name r _ (inr q)

    Leads-report_err :
        (ps : List VmProgress) (name : String) (x : Error)
        → Leads P (report s c lower_case duration is_windows ps name (err x))
    unfolding report
    Leads-report_err [] name x h u e = cc
    Leads-report_err (p ∷ ps) name x h u e = Leads-report_err ps name x _ u e

    module _ (connect : Director → Option Error) (ticks : List Op → List VmProgress) where
      Preserves-deploy_one :
          (w : Service)
          → Preserves P (deploy_one s c lower_case duration is_windows connect ticks w)
      unfolding deploy_one
      Preserves-deploy_one w =
          Preserves-bind P (ignoring s (print _)) _
            (Preserves-ignoring P s (print _) (kept (print _)))
            (λ t.
              Preserves-bind P (observing (deploy_service s c lower_case duration is_windows w)) _
                (Preserves-observing P (deploy_service s c lower_case duration is_windows w)
                  (Preserves-deploy_service w))
                (λ r h q. Preserves-report (ticks h) w.name r h q))

      Preserves-deploy_each :
          (ws : List Service)
          → Preserves P (deploy_each s c lower_case duration is_windows connect ticks ws)
      unfolding deploy_each
      Preserves-deploy_each [] = Preserves-pure P tt
      Preserves-deploy_each (w ∷ ws) =
          Preserves-bind P (deploy_one s c lower_case duration is_windows connect ticks w) _
            (Preserves-deploy_one w) (λ u. Preserves-deploy_each ws)

      reported :
          (r : Result (Unit {0}))
          → (((h : List Op)
                → (observing (deploy_service s c lower_case duration is_windows v) h).0 ≡ ok r
                → P (observing (deploy_service s c lower_case duration is_windows v) h).1)
              × Preserves P (λ h. report s c lower_case duration is_windows (ticks h) v.name r h))
            ⊎ Leads P (λ h. report s c lower_case duration is_windows (ticks h) v.name r h)
      unfolding observing
      reported (ok u) =
          inl (
            λ h e. Leads-deploy_service h u cc,
            λ h q. Preserves-report (ticks h) v.name (ok u) h q,
          )
      reported (err x) = inr (λ h u e. Leads-report_err (ticks h) v.name x h u e)

      Leads-deploy_one : Leads P (deploy_one s c lower_case duration is_windows connect ticks v)
      unfolding deploy_one
      Leads-deploy_one = Leads-then P (ignoring s (print _)) _ (λ t.
          Leads-either P (observing (deploy_service s c lower_case duration is_windows v)) _
            reported)

  module _ (connect : Director → Option Error) (ticks : List Op → List VmProgress) where
    AllRan : List Service → List Op → Type 0
    AllRan vs h = All (λ v. ScriptRan v h) vs

    deploy_each-AllRan :
        (vs : List Service)
        → Leads (AllRan vs) (deploy_each s c lower_case duration is_windows connect ticks vs)
    unfolding AllRan deploy_each
    deploy_each-AllRan [] h u e = tt
    deploy_each-AllRan (v ∷ vs) h u e =
        let one = deploy_one s c lower_case duration is_windows connect ticks v in
        (
          Leads-first (ScriptRan v) one _ (Leads-deploy_one v connect ticks)
              (λ u. Preserves-deploy_each v connect ticks vs) h u e,
          Leads-then (AllRan vs) one _ (λ u. deploy_each-AllRan vs) h u e,
        )

    -- If DeployServices returns no error, the script of each of the services was run, with its output
    -- in the log of the service, and has succeeded.
    pub deploy_services-Ran :
        (vs : List Service) (h : List Op)
        → (deploy_services s c lower_case duration is_windows connect ticks vs h).0 ≡ ok tt
        → All
            (λ v.
              ScriptRan v (deploy_services s c lower_case duration is_windows connect ticks vs h).1)
            vs
    unfolding deploy_services AllRan
    deploy_services-Ran vs h e =
        Leads-then (AllRan vs) (new_bosh s c lower_case duration is_windows connect ticks) _
          (λ u. deploy_each-AllRan vs) h tt e
