-- ===== src/Provision/Deploying/Created.antt =====
-- What DeployBosh of provision/bosh.go has done when it returns no error.
use cfdev.Common.{
  ◌≡◌, refl, inl, inr, ℕ, zero, suc, String, Option, none, List, [], ◌∷◌, Bool-cases, Option-cases,
}
use cfdev.Common.Paths.{join_path}
use cfdev.Configuration.{Config}
use cfdev.Runtime.{ok}
use cfdev.Ssh.{SshAddress, dial_from, wait_for_ssh, new_session, run_ssh_command, retrieve_file}
use cfdev.System.{
  System, Op, read_file, create, ssh_dial, ssh_session, ssh_run, sleep, step, reading, ignoring,
  result-none,
}
use cfdev.System.Preserves.{Preserves, Preserves-raise, Preserves-bind, Preserves-step}
use cfdev.System.Leads.{Happened, Leads, Leads-then, Follows, Follows-kept, Leads-Follows}
use cfdev.Provision.Deploying.{machine, create_env, copy_each, deploy_bosh}

-- `bosh create-env` has succeeded on the machine.
abbrev pub EnvCreated : System → List Op → Type 0
EnvCreated s = Happened (λ h o. (o ≡ ssh_run create_env "") × (s.fault h o ≡ none))

-- The state of the director was fetched from the machine after that.
abbrev pub StateFetched : System → List Op → Type 0
StateFetched s =
    Happened
      (λ h o. (o ≡ ssh_run "cat /root/state.json" "") × (s.fault h o ≡ none) × EnvCreated s h)

module _ (s : System) (key_error : String → Option String) (bytes : String → ℕ) where
  abbrev P : List Op → Type 0
  P = EnvCreated s

  Preserves-dial_from :
      (left : ℕ) (failure address : String)
      → Preserves P (dial_from s key_error bytes left failure address)
  unfolding dial_from
  Preserves-dial_from zero failure address h q = q
  Preserves-dial_from (suc left) failure address h q = elim (Bool-cases (s.fired h)) [
    | inl f ↦ rw (f, dial_from) q
    | inr f ↦ elim (Option-cases (s.fault h (ssh_dial address))) [
      | inl e ↦ rw (f, e, dial_from) (inr q)
      | inr (x, e) ↦
          rw (f, e, dial_from)
            (Preserves-dial_from left _ address (sleep 1 ∷ ssh_dial address ∷ h) (inr (inr q)))
    ]
  ]

  Preserves-wait_for_ssh :
      (a : SshAddress) (key : String) (timeout : ℕ)
      → Preserves P (wait_for_ssh s key_error bytes a key timeout)
  unfolding wait_for_ssh
  Preserves-wait_for_ssh a key timeout h q = elim (Option-cases (key_error key)) [
    | inl e ↦ rw (e, wait_for_ssh) (Preserves-dial_from timeout _ _ h q)
    | inr (x, e) ↦ rw (e, wait_for_ssh) (Preserves-raise P (Unit {0}) _ h q)
  ]

  Preserves-new_session :
      (a : SshAddress) (key : String) (timeout : ℕ)
      → Preserves P (new_session s key_error bytes a key timeout)
  unfolding new_session
  Preserves-new_session a key timeout =
      Preserves-bind P (wait_for_ssh s key_error bytes a key timeout) _
        (Preserves-wait_for_ssh a key timeout) (λ u. Preserves-step P s ssh_session (λ h q. inr q))

  Leads-run_ssh_command :
      (key : String) → Leads P (run_ssh_command s key_error bytes create_env machine key 20)
  unfolding run_ssh_command step
  Leads-run_ssh_command key =
      Leads-then P (new_session s key_error bytes machine key 20) _
        (λ u h x e. inl (refl, result-none _ _ e))

  Follows-retrieve_file :
      (path key : String)
      → Follows P
          (StateFetched s)
          (retrieve_file s key_error bytes path "/root/state.json" machine key 20)
  unfolding retrieve_file step
  Follows-retrieve_file path key =
      Follows-kept P (StateFetched s) (new_session s key_error bytes machine key 20) _
        (Preserves-new_session machine key 20)
        (λ u.
          Follows-kept P (StateFetched s) (step s (create path)) _
            (Preserves-step P s (create path) (λ h q. inr q))
            (λ v h x p e. inl (refl, result-none _ _ e, p)))

  -- If DeployBosh returns no error, `bosh create-env` has succeeded on the machine, and the state of
  -- the director was fetched after that.
  pub deploy_bosh-StateFetched :
      (c : Config) (h : List Op)
      → (deploy_bosh s c key_error bytes h).0 ≡ ok tt
      → StateFetched s (deploy_bosh s c key_error bytes h).1
  unfolding deploy_bosh
  deploy_bosh-StateFetched c h e =
      Leads-then (StateFetched s) (step s (create _)) _
        (λ u. Leads-then (StateFetched s) (reading s (read_file _)) _ (λ key.
          Leads-then (StateFetched s)
            (copy_each s c key_error bytes key (
              join_path (c.state_bosh ∷ "state.json" ∷ [])
              ∷ join_path (c.state_bosh ∷ "creds.yml" ∷ [])
              ∷ []))
            _
            (λ v. Leads-then (StateFetched s) (ignoring s (sleep 7)) _ (λ t.
              Leads-Follows P (StateFetched s)
                (run_ssh_command s key_error bytes create_env machine key 20) _
                (Leads-run_ssh_command key) (λ w. Follows-retrieve_file _ key)))))
        h tt e
