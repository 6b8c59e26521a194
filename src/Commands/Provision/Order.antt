-- ===== src/Commands/Provision/Order.antt =====
-- `cf dev provision` within the protocol of a start.
use cfdev.Common.{refl, String, ◌<>◌, List, [], ◌∷◌, ◌=s◌}
use cfdev.Common.Text.{split}
use cfdev.Metadata.{Metadata}
use cfdev.Runtime.{
  Call, say, read_metadata, parse_url, ping, deploy_bosh, deploy_cf, deploy_services, print_message,
  World, Result, ok, err, ◌>>=◌,
}
use cfdev.Runtime.Protocol.{
  Kind, covers, state_set, vm_started, vm_pinged, bosh_deployed, cf_deployed, services_deployed,
}
use cfdev.Runtime.Keeps.{
  Done, Post, Done-cons, Keeps-ask, Keeps-return, Keeps-raise, Keeps-weaken, Keeps-wrapping,
  Keeps-after,
}
use cfdev.Runtime.Steps.{chain, called, shown, branch}
use cfdev.Commands.Protocol.{start_requires, InOrder}
use cfdev.Commands.Provision.{
  Args, about_value, compatibility_version, parse_registry, parse_registries,
  parse_docker_registries_flag, print_splash, provision, with_metadata, execute,
}

-- What has succeeded before a start provisions, and after it has.
abbrev pub before_provision : List Kind
before_provision = vm_started ∷ state_set ∷ []

abbrev pub deployed : List Kind
deployed = services_deployed ∷ cf_deployed ∷ bosh_deployed ∷ vm_pinged ∷ before_provision

module _ (w : World) where
  print_splash-InOrder :
      (message : String) → InOrder w deployed (print_splash w message) (λ _. deployed)
  unfolding print_splash covers
  print_splash-InOrder message =
      branch (message =s "") (Keeps-return w start_requires tt (λ _. deployed))
        (Keeps-after w start_requires _ _ _ _ (λ _. refl) (called _ (print_message message) refl))

  provision-InOrder :
      (metadata : Metadata) (registries : List String) (service : String)
      → InOrder w before_provision (provision w metadata registries service) (λ _. deployed)
  unfolding provision covers
  provision-InOrder metadata registries service = chain (called _ ping refl) λ _.
      chain (shown (say _) refl) λ _. chain (called _ deploy_bosh refl) λ _.
        chain (shown (say _) refl) λ _.
          chain (called _ (deploy_cf registries) refl) λ _.
            chain (called _ (deploy_services _) refl) λ _. print_splash-InOrder metadata.message

  about_value-Post :
      (ks : List Kind) (value : String) (h : List Call) (r : Result String)
      → Done w ks h
      → Post w (λ _. ks) (about_value value r) h
  about_value-Post ks value h (ok host) d = d
  about_value-Post ks value h (err e) d = tt

  -- The URLs are parsed with no effect on the order.
  parse_registry-InOrder :
      (ks : List Kind) (value : String) → InOrder w ks (parse_registry w value) (λ _. ks)
  unfolding parse_registry covers ◌>>=◌
  parse_registry-InOrder ks value = record {
    at = λ h d o.
        ((tt, o), about_value-Post ks value _ _ (Done-cons w ks (parse_url ("//" <> value)) h d));
  }

  parse_registries-InOrder :
      (ks : List Kind) (values : List String) → InOrder w ks (parse_registries w values) (λ _. ks)
  unfolding parse_registries
  parse_registries-InOrder ks [] = Keeps-return w start_requires [] (λ _. ks)
  parse_registries-InOrder ks (value ∷ values) = chain (parse_registry-InOrder ks value) λ host.
      chain (parse_registries-InOrder ks values)
        λ hosts. Keeps-return w start_requires (host ∷ hosts) (λ _. ks)

  flag-InOrder :
      (ks : List Kind) (flag : String)
      → InOrder w ks (parse_docker_registries_flag w flag) (λ _. ks)
  unfolding parse_docker_registries_flag
  flag-InOrder ks flag =
      branch (flag =s "") (Keeps-return w start_requires [] (λ _. ks))
        (parse_registries-InOrder ks (split b',' flag))

  with_metadata-InOrder :
      (args : Args) (metadata : Metadata)
      → InOrder w before_provision (with_metadata w args metadata) (λ _. deployed)
  unfolding with_metadata
  with_metadata-InOrder args metadata =
      branch (metadata.version =s compatibility_version)
        (chain
          (Keeps-wrapping w start_requires _ _ _ _ (flag-InOrder before_provision args.registries))
          λ registries. provision-InOrder metadata registries args.deploy_single_service)
        (Keeps-raise w start_requires before_provision _ (λ _. deployed))

  -- In a start, a provisioning that returns no error has deployed everything, in order.
  pub execute-InOrder : (args : Args) → InOrder w before_provision (execute w args) (λ _. deployed)
  unfolding execute covers
  execute-InOrder args =
      chain
        (Keeps-wrapping w start_requires _ _ _ _
          (Keeps-ask w start_requires before_provision read_metadata refl w.metadata))
        λ metadata.
          Keeps-weaken w start_requires before_provision _ _ _ refl
            (with_metadata-InOrder args metadata)
