-- ===== src/Commands/Start/Phases.antt =====
-- The order of the parts of `cf dev start`: assets, memory, launch and the wait for the machine.
use cfdev.Common.{
  ◌≡◌, refl, ℕ, zero, suc, String, Bool, true, Option, none, some, List, [], ◌∷◌, ◌=s◌,
}
use cfdev.Errors.{Error}
use cfdev.Resource.{Item, lookup}
use cfdev.Common.Int.{ℤ}
use cfdev.Metadata.{Metadata}
use cfdev.Runtime.{
  Call, Message, say, event, prompt_opt_in, absolute_path, stat_is_missing, available_memory,
  vm_start, vm_create, vpnkit_start, vpnkit_watch, add_aliases, cfdevd_install, create_dirs,
  setup_state, cache_sync, read_metadata, ping, sleep, World, Result,
}
use cfdev.Runtime.Protocol.{
  Kind, covers, dirs_created, aliases_added, assets_synced, state_set, metadata_read, memory_read,
  vm_created, vpnkit_started, vm_started, vm_pinged,
}
use cfdev.Runtime.Keeps.{
  after_attempt, Keeps-attempt, Keeps-ask, Keeps-peek, Keeps-pure, Keeps-return, Keeps-raise,
  Keeps-wrapping, Keeps-after,
}
use cfdev.Runtime.Steps.{chain, called, shown, branch}
use cfdev.Commands.Protocol.{torn_down, start_requires, InOrder}
use cfdev.Commands.Provision.{Args, compatibility_version}
use cfdev.Commands.Start.{
  warn, allocate_memory, wait_for_vm, choose_deps, after_ping, fetch_item, fetch_helper,
  os_specific_setup, set_up, select_services, read_assets, launch, is_service_supported,
}

-- What has succeeded where the assets are unpacked, where they are read, and where the virtual
-- machine answers.
abbrev assets_ready : List Kind
assets_ready = state_set ∷ assets_synced ∷ aliases_added ∷ dirs_created ∷ torn_down

abbrev assets_read : List Kind
assets_read = metadata_read ∷ assets_ready

abbrev pub vm_ready : List Kind
vm_ready = vm_pinged ∷ vm_started ∷ vpnkit_started ∷ vm_created ∷ memory_read ∷ assets_read

module _ (w : World) where
  pub choose_deps-InOrder :
      (args : Args) (deps : List Item) → InOrder w [] (choose_deps w args deps) (λ _. [])
  unfolding choose_deps covers
  choose_deps-InOrder args deps =
      branch (args.deps_path =s "") (Keeps-return w start_requires _ (λ _. [])) (
        chain
          (Keeps-wrapping w start_requires _ _ _ _
            (Keeps-ask w start_requires [] (absolute_path args.deps_path) refl w.reply))
          λ path.
            chain (Keeps-peek w start_requires _ (stat_is_missing path) refl w.flag) λ missing.
              branch missing (Keeps-raise w start_requires _ _ (λ _. []))
                (Keeps-pure w start_requires _ _ (λ _. []) refl))

  warn-InOrder : (ks : List Kind) (ms : List Message) → InOrder w ks (warn w ms) (λ _. ks)
  unfolding warn covers
  warn-InOrder ks [] = Keeps-return w start_requires tt (λ _. ks)
  warn-InOrder ks (m ∷ ms) = chain (shown (say m) refl) λ _. warn-InOrder ks ms

  -- One more attempt may be made as long as one is left; an error was seen before the last.
  module _ (ks : List Kind) (up : covers (vm_started ∷ []) ks ≡ true) where
    after_ping-InOrder :
        (again : Option Error → List Call → Result (Unit {0}) × List Call) (failed : Option Error)
        → ((e : Error) → InOrder w ks (again (some e)) (λ _. vm_pinged ∷ ks))
        → InOrder w
            (after_attempt w start_requires vm_pinged ks failed)
            (after_ping w again failed)
            (λ _. vm_pinged ∷ ks)
    unfolding after_ping covers
    after_ping-InOrder again none ih = Keeps-return w start_requires tt (λ _. vm_pinged ∷ ks)
    after_ping-InOrder again (some e) ih = chain (shown sleep refl) λ _. ih e

    wait-InOrder :
        (n : ℕ) (e : Error) → InOrder w ks (wait_for_vm w n (some e)) (λ _. vm_pinged ∷ ks)
    unfolding wait_for_vm
    wait-InOrder zero e = Keeps-raise w start_requires ks e (λ _. vm_pinged ∷ ks)
    wait-InOrder (suc n) e =
        chain (Keeps-attempt w start_requires ks ping up)
          λ failed. after_ping-InOrder (wait_for_vm w n) failed (wait-InOrder n)

    wait_for_vm-InOrder :
        (n : ℕ) (last : Option Error)
        → InOrder w ks (wait_for_vm w (suc n) last) (λ _. vm_pinged ∷ ks)
    unfolding wait_for_vm
    wait_for_vm-InOrder n last =
        chain (Keeps-attempt w start_requires ks ping up)
          λ failed. after_ping-InOrder (wait_for_vm w n) failed (wait-InOrder n)

  fetch_item-InOrder :
      (deps : List Item) (found : Option Item)
      → InOrder w
          (dirs_created ∷ torn_down)
          (fetch_item w deps found)
          (λ _. dirs_created ∷ torn_down)
  unfolding fetch_item covers
  fetch_item-InOrder deps none = Keeps-return w start_requires deps (λ _. dirs_created ∷ torn_down)
  fetch_item-InOrder deps (some item) = chain (shown (say _) refl) λ _.
      chain (called _ (cache_sync (item ∷ [])) refl)
        λ _. Keeps-pure w start_requires _ _ (λ _. dirs_created ∷ torn_down) refl

  os_specific_setup-InOrder :
      (darwin : Bool)
      → InOrder w
          (dirs_created ∷ torn_down)
          (os_specific_setup w darwin)
          (λ _. dirs_created ∷ torn_down)
  unfolding os_specific_setup covers
  os_specific_setup-InOrder darwin =
      branch darwin
        (chain (shown (say _) refl)
          λ _. Keeps-after w start_requires _ _ _ _ (λ _. refl) (called _ cfdevd_install refl))
        (Keeps-return w start_requires tt (λ _. dirs_created ∷ torn_down))

  pub set_up-InOrder :
      (darwin : Bool) (deps : List Item)
      → InOrder w torn_down (set_up w darwin deps) (λ _. assets_ready)
  unfolding set_up fetch_helper covers
  set_up-InOrder darwin deps = chain (called _ create_dirs refl) λ _.
      chain (fetch_item-InOrder deps (lookup "cfdevd" deps)) λ rest.
        chain (os_specific_setup-InOrder darwin) λ _. chain (called _ add_aliases refl) λ _.
          chain (shown (say _) refl) λ _.
            chain (called _ (cache_sync rest) refl)
              λ _. chain (shown (say _) refl) λ _. called _ setup_state refl

  select_services-InOrder :
      (ks : List Kind) (args : Args) (metadata : Metadata)
      → InOrder w ks (select_services w args metadata) (λ _. ks)
  unfolding select_services covers
  select_services-InOrder ks args metadata =
      branch (args.deploy_single_service =s "") (Keeps-return w start_requires tt (λ _. ks)) (
        branch (is_service_supported args.deploy_single_service metadata.services)
          (shown (event _) refl) (Keeps-raise w start_requires ks _ (λ _. ks)))

  pub read_assets-InOrder :
      (args : Args) (name : String)
      → InOrder w assets_ready (read_assets w args name) (λ _. assets_read)
  unfolding read_assets covers
  read_assets-InOrder args name =
      chain
        (Keeps-wrapping w start_requires _ _ _ _
          (Keeps-ask w start_requires assets_ready read_metadata refl w.metadata))
        λ metadata.
          branch (metadata.version =s compatibility_version)
            (chain (shown (prompt_opt_in _) refl) λ _. chain (shown (event _) refl) λ _.
              chain (select_services-InOrder assets_read args metadata)
                λ _. Keeps-return w start_requires metadata (λ _. assets_read))
            (Keeps-raise w start_requires assets_read _ (λ _. assets_read))

  allocate_memory-InOrder :
      (ks : List Kind) (metadata : Metadata) (asked : ℤ)
      → InOrder w ks (allocate_memory w metadata asked) (λ _. memory_read ∷ ks)
  unfolding allocate_memory covers
  allocate_memory-InOrder ks metadata asked =
      chain
        (Keeps-wrapping w start_requires _ _ _ _
          (Keeps-ask w start_requires ks available_memory refl w.amount))
        λ available.
          chain (warn-InOrder (memory_read ∷ ks) _)
            λ _. Keeps-return w start_requires _ (λ _. memory_read ∷ ks)

  pub launch-InOrder :
      (args : Args) (metadata : Metadata)
      → InOrder w assets_read (launch w args metadata) (λ _. vm_ready)
  unfolding launch covers
  launch-InOrder args metadata =
      chain (allocate_memory-InOrder assets_read metadata args.mem) λ memory.
        chain (shown (say _) refl) λ _. chain (called _ (vm_create args.cpus memory) refl) λ _.
          chain (shown (say _) refl) λ _. chain (called _ vpnkit_start refl) λ _.
            chain (shown vpnkit_watch refl) λ _. chain (shown (say _) refl) λ _.
              chain (called _ vm_start refl) λ _.
                chain (shown (say _) refl)
                  λ _. Keeps-wrapping w start_requires _ _ _ _ (wait_for_vm-InOrder _ refl 119 none)
