-- ===== src/Commands/Start.antt =====
-- cmd/start/start.go: brings the virtual machine up. `allocate_memory` and the check of the requested
-- services come first, then `Execute` in the parts that its early returns cut it into.
pub mod Memory
pub mod Supported
pub mod Waiting
pub mod Phases
pub mod Order
use cfdev.Common.{
  ℕ, zero, suc, String, ◌<>◌, Bool, true, false, not, ◌&&◌, ◌||◌, Option, none, some, List, [], ◌∷◌,
  ◌=s◌, leb, if◌then◌else◌,
}
use cfdev.Common.Int.{ℤ, pos, is_positive, less, to_uint64}
use cfdev.Common.Text.{codes, lower, same, split, base_name}
use cfdev.Errors.{Error, plain, safe_nil, safe_wrap}
use cfdev.Resource.{Item, lookup, remove}
use cfdev.Metadata.{Service, Metadata}
use cfdev.Runtime.{
  Call, Message, text, vm_memory_recommended, vm_memory_required, say, event, set_prop,
  toggle_enabled, prompt_opt_in, absolute_path, stat_is_missing, available_memory, total_memory,
  check_requirements, vm_is_running, vm_start, vm_stop, vm_create, vpnkit_start, vpnkit_watch,
  vpnkit_stop, analyticsd_start, add_aliases, cfdevd_install, create_dirs, setup_state, cache_sync,
  read_metadata, ping, sleep, exit, World, Exec, ◌>>=◌, ◌>>◌, pure, raise, wrapping, call, ignoring,
  attempt, ask, peek,
}
use cfdev.Commands.Stop
use cfdev.Commands.Provision
use cfdev.Commands.Provision.{Args, compatibility_version}

abbrev pub default_memory : ℤ
default_memory = pos 4192

-- `baseMem` of `allocateMemory`.
abbrev pub base_memory : Metadata → ℤ
base_memory metadata =
    if is_positive metadata.default_memory then metadata.default_memory else default_memory

abbrev pub not_enough : Message
not_enough =
    text "WARNING: This machine may not have enough available RAM to run with what is specified."

-- `allocateMemory` with the memory that the profiler has reported: the warnings, and the memory.
pub choose_memory : Metadata → ℤ → ℕ → List Message × ℤ
choose_memory metadata asked available =
    let base = base_memory metadata in
    if is_positive asked
    then (if less asked base
        then (if leb (to_uint64 asked) available
            then (vm_memory_recommended metadata.deployment_name base ∷ [], asked)
            else (vm_memory_recommended metadata.deployment_name base ∷ not_enough ∷ [], asked))
        else (if leb (to_uint64 asked) available then ([], asked) else (not_enough ∷ [], asked)))
    else (if leb (to_uint64 base) available
        then ([], base)
        else (vm_memory_required metadata.deployment_name base ∷ [], base))

-- `contains` of start.go: by the flag name.
has_flag : List Service → String → Bool
has_flag [] service = false
has_flag (s ∷ services) service =
    same (lower (codes s.flagname)) (lower (codes service)) || has_flag services service

all_supported : List String → List Service → Bool
all_supported [] services = true
all_supported (name ∷ names) services = has_flag services name && all_supported names services

-- `isServiceSupported`
unfoldable pub is_service_supported : String → List Service → Bool
unfolding has_flag all_supported
is_service_supported service services =
    let asked = lower (codes service) in
    same asked (codes "all")
    || same asked (codes "none")
    || all_supported (split b',' service) services

-- Which `return nil` was taken.
pub data Outcome : Type 0 where
  already_running not_provisioned provisioned : Outcome

module _ (w : World) where
  warn : List Message → Exec (Unit {0})
  warn [] = pure tt
  warn (m ∷ ms) = do ignoring w (say m); warn ms

  pub allocate_memory : Metadata → ℤ → Exec ℤ
  unfolding warn choose_memory
  allocate_memory metadata asked = do
    available ←
        wrapping "error retrieving available system memory" (ask w w.amount available_memory)
    let choice = choose_memory metadata asked available
    warn choice.0
    pure choice.1

  -- After one attempt: done, or a second's wait and the rest of the loop.
  after_ping : (Option Error → Exec (Unit {0})) → Option Error → Exec (Unit {0})
  after_ping again none = pure tt
  after_ping again (some e) = do ignoring w sleep; again (some e)

  -- `waitForVM` with the attempts left and the last error.
  pub wait_for_vm : ℕ → Option Error → Exec (Unit {0})
  unfolding after_ping
  wait_for_vm zero none = pure tt
  wait_for_vm zero (some e) = raise e
  wait_for_vm (suc n) last = do failed ← attempt w ping; after_ping (wait_for_vm n) failed

  -- The catalog and the name of the assets: the default ones, or a file that the user gives.
  pub choose_deps : Args → List Item → Exec (String × List Item)
  choose_deps args deps = if args.deps_path =s "" then pure ("cf", deps) else (do
    path ←
        wrapping "determining absolute path to deps iso"
          (ask w w.reply (absolute_path args.deps_path))
    missing ← peek w w.flag (stat_is_missing path)
    if missing
        then raise (plain ("no file found at: " <> path))
        else pure (base_name args.deps_path, remove "cfdev-deps.tgz" deps))

  -- The network helper is fetched before the other assets, and is not fetched again.
  fetch_item : List Item → Option Item → Exec (List Item)
  fetch_item deps none = pure deps
  fetch_item deps (some item) = do
    ignoring w (say (text "Downloading Network Helper..."))
    wrapping "Unable to download network helper" (call w (cache_sync (item ∷ [])))
    pure (remove "cfdevd" deps)

  pub fetch_helper : List Item → Exec (List Item)
  unfolding fetch_item
  fetch_helper deps = fetch_item deps (lookup "cfdevd" deps)

  -- `osSpecificSetup` of start_darwin.go and start_windows.go.
  pub os_specific_setup : Bool → Exec (Unit {0})
  os_specific_setup darwin =
      if darwin
      then (do
        ignoring w (say (text "Installing cfdevd network helper..."))
        wrapping "installing cfdevd" (call w cfdevd_install))
      else pure tt

  -- From the end of the teardown to the assets unpacked.
  pub set_up : Bool → List Item → Exec (Unit {0})
  unfolding fetch_helper os_specific_setup
  set_up darwin deps = do
    wrapping "setting up cfdev home dir" (call w create_dirs)
    rest ← fetch_helper deps
    os_specific_setup darwin
    wrapping "adding aliases" (call w add_aliases)
    ignoring w (say (text "Downloading Resources..."))
    wrapping "Unable to sync assets" (call w (cache_sync rest))
    ignoring w (say (text "Setting State..."))
    wrapping "Unable to setup directories" (call w setup_state)

  incompatible : String → String
  incompatible name = name <> " is not compatible with CF Dev. Please use a compatible file"

  pub select_services : Args → Metadata → Exec (Unit {0})
  select_services args metadata =
      if args.deploy_single_service =s ""
      then pure tt
      else if is_service_supported args.deploy_single_service metadata.services
      then ignoring w (event "selected_service")
      else raise (safe_nil ("Service: '" <> args.deploy_single_service <> "' is not supported"))

  -- The metadata of the unpacked assets, and what is asked and reported from it.
  pub read_assets : Args → String → Exec Metadata
  unfolding incompatible select_services
  read_assets args name = do
    metadata ← wrapping (incompatible name <> ".") (ask w w.metadata read_metadata)
    if metadata.version =s compatibility_version
        then (do
          ignoring w (prompt_opt_in metadata.analytics_message)
          ignoring w (event "start_begin")
          select_services args metadata
          pure metadata)
        else raise (plain (incompatible name))

  -- From the memory to the virtual machine that answers.
  pub launch : Args → Metadata → Exec (Unit {0})
  launch args metadata = do
    memory ← allocate_memory metadata args.mem
    ignoring w (say (text "Creating the VM..."))
    wrapping "creating the vm" (call w (vm_create args.cpus memory))
    ignoring w (say (text "Starting VPNKit..."))
    wrapping "starting vpnkit" (call w vpnkit_start)
    ignoring w vpnkit_watch
    ignoring w (say (text "Starting the VM..."))
    wrapping "starting the vm" (call w vm_start)
    ignoring w (say (text "Waiting for the VM..."))
    wrapping "Timed out waiting for the VM" (wait_for_vm 120 none)

  report_telemetry : Bool → Exec (Unit {0})
  report_telemetry enabled = if enabled then ignoring w analyticsd_start else pure tt

  pub provision_vm : Args → Exec Outcome
  unfolding report_telemetry
  provision_vm args =
      if args.no_provision
      then (do
        ignoring w (
            say (text "VM will not be provisioned because '-n' (no-provision) flag was specified."))
        pure not_provisioned)
      else (do
        Provision.execute w args
        enabled ← peek w w.flag toggle_enabled
        report_telemetry enabled
        ignoring w (event "start_end")
        pure provisioned)

  -- The part of `Execute` that runs where no virtual machine is running.
  pub bring_up : Bool → Args → String → List Item → Exec Outcome
  bring_up darwin args name deps = do
    wrapping "stopping cfdev" (Stop.run_e w darwin)
    set_up darwin deps
    metadata ← read_assets args name
    launch args metadata
    provision_vm args

  -- `Execute`, with the catalog of the configuration.
  pub execute : Bool → List Item → Args → Exec Outcome
  unfolding choose_deps
  execute darwin dependencies args = do
    chosen ← choose_deps args dependencies
    ignoring w (set_prop "type" chosen.0)
    ignoring w available_memory
    ignoring w total_memory
    call w check_requirements
    running ← wrapping "is running" (ask w w.flag vm_is_running)
    if running
        then (do
          ignoring w (say (text "CF Dev is already running..."))
          ignoring w (event "start_end")
          pure already_running)
        else bring_up darwin args chosen.0 chosen.1

  -- The goroutine of `Execute`: on a signal, or when vpnkit has stopped, the run ends at once.
  pub interrupt : Option String → Exec (Unit {0})
  interrupt none = do ignoring w vm_stop; ignoring w vpnkit_stop; ignoring w (exit 128)
  interrupt (some name) = do
    ignoring w (say (text ("ERROR: " <> name <> " has stopped")))
    ignoring w vm_stop
    ignoring w vpnkit_stop
    ignoring w (exit 128)
