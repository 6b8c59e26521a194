-- ===== src/Commands/Protocol.antt =====
-- The order in which the commands that bring the virtual machine up may act.
use cfdev.Common.{List, [], ◌∷◌}
use cfdev.Runtime.{Call, World, Result}
use cfdev.Runtime.Protocol.{
  Kind, requirements_checked, vm_queried, vm_stopped, vm_destroyed, vpnkit_stopped,
  vpnkit_destroyed, analyticsd_stopped, analyticsd_destroyed, aliases_removed, cfdevd_uninstalled,
  dirs_created, aliases_added, assets_synced, state_set, metadata_read, memory_read, vm_created,
  vpnkit_started, vm_started, vm_pinged, bosh_deployed, cf_deployed, services_deployed,
  analyticsd_started, other,
}
use cfdev.Runtime.Keeps.{Keeps}

abbrev pub host_ready : List Kind
host_ready = vm_queried ∷ requirements_checked ∷ []

-- What `cf dev stop` takes down on every host.
abbrev pub torn_down : List Kind
torn_down =
    aliases_removed ∷ vpnkit_destroyed ∷ vpnkit_stopped ∷ vm_destroyed ∷ vm_stopped
    ∷ analyticsd_destroyed ∷ analyticsd_stopped ∷ []

-- What must have succeeded before a call of each kind is made.
abbrev pub start_requires : Kind → List Kind
start_requires requirements_checked = []
start_requires vm_queried = requirements_checked ∷ []
start_requires vm_stopped = host_ready
start_requires vm_destroyed = host_ready
start_requires vpnkit_stopped = host_ready
start_requires vpnkit_destroyed = host_ready
start_requires analyticsd_stopped = host_ready
start_requires analyticsd_destroyed = host_ready
start_requires aliases_removed = host_ready
start_requires cfdevd_uninstalled = host_ready
start_requires dirs_created = torn_down
start_requires aliases_added = dirs_created ∷ torn_down
start_requires assets_synced = dirs_created ∷ torn_down
start_requires state_set = assets_synced ∷ []
start_requires metadata_read = state_set ∷ []
start_requires memory_read = []
start_requires vm_created =
    memory_read ∷ metadata_read ∷ state_set ∷ assets_synced ∷ aliases_added ∷ torn_down
start_requires vpnkit_started = vm_created ∷ []
start_requires vm_started = vpnkit_started ∷ vm_created ∷ []
start_requires vm_pinged = vm_started ∷ []
start_requires bosh_deployed = vm_pinged ∷ []
start_requires cf_deployed = bosh_deployed ∷ []
start_requires services_deployed = cf_deployed ∷ []
start_requires analyticsd_started = services_deployed ∷ []
start_requires other = []

-- `Keeps` of this protocol.
abbrev pub InOrder {ℓ} :
    World → {A : Type ℓ} → List Kind → (List Call → Result A × List Call) → (A → List Kind) → Type ℓ
InOrder w ks m after = Keeps w start_requires ks m after
