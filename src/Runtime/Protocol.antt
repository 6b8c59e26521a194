-- ===== src/Runtime/Protocol.antt =====
-- The order of calls. A protocol says which kinds of call must have succeeded before a call of some
-- kind may be made. `Keeps` has one rule for each way in which the commands build their runs.
use mathlib.Core.Bool.{decide, decide_iff, false≢true}
use cfdev.Common.{◌≡◌, Bool, true, false, ◌&&◌, ◌||◌, inl, inr, Bool-cases, List, [], ◌∷◌, All}
use cfdev.Runtime.{
  Call, available_memory, check_requirements, vm_is_running, vm_start, vm_stop, vm_destroy,
  vm_create, vpnkit_start, vpnkit_stop, vpnkit_destroy, analyticsd_start, analyticsd_stop,
  analyticsd_destroy, add_aliases, remove_aliases, cfdevd_uninstall, create_dirs, setup_state,
  cache_sync, read_metadata, ping, deploy_bosh, deploy_cf, deploy_services,
}

-- The steps that order matters for; every other call is `other`.
pub data Kind : Type 0 where
  requirements_checked vm_queried vm_stopped vm_destroyed vpnkit_stopped vpnkit_destroyed : Kind
  analyticsd_stopped analyticsd_destroyed aliases_removed cfdevd_uninstalled dirs_created : Kind
  aliases_added assets_synced state_set metadata_read memory_read vm_created vpnkit_started : Kind
  vm_started vm_pinged bosh_deployed cf_deployed services_deployed analyticsd_started other : Kind

pub Kind-discrete : Discrete Kind
Kind-discrete = hlevel

abbrev pub kind : Call → Kind
kind check_requirements = requirements_checked
kind vm_is_running = vm_queried
kind vm_stop = vm_stopped
kind vm_destroy = vm_destroyed
kind vpnkit_stop = vpnkit_stopped
kind vpnkit_destroy = vpnkit_destroyed
kind analyticsd_stop = analyticsd_stopped
kind analyticsd_destroy = analyticsd_destroyed
kind remove_aliases = aliases_removed
kind cfdevd_uninstall = cfdevd_uninstalled
kind create_dirs = dirs_created
kind add_aliases = aliases_added
kind (cache_sync _) = assets_synced
kind setup_state = state_set
kind read_metadata = metadata_read
kind available_memory = memory_read
kind (vm_create _ _) = vm_created
kind vpnkit_start = vpnkit_started
kind vm_start = vm_started
kind ping = vm_pinged
kind deploy_bosh = bosh_deployed
kind (deploy_cf _) = cf_deployed
kind (deploy_services _) = services_deployed
kind analyticsd_start = analyticsd_started
kind _ = other

is_kind : Kind → Kind → Bool
unfolding Kind-discrete decide
is_kind a b = decide (Kind-discrete a b)

is_kind_eq : (a b : Kind) → is_kind a b ≡ true → a ≡ b
unfolding is_kind
is_kind_eq a b h = (decide_iff (Kind-discrete a b)).0 h

has : Kind → List Kind → Bool
has k [] = false
has k (j ∷ ks) = is_kind k j || has k ks

-- Every kind of the first list stands in the second.
unfoldable pub covers : List Kind → List Kind → Bool
unfolding is_kind has
covers [] ks = true
covers (j ∷ js) ks = has j ks && covers js ks

All-has {ℓ} : (P : Kind → Type ℓ) (k : Kind) (ks : List Kind) → has k ks ≡ true → All P ks → P k
unfolding has
All-has P k [] h d = cc
All-has P k (j ∷ ks) h d = elim (Bool-cases (is_kind k j)) [
  | inl e ↦ rw (is_kind_eq k j e) d.0
  | inr e ↦ All-has P k ks (rw e at h) d.1
]

pub All-covers {ℓ} :
    (P : Kind → Type ℓ) (js ks : List Kind) → covers js ks ≡ true → All P ks → All P js
unfolding covers
All-covers P [] ks h d = tt
All-covers P (j ∷ js) ks h d = elim (Bool-cases (has j ks)) [
  | inl e ↦ (All-has P j ks e d, All-covers P js ks (rw e at h) d)
  | inr e ↦ absurd (false≢true (rw e at h))
]
