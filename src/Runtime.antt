-- ===== src/Runtime.antt =====
-- The commands act through interfaces: the UI, the host, the hypervisor, vpnkit, the analytics
-- daemon, the cache and so on. A run is the history of the calls that it has made, the latest
-- first. What a call answers is unknown: a `World` is any function of the call and of the history
-- before it, so a theorem about every world covers every behaviour of what is called.
pub mod Protocol
pub mod Keeps
pub mod Steps
use cfdev.Common.{ℕ, String, Bool, Option, none, some, List, ◌∷◌}
use cfdev.Common.Int.{ℤ}
use cfdev.Errors.{Error, safe_wrap}
use cfdev.Resource.{Item}
use cfdev.Metadata.{Service, Metadata}

-- What is shown to the user: fixed texts, and the texts with values in them.
pub data Message : Type 0 where
  text : String → Message
  vm_memory_recommended : String → ℤ → Message
  vm_memory_required : String → ℤ → Message

pub data Call : Type 0 where
  say : Message → Call
  event : String → Call
  -- An event with one more text, under "errors".
  event_with : String → String → Call
  set_prop : String → String → Call
  set_cf_analytics set_custom_analytics : Bool → Call
  toggle_enabled : Call
  prompt_opt_in : String → Call
  absolute_path : String → Call
  stat_is_missing : String → Call
  available_memory total_memory : Call
  check_requirements : Call
  vm_is_running vm_start vm_stop vm_destroy : Call
  vm_create : ℤ → ℤ → Call
  vpnkit_start vpnkit_watch vpnkit_stop vpnkit_destroy : Call
  analyticsd_is_running analyticsd_start analyticsd_stop analyticsd_destroy : Call
  add_aliases remove_aliases : Call
  cfdevd_install cfdevd_uninstall : Call
  create_dirs setup_state : Call
  cache_sync : List Item → Call
  read_metadata : Call
  parse_url : String → Call
  ping sleep : Call
  deploy_bosh : Call
  deploy_cf : List String → Call
  deploy_services : List Service → Call
  print_message : String → Call
  exit : ℕ → Call

pub record World : Type 0 where
  -- The error that a call returns.
  pub fails : List Call → Call → Option Error
  -- The Boolean, the number, the text and the document that a call returns.
  pub flag : List Call → Call → Bool
  pub amount : List Call → Call → ℕ
  pub reply : List Call → Call → String
  pub metadata : List Call → Call → Metadata

pub data Result {ℓ} (A : Type ℓ) : Type ℓ where
  ok : A → Result A
  err : Error → Result A

abbrev pub Exec {ℓ} : Type ℓ → Type ℓ
Exec A = List Call → Result A × List Call

abbrev pub in_context {ℓ} : {A : Type ℓ} → String → Result A → Result A
in_context msg (ok a) = ok a
in_context msg (err e) = err (safe_wrap e msg)

module _ {ℓ} {C : Type 0} {A : Type ℓ} where
  unfoldable pub pure : A → List C → Result A × List C
  pure a h = (ok a, h)

  unfoldable pub raise : Error → List C → Result A × List C
  raise e h = (err e, h)

  -- `if err := m; err != nil { return SafeWrap(err, msg) }`
  unfoldable pub wrapping : String → (List C → Result A × List C) → List C → Result A × List C
  wrapping msg m h = (in_context msg (m h).0, (m h).1)

abbrev pub outcome : Option Error → Result (Unit {0})
outcome none = ok tt
outcome (some e) = err e

abbrev answer {ℓ} : {A : Type ℓ} → Option Error → A → Result A
answer none a = ok a
answer (some e) a = err e

module _ (w : World) where
  -- A call whose error is returned at once.
  pub call : Call → Exec (Unit {0})
  call c h = (outcome (w.fails h c), c ∷ h)

  -- A call whose error is dropped, or that returns none.
  pub ignoring : Call → Exec (Unit {0})
  ignoring c h = (ok tt, c ∷ h)

  -- A call whose error the caller looks at.
  pub attempt : Call → Exec (Option Error)
  attempt c h = (ok (w.fails h c), c ∷ h)

  -- A call that returns a value or an error, and whose error is returned at once.
  pub ask {ℓ} : {A : Type ℓ} → (List Call → Call → A) → Call → List Call → Result A × List Call
  ask value c h = (answer (w.fails h c) (value h c), c ∷ h)

  -- A value that is there without an error.
  pub peek {ℓ} : {A : Type ℓ} → (List Call → Call → A) → Call → List Call → Result A × List Call
  peek value c h = (ok (value h c), c ∷ h)

module _ {ℓ κ} {C : Type 0} {A : Type ℓ} {B : Type κ} where
  abbrev pub continue : Result A → (A → List C → Result B × List C) → List C → Result B × List C
  continue (ok a) f h = f a h
  continue (err e) f h = (err e, h)

  infixl 5 ◌>>=◌ ◌>>◌
  -- Opening this opens the other steps too.
  unfoldable pub ◌>>=◌ :
      (List C → Result A × List C) → (A → List C → Result B × List C) → List C → Result B × List C
  unfolding pure raise wrapping call ignoring attempt ask peek
  ◌>>=◌ m f h = continue (m h).0 f (m h).1

  abbrev pub ◌>>◌ :
      (List C → Result A × List C) → (List C → Result B × List C) → List C → Result B × List C
  ◌>>◌ m n = m >>= λ _. n
