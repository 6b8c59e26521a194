-- ===== src/Daemons/Contract.antt =====
-- What the program relies on a `DaemonRunner` for, whichever it is.
use cfdev.Common.{◌≡◌, String, Bool, true, false, List}
use cfdev.Runtime.{ok}
use cfdev.System.{Op}
use cfdev.Daemons.{DaemonSpec, DaemonRunner}

-- Which daemons are known and which of them run, after a history. `IsName` says which labels the
-- promises are for.
pub record Registry : Type 1 where
  pub knows : List Op → String → Bool
  pub runs : List Op → String → Bool
  pub IsName : String → Type 0

-- A runner that keeps its promises for the registry.
pub record Implements (r : DaemonRunner) (y : Registry) : Type 0 where
  -- An answer without an error is true, and asking changes nothing.
  pub answers :
      (label : String) (h : List Op) (b : Bool)
      → y.IsName label
      → (r.is_running label h).0 ≡ ok b
      → (b ≡ y.runs h label) × (y.runs (r.is_running label h).1 label ≡ y.runs h label)
  pub adds :
      (spec : DaemonSpec) (h : List Op)
      → y.IsName spec.label
      → (r.add_daemon spec h).0 ≡ ok tt
      → y.knows (r.add_daemon spec h).1 spec.label ≡ true
  pub starts :
      (label : String) (h : List Op)
      → y.IsName label
      → (r.start label h).0 ≡ ok tt
      → y.runs (r.start label h).1 label ≡ true
  -- A runner that cannot tell whether the daemon runs leaves it alone.
  pub stops :
      (label : String) (h : List Op) (b : Bool)
      → y.IsName label
      → (r.is_running label h).0 ≡ ok b
      → (r.stop label h).0 ≡ ok tt
      → y.runs (r.stop label h).1 label ≡ false
  pub removes :
      (label : String) (h : List Op)
      → y.IsName label
      → (r.remove_daemon label h).0 ≡ ok tt
      → y.knows (r.remove_daemon label h).1 label ≡ false
