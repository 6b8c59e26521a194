-- ===== src/Hypervisor/HyperV/Ordering.antt =====
-- What the parts of CreateVM of hypervisor/hyperv.go keep and make hold of the commands that have run.
use cfdev.Common.{◌≡◌, refl, inl, inr, String, not, none, List, [], ◌∷◌, ◌=s◌}
use cfdev.Common.Text.{split}
use cfdev.Common.Text.Fields.{trimmed}
use cfdev.Runtime.{Result, ok, err}
use cfdev.System.{System, Op, print, powershell, ignoring, observing, prefixing}
use cfdev.System.Preserves.{Preserves, Preserves-pure, Preserves-bind, Preserves-if}
use cfdev.System.Leads.{
  Happened, Leads, powershell_op, Leads-first, Leads-prefixing, Preserves-prefixing,
  Preserves-observing, Preserves-ignoring, Preserves-powershell, Leads-powershell,
}
use cfdev.Hypervisor.HyperV.{
  remove_adapter_command, ordering, note, remove_adapters, without_adapters,
}

-- The command was run by PowerShell and has succeeded.
abbrev pub Ran : System → String → List Op → Type 0
Ran s command = Happened (λ h o. (o ≡ powershell_op command) × (s.fault h o ≡ none))

module _ (s : System) (command : String) where
  pub kept : (o : Op) (h : List Op) → Ran s command h → Ran s command (o ∷ h)
  kept o h q = inr q

  Preserves-ordering : (c : String) → Preserves (Ran s command) (ordering s c)
  unfolding ordering
  Preserves-ordering c =
      Preserves-bind (Ran s command) (powershell s c) _
        (Preserves-powershell (Ran s command) s c (kept (powershell_op c)))
        (λ out. Preserves-pure (Ran s command) tt)

  Leads-ordering : Leads (Ran s command) (ordering s command)
  unfolding ordering
  Leads-ordering =
      Leads-first (Ran s command) (powershell s command) _
        (Leads-powershell (Ran s command) s command (λ h f. inl (refl, f)))
        (λ out. Preserves-pure (Ran s command) tt)

  Preserves-note : (r : Result (Unit {0})) → Preserves (Ran s command) (note s r)
  unfolding note
  Preserves-note (ok u) = Preserves-pure (Ran s command) tt
  Preserves-note (err e) =
      Preserves-bind (Ran s command) (ignoring s (print _)) _
        (Preserves-ignoring (Ran s command) s (print _) (kept (print _)))
        (λ out. Preserves-pure (Ran s command) tt)

  Preserves-remove_adapters :
      (name : String) (adapters : List String)
      → Preserves (Ran s command) (remove_adapters s name adapters)
  unfolding remove_adapters
  Preserves-remove_adapters name [] = Preserves-pure (Ran s command) tt
  Preserves-remove_adapters name (a ∷ adapters) =
      Preserves-bind (Ran s command)
        (observing (ordering s (remove_adapter_command name (trimmed a)))) _
        (Preserves-observing (Ran s command) (ordering s (remove_adapter_command name (trimmed a)))
          (Preserves-ordering (remove_adapter_command name (trimmed a))))
        (λ r.
          Preserves-bind (Ran s command) (note s r) _ (Preserves-note r)
            (λ u. Preserves-remove_adapters name adapters))

  pub Preserves-without_adapters :
      (name : String) (r : Result String) → Preserves (Ran s command) (without_adapters s name r)
  unfolding without_adapters
  Preserves-without_adapters name (err e) = Preserves-pure (Ran s command) tt
  Preserves-without_adapters name (ok out) =
      Preserves-if (Ran s command) (not (out =s "")) _ _
        (Preserves-remove_adapters name (split b'\n' out)) (Preserves-pure (Ran s command) tt)

  -- A command whose error is returned with a text before it.
  pub own : (text : String) → Leads (Ran s command) (prefixing text (ordering s command))
  own text = Leads-prefixing (Ran s command) text (ordering s command) Leads-ordering

  pub past : (text c : String) → Preserves (Ran s command) (prefixing text (ordering s c))
  past text c = Preserves-prefixing (Ran s command) text (ordering s c) (Preserves-ordering c)
