-- ===== src/Daemons/Winsw/Services.antt =====
-- What winsw_windows.go relies on: the documented behaviour of winsw.exe and of `Get-Service`.
use cfdev.Common.{◌≡◌, String, Bool, true, false, none, List, [], ◌∷◌}
use cfdev.Common.Text.{codes, same, trim_space}
use cfdev.System.{System, Op, run}
use cfdev.Daemons.Contract.{Registry}
use cfdev.Daemons.Winsw.{WinSw, installed_query, executable_path}

-- What `winsw.exe status` prints.
abbrev pub status_text : Bool → String
status_text true = "Started\r\n"
status_text false = "Stopped\r\n"

-- The services, after a history: `Get-Service` prints a text about an installed one and nothing
-- about another; `winsw.exe status` prints whether it runs; each command that succeeds does what it
-- is named for.
pub record Services (s : System) (w : WinSw) (installed runs : List Op → String → Bool)
    : Type 0 where
  pub silent :
      (h : List Op) (label : String)
      → installed h label ≡ false
      → s.output h (run (installed_query label)) ≡ ""
  pub speaks :
      (h : List Op) (label : String)
      → installed h label ≡ true
      → same (trim_space (codes (s.output h (run (installed_query label))))) [] ≡ false
  pub query_keeps :
      (h : List Op) (label : String)
      → (installed (run (installed_query label) ∷ h) label ≡ installed h label)
        × (runs (run (installed_query label) ∷ h) label ≡ runs h label)
  pub only_installed :
      (h : List Op) (label : String) → installed h label ≡ false → runs h label ≡ false
  pub status :
      (h : List Op) (label : String)
      → s.fault h (run (executable_path w label ∷ "status" ∷ [])) ≡ none
      → s.output h (run (executable_path w label ∷ "status" ∷ [])) ≡ status_text (runs h label)
  pub status_keeps :
      (h : List Op) (label : String)
      → runs (run (executable_path w label ∷ "status" ∷ []) ∷ h) label ≡ runs h label
  pub installs :
      (h : List Op) (label : String)
      → s.fault h (run (executable_path w label ∷ "install" ∷ [])) ≡ none
      → installed (run (executable_path w label ∷ "install" ∷ []) ∷ h) label ≡ true
  pub uninstalls :
      (h : List Op) (label : String)
      → s.fault h (run (executable_path w label ∷ "uninstall" ∷ [])) ≡ none
      → installed (run (executable_path w label ∷ "uninstall" ∷ []) ∷ h) label ≡ false
  pub starts :
      (h : List Op) (label : String)
      → s.fault h (run (executable_path w label ∷ "start" ∷ [])) ≡ none
      → runs (run (executable_path w label ∷ "start" ∷ []) ∷ h) label ≡ true
  pub stops :
      (h : List Op) (label : String)
      → s.fault h (run (executable_path w label ∷ "stop" ∷ [])) ≡ none
      → runs (run (executable_path w label ∷ "stop" ∷ []) ∷ h) label ≡ false

abbrev pub registry : (List Op → String → Bool) → (List Op → String → Bool) → Registry
registry installed runs = record { knows = installed; runs = runs; IsName = λ label. Unit }
