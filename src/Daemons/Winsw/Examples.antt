-- ===== src/Daemons/Winsw/Examples.antt =====
-- The theorem on services at services that are simulated.
use cfdev.Common.{
  refl, inl, inr, String, Bool, true, false, not, ◌&&◌, Option, none, some, List, [], ◌∷◌, ◌=s◌,
  eq_iff, arith, Bool-cases, if◌then◌else◌,
}
use cfdev.System.Sample.{host_with}
use cfdev.System.{System, Op, Fault, other, run}
use cfdev.Daemons.Contract.{Implements}
use cfdev.Daemons.Winsw.{WinSw, winsw, executable_path}
use cfdev.Daemons.Winsw.Services.{Services, registry, status_text}
use cfdev.Daemons.Winsw.Kept.{winsw-Implements}

abbrev windows_dirs : WinSw
windows_dirs = record { binary_path = "C:/winsw.exe"; services_dir = "C:/winservice" }

-- The program and the verb of a command of winsw.
abbrev command_of : Op → Option (String × String)
command_of (run (path ∷ verb ∷ [])) = some (path, verb)
command_of _ = none

abbrev set_installed : Option (String × String) → Bool → Bool
set_installed none b = b
set_installed (some (path, verb)) b =
    if verb =s "install" then true else (if verb =s "uninstall" then false else b)

-- Whether services are installed, which is all of them or none.
abbrev installed_in : List Op → Bool
installed_in [] = false
installed_in (o ∷ h) = set_installed (command_of o) (installed_in h)

abbrev set_running : String → Option (String × String) → Bool → Bool
set_running path none b = b
set_running path (some (p, verb)) b =
    if p =s path
    then (if verb =s "start" then true else (if verb =s "stop" then false else b))
    else b

abbrev running_in : String → List Op → Bool
running_in path [] = false
running_in path (o ∷ h) = set_running path (command_of o) (running_in path h)

-- Only a service that is not installed is refused, and only to start.
abbrev refusal : Option (String × String) → Bool → Option Fault
refusal none b = none
refusal (some (path, verb)) b =
    if verb =s "start" && not b then some (other "no such service") else none

abbrev said : Option (String × String) → List Op → String
said none h = if installed_in h then "Running" else ""
said (some (path, verb)) h = status_text (installed_in h && running_in path h)

abbrev windows : System
windows = host_with (λ h o. refusal (command_of o) (installed_in h)) (λ h o. said (command_of o) h)

abbrev installed : List Op → String → Bool
installed h label = installed_in h

abbrev runs : List Op → String → Bool
runs h label = installed_in h && running_in (executable_path windows_dirs label) h

windows-Services : Services windows windows_dirs installed runs
windows-Services = record {
  silent = λ h label i. rw i refl;
  speaks = λ h label i. rw i refl;
  query_keeps = λ h label. (refl, refl);
  only_installed = λ h label i. rw i refl;
  status = λ h label f. refl;
  status_keeps = λ h label. ground (arith, h);
  installs = λ h label f. refl;
  uninstalls = λ h label f. refl;
  starts = λ h label f.
      let p = executable_path windows_dirs label in
      elim (Bool-cases (installed_in h)) [
        | inl i ↦ rw (i, (eq_iff p p).1 refl) refl
        | inr i ↦ absurd (ground (arith, i, f))
      ];
  stops = λ h label f.
      let p = executable_path windows_dirs label in
      elim (Bool-cases (installed_in h)) [
        | inl i ↦ rw (i, (eq_iff p p).1 refl) refl
        | inr i ↦ rw i refl
      ];
}

winsw-Implements_example :
    Implements (winsw windows (λ c. c.id) windows_dirs) (registry installed runs)
winsw-Implements_example =
    winsw-Implements windows (λ c. c.id) windows_dirs installed runs windows-Services
