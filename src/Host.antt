-- ===== src/Host.antt =====
-- host/: the requirements of the host, and its version.
use cfdev.Common.{String, ◌<>◌, Bool, [], ◌∷◌, if◌then◌else◌}
use cfdev.Common.Text.{codes, lower, contains}
use cfdev.Common.Text.Fields.{trimmed}
use cfdev.Errors.{Error, plain, safe_wrap}
use cfdev.Runtime.{◌>>=◌, ◌>>◌, pure, raise}
use cfdev.System.{System, Run, run, powershell, reading, prefixing}

abbrev admin_query : String
admin_query =
    "(New-Object Security.Principal.WindowsPrincipal([Security.Principal.WindowsIdentity]::GetCurrent())).IsInRole([Security.Principal.WindowsBuiltInRole]::Administrator)"

abbrev hyperv_disabled_error : String
hyperv_disabled_error =
    "You must first enable Hyper-V on your machine before you run CF Dev. Please use the following tutorial to enable this functionality on your machine\n\nhttps://docs.microsoft.com/en-us/virtualization/hyper-v-on-windows/quick-start/enable-hyper-v"

abbrev not_admin : Error
not_admin =
    safe_wrap (plain "You must run cf dev with an admin privileged powershell")
      "Running without admin privileges"

abbrev disabled : String → Error
disabled feature = safe_wrap (plain hyperv_disabled_error) (feature <> " disabled")

abbrev feature_query : String → String
feature_query feature = "(Get-WindowsOptionalFeature -FeatureName " <> feature <> " -Online).State"

-- Whether a text says a word, without regard to case.
abbrev says : String → String → Bool
says out word = contains (lower (codes out)) (codes word)

module _ (s : System) where
  -- `hasAdminPrivileged`
  has_admin_privileged : Run (Unit {0})
  unfolding prefixing powershell
  has_admin_privileged = do
    out ← prefixing "checking for admin privileges" (powershell s admin_query)
    if says out "true" then pure tt else raise not_admin

  -- `hypervStatus`
  hyperv_status : String → Run String
  unfolding prefixing powershell
  hyperv_status feature = do
    out ← prefixing "checking whether hyperv is enabled" (powershell s (feature_query feature))
    pure (trimmed out)

  require : String → Run (Unit {0})
  unfolding hyperv_status
  require feature = do
    status ← hyperv_status feature
    if says status "enabled" then pure tt else raise (disabled feature)

  -- `hypervEnabled`
  hyperv_enabled : Run (Unit {0})
  unfolding require
  hyperv_enabled = do require "Microsoft-Hyper-V"; require "Microsoft-Hyper-V-Management-PowerShell"

  -- `CheckRequirements` of Windows; that of macOS asks for nothing.
  check_requirements : Run (Unit {0})
  unfolding has_admin_privileged hyperv_enabled
  check_requirements = do has_admin_privileged; hyperv_enabled

  -- `Version` of macOS.
  version : Run String
  unfolding reading
  version = do
    name ← reading s (run ("sw_vers" ∷ "-productName" ∷ []))
    number ← reading s (run ("sw_vers" ∷ "-productVersion" ∷ []))
    pure (trimmed name <> " " <> trimmed number)

  -- `Version` of Windows.
  windows_version : Run String
  unfolding reading
  windows_version = do
    out ←
        reading s (
          run
            ("powershell.exe" ∷ "-Command" ∷ "[System.Environment]::OSVersion.VersionString" ∷ []))
    pure (trimmed out)
