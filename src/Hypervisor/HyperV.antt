-- ===== src/Hypervisor/HyperV.antt =====
-- hypervisor/hyperv.go: the virtual machine of Windows, by PowerShell commands.
pub mod Ordering
pub mod Created
pub mod Examples
use cfdev.Common.{String, ◌<>◌, Bool, false, not, List, [], ◌∷◌, ◌=s◌, if◌then◌else◌}
use cfdev.Common.Decimal.{show_int}
use cfdev.Common.Paths.{join_path}
use cfdev.Common.Text.{codes, contains, split}
use cfdev.Common.Text.Fields.{trimmed}
use cfdev.Configuration.{Config}
use cfdev.Errors.{Error, plain, error}
use cfdev.Runtime.{Result, ok, err, ◌>>=◌, ◌>>◌, pure, raise}
use cfdev.System.{System, Run, print, powershell, ignoring, observing, prefixing}
use cfdev.Hypervisor.{Vm}

-- The commands.
abbrev pub new_command : String → String
new_command name = "New-VM -Name " <> name <> " -Generation 2 -NoVHD"

abbrev pub set_command : Vm → String
set_command vm =
    "Set-VM -Name "
    <> vm.name
    <> " -AutomaticStartAction Nothing -AutomaticStopAction ShutDown -CheckpointType Disabled "
    <> ("-MemoryStartupBytes " <> show_int vm.memory_mb <> "MB ")
    <> "-StaticMemory "
    <> ("-ProcessorCount " <> show_int vm.cpus)

abbrev pub dvd_command : String → String → String
dvd_command name iso = "Add-VMDvdDrive -VMName " <> name <> " -Path \"" <> iso <> "\""

abbrev pub adapters_command : String → String
adapters_command name =
    "(Get-VMNetworkAdapter -VMName * | Where-Object -FilterScript {$_.VMName -eq '" <> name
    <> "'}).Name"

abbrev pub remove_adapter_command : String → String → String
remove_adapter_command name adapter =
    "Remove-VMNetworkAdapter -VMName " <> name <> " -Name '" <> adapter <> "'"

abbrev pub disk_command : String → String → String
disk_command name vhd = "Add-VMHardDiskDrive -VMName " <> name <> " -Path \"" <> vhd <> "\""

abbrev pub firmware_command : String → String
firmware_command name =
    "Set-VMFirmware -VMName " <> name <> " -EnableSecureBoot Off -FirstBootDevice $cdrom"

abbrev pub port_command : String → String
port_command name = "Set-VMComPort -VMName " <> name <> " -number 1 -Path \\\\.\\pipe\\cfdev-com"

abbrev exists_command : String → String
exists_command name = "Get-VM -Name " <> name <> "*"

abbrev state_command : String → String
state_command name = "Get-VM -Name " <> name <> " | format-list -Property State"

pub iso_path : Config → String
iso_path c = join_path (c.cache_dir ∷ "cfdev-efi-v2.iso" ∷ [])

pub vhd_path : Config → String
vhd_path c = join_path (c.state_linuxkit ∷ "disk.vhdx" ∷ [])

exists_in : String → Bool
exists_in out = not (out =s "")

no_machine : String → Error
no_machine name = plain ("hyperv vm with name " <> name <> " does not exist")

module _ (s : System) where
  -- A command whose output nobody reads.
  pub ordering : String → Run (Unit {0})
  unfolding powershell
  ordering command = do _out ← powershell s command; pure tt

  -- The line that says that an adapter could not be removed.
  note : Result (Unit {0}) → Run (Unit {0})
  unfolding ignoring
  note (ok _) = pure tt
  note (err e) = do
    _shown ← ignoring s (print ("failed to remove netowork adapter: " <> error e))
    pure tt

  remove_adapters : String → List String → Run (Unit {0})
  unfolding observing note
  remove_adapters name [] = pure tt
  remove_adapters name (a ∷ adapters) = do
    removed ← observing (ordering (remove_adapter_command name (trimmed a)))
    note removed
    remove_adapters name adapters

  -- The network adapters that Hyper-V made by itself.
  pub without_adapters : String → Result String → Run (Unit {0})
  unfolding remove_adapters
  without_adapters name (err e) = pure tt
  without_adapters name (ok out) =
      if not (out =s "") then remove_adapters name (split b'\n' out) else pure tt

  setting_failure : Vm → String
  setting_failure vm =
      "setting vm properites (memoryMB:"
      <> show_int vm.memory_mb
      <> ", cpus:"
      <> show_int vm.cpus
      <> ")"

  -- `CreateVM`
  pub create_vm : Config → Vm → Run (Unit {0})
  unfolding prefixing observing iso_path vhd_path
  create_vm c vm = do
    prefixing "creating new vm" (ordering (new_command vm.name))
    prefixing (setting_failure vm) (ordering (set_command vm))
    prefixing ("adding dvd drive " <> iso_path c) (ordering (dvd_command vm.name (iso_path c)))
    adapters ← observing (powershell s (adapters_command vm.name))
    without_adapters vm.name adapters
    prefixing ("adding vhd " <> vhd_path c <> " ") (ordering (disk_command vm.name (vhd_path c)))
    prefixing "setting firmware " (ordering (firmware_command vm.name))
    prefixing "setting com port " (ordering (port_command vm.name))

  -- `exists`
  exists : String → Run Bool
  unfolding prefixing exists_in
  exists name = do
    out ← prefixing "getting vms" (powershell s (exists_command name))
    pure (exists_in out)

  -- `Start`
  start : String → Run (Unit {0})
  unfolding prefixing no_machine
  start name = do
    there ← exists name
    (if there
        then prefixing "start-vm" (ordering ("Start-VM -Name " <> name))
        else raise (no_machine name))

  -- `Stop`
  stop : String → Run (Unit {0})
  unfolding prefixing
  stop name = do
    there ← exists name
    (if there
        then prefixing "stopping vm" (ordering ("Stop-VM -Name " <> name <> " -Turnoff"))
        else pure tt)

  -- `Destroy`
  destroy : String → Run (Unit {0})
  unfolding prefixing
  destroy name = do
    there ← exists name
    (if there
        then prefixing "removing vm" (ordering ("Remove-VM -Name " <> name <> " -Force"))
        else pure tt)

  state_of : String → Run Bool
  state_of name = do
    out ← powershell s (state_command name)
    pure (contains (codes out) (codes "Running"))

  -- `IsRunning`
  is_running : String → Run Bool
  is_running name = do there ← exists name; if there then state_of name else pure false
