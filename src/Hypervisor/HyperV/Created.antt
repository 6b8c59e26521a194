-- ===== src/Hypervisor/HyperV/Created.antt =====
-- What CreateVM of hypervisor/hyperv.go has done when it returns no error.
use cfdev.Common.{◌≡◌, String, ◌<>◌, List, [], ◌∷◌, All}
use cfdev.Configuration.{Config}
use cfdev.Runtime.{ok, ◌>>=◌, ◌>>◌}
use cfdev.System.{System, Run, Op, powershell, observing, prefixing}
use cfdev.System.Preserves.{Preserves, Preserves-bind}
use cfdev.System.Leads.{
  Leads, powershell_op, Leads-first, Leads-then, Preserves-observing, Preserves-powershell,
}
use cfdev.Hypervisor.{Vm}
use cfdev.Hypervisor.HyperV.{
  new_command, set_command, dvd_command, adapters_command, disk_command, firmware_command,
  port_command, iso_path, vhd_path, ordering, without_adapters, setting_failure, create_vm,
}
use cfdev.Hypervisor.HyperV.Ordering.{Ran, kept, Preserves-without_adapters, own, past}

-- The commands that make the machine.
abbrev pub commands : Config → Vm → List String
commands c vm =
    new_command vm.name
    ∷ set_command vm
    ∷ dvd_command vm.name (iso_path c)
    ∷ disk_command vm.name (vhd_path c)
    ∷ firmware_command vm.name
    ∷ port_command vm.name
    ∷ []

module _ (s : System) (c : Config) (vm : Vm) where
  -- The last parts of `create_vm`, each with those after it.
  abbrev from_port : Run (Unit {0})
  from_port = prefixing "setting com port " (ordering s (port_command vm.name))

  abbrev from_firmware : Run (Unit {0})
  from_firmware = prefixing "setting firmware " (ordering s (firmware_command vm.name)) >> from_port

  abbrev from_disk : Run (Unit {0})
  from_disk =
      prefixing ("adding vhd " <> vhd_path c <> " ")
        (ordering s (disk_command vm.name (vhd_path c)))
      >> from_firmware

  abbrev from_adapters : Run (Unit {0})
  from_adapters =
      observing (powershell s (adapters_command vm.name))
      >>= (λ adapters. without_adapters s vm.name adapters >> from_disk)

  abbrev from_dvd : Run (Unit {0})
  from_dvd =
      prefixing ("adding dvd drive " <> iso_path c) (ordering s (dvd_command vm.name (iso_path c)))
      >> from_adapters

  abbrev from_set : Run (Unit {0})
  from_set = prefixing (setting_failure s vm) (ordering s (set_command vm)) >> from_dvd

  module _ (command : String) where
    abbrev P : List Op → Type 0
    P = Ran s command

    -- A part, and those after it.
    later :
        (text made : String) (rest : Run (Unit {0}))
        → Preserves P rest
        → Preserves P (prefixing text (ordering s made) >> rest)
    later text made rest k =
        Preserves-bind P (prefixing text (ordering s made)) _ (past s command text made) (λ u. k)

    kept_port : Preserves P from_port
    kept_port = past s command _ _

    kept_firmware : Preserves P from_firmware
    kept_firmware = later _ _ from_port kept_port

    kept_disk : Preserves P from_disk
    kept_disk = later _ _ from_firmware kept_firmware

    kept_adapters : Preserves P from_adapters
    kept_adapters =
        Preserves-bind P (observing (powershell s (adapters_command vm.name))) _
          (Preserves-observing P (powershell s (adapters_command vm.name)) (
            Preserves-powershell P s (adapters_command vm.name)
              (kept s command (powershell_op (adapters_command vm.name)))))
          (λ r.
            Preserves-bind P (without_adapters s vm.name r) _
              (Preserves-without_adapters s command vm.name r) (λ u. kept_disk))

    kept_dvd : Preserves P from_dvd
    kept_dvd = later _ _ from_adapters kept_adapters

    kept_set : Preserves P from_set
    kept_set = later _ _ from_dvd kept_dvd

    -- The part of the command itself, and a part before it.
    here :
        (text : String) (rest : Run (Unit {0}))
        → Preserves P rest
        → Leads P (prefixing text (ordering s command) >> rest)
    here text rest k =
        Leads-first P (prefixing text (ordering s command)) _ (own s command text) (λ u. k)

    before :
        (text made : String) (rest : Run (Unit {0}))
        → Leads P rest
        → Leads P (prefixing text (ordering s made) >> rest)
    before text made rest l = Leads-then P (prefixing text (ordering s made)) _ (λ u. l)

    after_new :
        Leads P from_set
        → Leads P (prefixing "creating new vm" (ordering s (new_command vm.name)) >> from_set)
    after_new l = before _ _ from_set l

    to_disk : Leads P from_disk → Leads P from_set
    to_disk l = before _ _ from_dvd (
        before _ _ from_adapters (
          Leads-then P (observing (powershell s (adapters_command vm.name))) _
            (λ r. Leads-then P (without_adapters s vm.name r) _ (λ u. l))))

  -- When `CreateVM` returns no error, PowerShell has made the machine: each of the commands that
  -- create it, set its memory and processors, add the drive and the disk and set its firmware and its
  -- port was run and has succeeded.
  pub create_vm-Created :
      (h : List Op)
      → (create_vm s c vm h).0 ≡ ok tt
      → All (λ command. Ran s command (create_vm s c vm h).1) (commands c vm)
  unfolding create_vm
  create_vm-Created h e =
      let made = new_command vm.name in
      let set = set_command vm in
      let dvd = dvd_command vm.name (iso_path c) in
      let disk = disk_command vm.name (vhd_path c) in
      let firmware = firmware_command vm.name in
      let port = port_command vm.name in
      (
        here made _ from_set (kept_set made) h tt e,
        (
          after_new set (here set _ from_dvd (kept_dvd set)) h tt e,
          (
            after_new dvd (before dvd _ _ from_dvd (here dvd _ from_adapters (kept_adapters dvd))) h
                tt e,
            (
              after_new disk (to_disk disk (here disk _ from_firmware (kept_firmware disk))) h tt e,
              (
                after_new firmware
                    (to_disk firmware (
                      before firmware _ _ from_firmware
                        (here firmware _ from_port (kept_port firmware))))
                    h tt e,
                (
                  after_new port
                      (to_disk port
                        (before port _ _ from_firmware (before port _ _ from_port (own s port _))))
                      h tt e,
                  tt,
                ),
              ),
            ),
          ),
        ),
      )
