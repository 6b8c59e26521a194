-- ===== src/Hypervisor/HyperV/Examples.antt =====
-- The theorem on the virtual machine of Windows at a host where no command fails.
use cfdev.Common.{refl, All, none, []}
use cfdev.Common.Int.{pos}
use cfdev.Runtime.{◌>>=◌}
use cfdev.System.Sample.{host_with}
use cfdev.System.{System}
use cfdev.Hypervisor.{Vm}
use cfdev.Configuration.Sample.{config}
use cfdev.Hypervisor.HyperV.{create_vm, ordering, without_adapters}
use cfdev.Hypervisor.HyperV.Ordering.{Ran}
use cfdev.Hypervisor.HyperV.Created.{commands, create_vm-Created}

-- One adapter is listed.
abbrev windows : System
windows = host_with (λ h o. none) (λ h o. "Network Adapter")

abbrev machine : Vm
machine = record { name = "cfdev"; cpus = pos 4; memory_mb = pos 8192 }

create_vm-Created_example :
    All
      (λ command. Ran windows command (create_vm windows config machine []).1)
      (commands config machine)
unfolding create_vm ◌>>=◌ ordering without_adapters
create_vm-Created_example = create_vm-Created windows config machine [] refl
