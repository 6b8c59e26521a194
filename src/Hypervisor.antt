-- ===== src/Hypervisor.antt =====
-- hypervisor/: the virtual machine. LinuxKit keeps it as a daemon on macOS; HyperV drives it by
-- PowerShell on Windows.
pub mod LinuxKit
pub mod HyperV
use cfdev.Common.{String}
use cfdev.Common.Int.{ℤ}

-- `VM`
pub record Vm : Type 0 where
  pub name : String
  pub memory_mb : ℤ
  pub cpus : ℤ
