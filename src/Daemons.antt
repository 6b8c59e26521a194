-- ===== src/Daemons.antt =====
-- daemon/: programs that the operating system keeps running. The hypervisor and the network work
-- over any `DaemonRunner`; launchd is the one of macOS and winsw the one of Windows.
mod Examples
pub mod Launchd
pub mod Winsw
pub mod Watch
pub mod Contract
pub mod AnalyticsD
use cfdev.Common.{String, Bool, List}
use cfdev.Common.Dict.{Dict}
use cfdev.System.{Op, Run}

pub record DaemonSpec : Type 0 where
  pub label : String
  pub program : String
  pub program_arguments : List String
  pub session_type : String
  pub run_at_load : Bool
  -- A Go map: its entries in the order of their keys.
  pub sockets : Dict String
  pub stdout_path : String
  pub stderr_path : String

-- The interface `DaemonRunner` of hypervisor/linuxkit.go and network/vpnkit.go.
pub record DaemonRunner : Type 0 where
  pub add_daemon : DaemonSpec → Run (Unit {0})
  pub remove_daemon : String → Run (Unit {0})
  pub start : String → Run (Unit {0})
  pub stop : String → Run (Unit {0})
  pub is_running : String → Run Bool
