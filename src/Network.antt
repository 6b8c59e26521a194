-- ===== src/Network.antt =====
-- network/: what connects the machine. vpnkit carries its traffic; the loopback aliases give it
-- addresses on the host; cfdevd is installed for both on macOS.
mod Examples
pub mod Darwin
pub mod Windows
pub mod Aliases
pub mod CfdevD
use cfdev.Common.{String}
use cfdev.Configuration.{Config}

-- `VpnKit`, without the interfaces that it acts through.
pub record VpnKit : Type 0 where
  pub config : Config
  pub label : String
  pub ethernet_guid : String
  pub port_guid : String
  pub forwarder_guid : String
