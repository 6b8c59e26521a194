-- ===== src/Network/Examples.antt =====
-- The theorem on the connection to vpnkit at a socket that appears late.
use cfdev.Common.{◌⊎◌, none, some, [], length, ltb, if◌then◌else◌}
use cfdev.System.Sample.{host_with}
use cfdev.System.{System, missing}
use cfdev.Network.Darwin.{retries}
use cfdev.Network.Darwin.Connecting.{Connected, Refused, connect_ends}

-- The socket is there after four operations.
abbrev late : System
late =
    host_with (λ h o. if ltb (length h) 4 then some (missing "no such file") else none) (λ h o. "")

connect_ends_example :
    Connected late "/state/vpnkit_eth.sock" retries []
    ⊎ Refused late "/state/vpnkit_eth.sock" retries []
connect_ends_example = connect_ends late "/state/vpnkit_eth.sock" retries []
