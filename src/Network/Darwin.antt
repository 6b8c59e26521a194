-- ===== src/Network/Darwin.antt =====
-- network/vpnkit.go and network/vpnkit_darwin.go: vpnkit on macOS.
pub mod Connecting
use cfdev.Common.{
  ℕ, zero, suc, String, ◌<>◌, Bool, true, false, not, Option, none, some, List, [], ◌∷◌,
  if◌then◌else◌,
}
use cfdev.Common.Environment.{Environ}
use cfdev.Common.Paths.{join_path}
use cfdev.Env.{ProxyConfig, build_proxy_config}
use cfdev.Errors.{plain, safe_wrap}
use cfdev.Runtime.{Result, ok, err, ◌>>=◌, ◌>>◌, pure, raise, wrapping}
use cfdev.System.{
  System, Op, Run, Fault, missing, other, message, stat, remove, write_file, dial, sleep, step,
  trying,
}
use cfdev.Daemons.{DaemonSpec, DaemonRunner}
use cfdev.Network.{VpnKit}

-- `!os.IsNotExist(err)`
may_exist : Option Fault → Bool
may_exist none = true
may_exist (some (missing t)) = false
may_exist (some (other t)) = true

-- `daemonSpec`
daemon_spec : VpnKit → DaemonSpec
daemon_spec v = record {
  label = v.label;
  program = join_path (v.config.cache_dir ∷ "vpnkit" ∷ []);
  session_type = "Background";
  program_arguments =
      join_path (v.config.cache_dir ∷ "vpnkit" ∷ [])
      ∷ "--ethernet"
      ∷ join_path (v.config.vpnkit_state_dir ∷ "vpnkit_eth.sock" ∷ [])
      ∷ "--port"
      ∷ join_path (v.config.vpnkit_state_dir ∷ "vpnkit_port.sock" ∷ [])
      ∷ "--vsock-path"
      ∷ join_path (v.config.state_linuxkit ∷ "connect" ∷ [])
      ∷ "--http"
      ∷ join_path (v.config.vpnkit_state_dir ∷ "http_proxy.json" ∷ [])
      ∷ "--host-names"
      ∷ "host.cfdev.sh"
      ∷ [];
  run_at_load = false;
  sockets = [];
  stdout_path = join_path (v.config.log_dir ∷ "vpnkit.stdout.log" ∷ []);
  stderr_path = join_path (v.config.log_dir ∷ "vpnkit.stderr.log" ∷ []);
}

-- `retries`
abbrev pub retries : ℕ
retries = 5

module _ (s : System) where
  -- The loop of `Start`, with so many retries left: `attempt` is `retries` without them.
  pub connect : String → ℕ → List Op → Result (Unit {0}) × List Op
  connect path zero h = elim (s.fault h (dial path)) [
    | none ↦ (ok tt, dial path ∷ h)
    | some e ↦ (err (safe_wrap (plain (message e)) "connect to vpnkit"), dial path ∷ h)
  ]
  connect path (suc left) h = elim (s.fault h (dial path)) [
    | none ↦ (ok tt, dial path ∷ h)
    | some e ↦ connect path left (sleep 1 ∷ dial path ∷ h)
  ]

-- `json.Marshal` of the proxy configuration, which cannot fail, is a parameter.
module _ (s : System) (marshal : ProxyConfig → String) (env : Environ) where
  proxy_path : VpnKit → String
  proxy_path v = join_path (v.config.vpnkit_state_dir ∷ "http_proxy.json" ∷ [])

  proxy_config : VpnKit → ProxyConfig
  proxy_config v =
      build_proxy_config v.config.bosh_director_ip v.config.cf_router_ip v.config.host_ip env

  -- `writeHttpConfig`
  pub write_http_config : VpnKit → Run (Unit {0})
  unfolding trying step may_exist proxy_path proxy_config
  write_http_config v = do
    there ← trying s (stat (proxy_path v))
    if may_exist there
        then wrapping "Unable to remove 'http_proxy.json'" (step s (remove (proxy_path v)))
        else pure tt
    step s (write_file (proxy_path v) (marshal (proxy_config v)))

  eth_sock : VpnKit → String
  eth_sock v = join_path (v.config.vpnkit_state_dir ∷ "vpnkit_eth.sock" ∷ [])

  module _ (runner : DaemonRunner) where
    -- `Start`
    start : VpnKit → Run (Unit {0})
    unfolding daemon_spec eth_sock
    start v = do
      wrapping "Failed to Setup VPNKit" (write_http_config v)
      wrapping "install vpnkit" (runner.add_daemon (daemon_spec v))
      wrapping "start vpnkit" (runner.start v.label)
      connect s (eth_sock v) retries

    -- `Stop`
    stop : VpnKit → Run (Unit {0})
    stop v = runner.stop v.label

    -- `Destroy`
    destroy : VpnKit → Run (Unit {0})
    destroy v = runner.remove_daemon v.label
