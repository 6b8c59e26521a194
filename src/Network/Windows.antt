-- ===== src/Network/Windows.antt =====
-- network/vpnkit_windows.go: vpnkit on Windows, which Hyper-V sockets connect.
use cfdev.Common.{
  String, ◌<>◌, Bool, true, false, Option, none, some, List, [], ◌∷◌, ◌=s◌, if◌then◌else◌,
}
use cfdev.Common.Environment.{Environ}
use cfdev.Common.Paths.{join_path}
use cfdev.Common.Text.Fields.{trimmed, scan_lines}
use cfdev.Env.{ProxyConfig}
use cfdev.Runtime.{◌>>=◌, ◌>>◌, pure, wrapping}
use cfdev.System.{
  System, Run, Fault, stat, create, remove_all, write_file, step, trying, ignoring, observing,
  prefixing, powershell,
}
use cfdev.Daemons.{DaemonSpec, DaemonRunner}
use cfdev.Network.{VpnKit}
use cfdev.Network.Darwin.{write_http_config}

abbrev services_key : String
services_key =
    "HKLM:\\SOFTWARE\\Microsoft\\Windows NT\\CurrentVersion\\Virtualization\\GuestCommunicationServices"

-- `registryDeleteCmd`
abbrev registry_delete_cmd : String
registry_delete_cmd =
    "Get-ChildItem \"" <> services_key
    <> "\" | Where-Object { $_.GetValue(\"ElementName\") -match \"CF Dev VPNKit\" } | "
    <> "Foreach-Object { Remove-Item (Join-Path \"" <> services_key <> "\" $_.PSChildName) }"

abbrev register_cmd : String → String → String
register_cmd guid name =
    "$ethService = New-Item -Path \"" <> services_key <> "\" -Name " <> guid
    <> ";\n             $ethService.SetValue(\"ElementName\", \"CF Dev VPNkit " <> name
    <> " Service\" )"

-- `daemonSpec`
daemon_spec : VpnKit → String → DaemonSpec
daemon_spec v vm_guid = record {
  label = v.label;
  program = join_path (v.config.cache_dir ∷ "vpnkit.exe" ∷ []);
  session_type = "";
  program_arguments =
      ("--ethernet hyperv-connect://" <> vm_guid <> "/" <> v.ethernet_guid)
      ∷ ("--port hyperv-connect://" <> vm_guid <> "/" <> v.port_guid)
      ∷ ("--port hyperv-connect://" <> vm_guid <> "/" <> v.forwarder_guid)
      ∷ ("--dns " <> join_path (v.config.cfdev_home ∷ "resolv.conf" ∷ []))
      ∷ ("--dhcp " <> join_path (v.config.cfdev_home ∷ "dhcp.json" ∷ []))
      ∷ "--http"
      ∷ join_path (v.config.vpnkit_state_dir ∷ "http_proxy.json" ∷ [])
      ∷ "--host-names host.cfdev.sh"
      ∷ [];
  run_at_load = false;
  sockets = [];
  stdout_path = join_path (v.config.log_dir ∷ "vpnkit.stdout.log" ∷ []);
  stderr_path = join_path (v.config.log_dir ∷ "vpnkit.stderr.log" ∷ []);
}

-- The text of resolv.conf.
name_servers : List String → String
name_servers [] = ""
name_servers (line ∷ lines) = "nameserver " <> line <> "\r\n" <> name_servers lines

-- The document of dhcp.json.
pub record Dhcp : Type 0 where
  pub search_domains : List String
  pub domain_name : String

-- The lines that are more than space.
search_domains : List String → List String
search_domains [] = []
search_domains (line ∷ lines) =
    let rest = search_domains lines in if trimmed line =s "" then rest else line ∷ rest

last_of : List String → String
last_of [] = ""
last_of (d ∷ []) = d
last_of (d ∷ e ∷ ds) = last_of (e ∷ ds)

dhcp_of : List String → Dhcp
unfolding search_domains last_of
dhcp_of lines = record {
  search_domains = search_domains lines;
  domain_name = last_of (search_domains lines);
}

is_there : Option Fault → Bool
is_there none = true
is_there (some e) = false

module _ (s : System) where
  -- `fileExists`, and `os.RemoveAll` where it holds.
  clear_file : String → Run (Unit {0})
  unfolding trying ignoring is_there
  clear_file path = do
    there ← trying s (stat path)
    if is_there there then ignoring s (remove_all path) else pure ""
    pure tt

  -- `registerGUID`
  register_guid : String → String → Run (Unit {0})
  unfolding powershell
  register_guid guid name = do _out ← powershell s (register_cmd guid name); pure tt

  -- `registerServiceGUIDs`
  register_service_guids : VpnKit → Run (Unit {0})
  register_service_guids v = do
    register_guid v.ethernet_guid "Ethernet"
    register_guid v.port_guid "Port"
    register_guid v.forwarder_guid "Forwarder"

  -- `writeResolvConf`
  write_resolv_conf : VpnKit → Run (Unit {0})
  unfolding prefixing powershell step name_servers
  write_resolv_conf v = do
    dns ← prefixing "getting dns client server addresses" (
        powershell s
          "get-dnsclientserveraddress -family ipv4 | select-object -expandproperty serveraddresses")
    clear_file (join_path (v.config.cfdev_home ∷ "resolv.conf" ∷ []))
    step s (
        write_file (join_path (v.config.cfdev_home ∷ "resolv.conf" ∷ []))
          (name_servers (scan_lines dns)))

  -- The document that `json.Encoder` writes is a parameter.
  module _ (encode : Dhcp → String) where
    -- `writeDHCPJSON`
    write_dhcp_json : VpnKit → Run (Unit {0})
    unfolding prefixing powershell step dhcp_of
    write_dhcp_json v = do
      dhcp ←
          prefixing "get dns client"
            (powershell s "get-dnsclient | select-object -expandproperty connectionspecificsuffix")
      clear_file (join_path (v.config.cfdev_home ∷ "dhcp.json" ∷ []))
      prefixing "creating dhcp.json"
          (step s (create (join_path (v.config.cfdev_home ∷ "dhcp.json" ∷ []))))
      step s (
          write_file (join_path (v.config.cfdev_home ∷ "dhcp.json" ∷ []))
            (encode (dhcp_of (scan_lines dhcp))))

    module _ (marshal : ProxyConfig → String) (env : Environ) where
      -- `Setup`
      setup : VpnKit → Run (Unit {0})
      unfolding prefixing
      setup v = do
        prefixing "generating service guids" (register_service_guids v)
        write_http_config s marshal env v
        prefixing "writing resolv.conf" (write_resolv_conf v)
        prefixing "writing dhcp.json" (write_dhcp_json v)

      module _ (runner : DaemonRunner) where
        -- `Start`
        start : VpnKit → Run (Unit {0})
        unfolding prefixing powershell daemon_spec
        start v = do
          wrapping "Failed to Setup VPNKit" (setup v)
          out ← prefixing "get vm name" (powershell s "((Get-VM -Name cfdev).Id).Guid")
          wrapping "install vpnkit" (runner.add_daemon (daemon_spec v (trimmed out)))
          wrapping "start vpnkit" (runner.start v.label)

        -- `Destroy`
        destroy : VpnKit → Run (Unit {0})
        unfolding observing prefixing powershell
        destroy v = do
          _removed ← observing (runner.remove_daemon v.label)
          _out ← prefixing "failed to remove service registries" (powershell s registry_delete_cmd)
          pure tt
