-- ===== src/Cfdevd/Serving/Tests.antt =====
-- The theorems on the privileged helper at concrete clients and hosts.
use cfdev.Common.{◌≡◌, refl, none, some, [], ◌∷◌, ◌++◌, All, arith}
use cfdev.Runtime.{ok}
use cfdev.Cfdevd.{Bytes, take, drop, Handshake, unmarshal_command, marshal_handshake}
use cfdev.Cfdevd.Serving.{
  add_loopback_aliases, Host, socket, serve, addresses, alias_exists, mentioned_in, after_lookup,
  remove_loopback_aliases,
}
use cfdev.Cfdevd.Handshaking.{parsed, unmarshal_handshake-marshal_handshake}
use cfdev.Cfdevd.Serving.Binding.{IsEntitled, serve-IsEntitled}
use cfdev.Cfdevd.Serving.Client
use cfdev.Cfdevd.Serving.Client.Served.{served_by, told, client_served}
use cfdev.Cfdevd.Serving.Aliases.{AreGone, remove_loopback_aliases-AreGone}

abbrev digits : Bytes
digits = 48 ∷ 49 ∷ 50 ∷ 51 ∷ 52 ∷ 53 ∷ 54 ∷ 55 ∷ 56 ∷ 57 ∷ []

-- The handshake that the helper sends.
abbrev own : Handshake
own = record {
  magic = 67 ∷ 70 ∷ 68 ∷ 51 ∷ 86 ∷ [];
  version = 22;
  commit = digits ++ digits ++ digits ++ digits;
}

unmarshal_handshake-marshal_handshake_example :
    parsed (marshal_handshake own) ≡ some (record own { commit = take 31 own.commit })
unmarshal_handshake-marshal_handshake_example =
    unmarshal_handshake-marshal_handshake own refl (omega arith) (omega arith)

-- A host where one alias exists, and every request is granted.
abbrev host : Host
host = record {
  bind_result = λ n ip port. socket 7;
  remove_daemon_error = λ n. none;
  interface_addrs = λ n. ok ("10.144.0.4/32" ∷ []);
  remove_alias_error = λ n addr. none;
  add_alias_error = λ n addr. none;
}

-- A handshake, and a request to bind 10.144.0.4 at port 80.
abbrev request : Bytes
request = own.magic ++ 0 ∷ 0 ∷ 0 ∷ 0 ∷ (own.commit ++ 6 ∷ 4 ∷ 0 ∷ 144 ∷ 10 ∷ 80 ∷ 0 ∷ 0 ∷ [])

serve-IsEntitled_example :
    All (IsEntitled (unmarshal_command (drop 49 request))) (serve host own request 0)
serve-IsEntitled_example = serve-IsEntitled host own request 0

remove_loopback_aliases-AreGone_example :
    AreGone host addresses 0 (remove_loopback_aliases host addresses 0).1
unfolding remove_loopback_aliases after_lookup alias_exists mentioned_in
remove_loopback_aliases-AreGone_example = remove_loopback_aliases-AreGone host addresses 0 refl

client_served_example :
    ((Client.uninstall (served_by host 0) (67 ∷ 70 ∷ 68 ∷ 86 ∷ 32 ∷ [])).1
      ≡ told (host.remove_daemon_error 0))
    × ((Client.remove_ip_alias (served_by host 0) (67 ∷ 70 ∷ 68 ∷ 86 ∷ 32 ∷ [])).1
        ≡ told (remove_loopback_aliases host addresses 0).0)
    × ((Client.add_ip_alias (served_by host 0) (67 ∷ 70 ∷ 68 ∷ 86 ∷ 32 ∷ [])).1
        ≡ told (add_loopback_aliases host addresses 0).0)
client_served_example = client_served host 0 (67 ∷ 70 ∷ 68 ∷ 86 ∷ 32 ∷ []) refl
