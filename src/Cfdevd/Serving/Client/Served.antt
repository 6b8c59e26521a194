-- ===== src/Cfdevd/Serving/Client/Served.antt =====
-- The client of cfdevd and the helper, talking to each other.
use cfdev.Common.{
  ◌≡◌, refl, ℕ, Option, none, some, List, [], ◌∷◌, ◌++◌, length, arith, inl, inr, Option-cases,
}
use cfdev.Errors.{Error, safe_nil, error}
use cfdev.Cfdevd.{Bytes, Handshake, marshal_handshake, unmarshal_command}
use cfdev.Cfdevd.Serving.{
  Host, Reply, status, addresses, remove_loopback_aliases, add_loopback_aliases, execute, serve,
  answer_command, greeting,
}
use cfdev.Cfdevd.Serving.Client
use cfdev.Cfdevd.Serving.Client.{Link, Sent, send, send_command, take_code, tolerate}

-- The handshake of `doHandshake`.
abbrev pub own : Handshake
own = record {
  magic = 67 ∷ 70 ∷ 68 ∷ 51 ∷ 86 ∷ [];
  version = 22;
  commit =
      let digits = 48 ∷ 49 ∷ 50 ∷ 51 ∷ 52 ∷ 53 ∷ 54 ∷ 55 ∷ 56 ∷ 57 ∷ [] in
      digits ++ digits ++ digits ++ digits;
}

abbrev all_messages : List Reply → Bytes
all_messages [] = []
all_messages (r ∷ rs) = r.message ++ all_messages rs

-- A connection to the helper.
abbrev pub served_by : Host → ℕ → Link
served_by y n = record {
  dial_error = none;
  hello_error = none;
  command_error = none;
  exchange = λ input. all_messages (serve y own input n);
}

-- What the client reports for what happened to the helper.
abbrev pub told : Option Error → Option Error
told none = none
told (some e) = some (safe_nil "failed to uninstall cfdevd: errorcode: 1")

module _ (y : Host) (n : ℕ) (a b c d e : ℕ) where
  abbrev name : Bytes
  name = a ∷ b ∷ c ∷ d ∷ e ∷ []

  uninstall_lem : (Client.uninstall (served_by y n) name).1 ≡ told (y.remove_daemon_error n)
  unfolding Client.uninstall send send_command take_code tolerate serve answer_command greeting
      marshal_handshake unmarshal_command execute status error
  uninstall_lem = elim (Option-cases (y.remove_daemon_error n)) [
    | inl done ↦ rw done refl
    | inr (x, failed) ↦ rw failed refl
  ]

  remove_ip_alias_lem :
      (Client.remove_ip_alias (served_by y n) name).1
      ≡ told (remove_loopback_aliases y addresses n).0
  unfolding Client.remove_ip_alias send send_command take_code tolerate serve answer_command
      greeting marshal_handshake unmarshal_command execute status error
  remove_ip_alias_lem = elim (Option-cases ((remove_loopback_aliases y addresses n).0)) [
    | inl done ↦ rw done refl
    | inr (x, failed) ↦ rw failed refl
  ]

  add_ip_alias_lem :
      (Client.add_ip_alias (served_by y n) name).1 ≡ told (add_loopback_aliases y addresses n).0
  unfolding Client.add_ip_alias send send_command take_code tolerate serve answer_command greeting
      marshal_handshake unmarshal_command execute status error
  add_ip_alias_lem = elim (Option-cases ((add_loopback_aliases y addresses n).0)) [
    | inl done ↦ rw done refl
    | inr (x, failed) ↦ rw failed refl
  ]

-- Connected to the helper, a client with a name of five bytes reports an error of each of its three
-- commands exactly if the command failed on the helper's host, and the error is the same for all.
pub client_served :
    (y : Host) (n : ℕ) (name : Bytes)
    → length name ≡ 5
    → ((Client.uninstall (served_by y n) name).1 ≡ told (y.remove_daemon_error n))
      × ((Client.remove_ip_alias (served_by y n) name).1
          ≡ told (remove_loopback_aliases y addresses n).0)
      × ((Client.add_ip_alias (served_by y n) name).1 ≡ told (add_loopback_aliases y addresses n).0)
client_served y n [] five = absurd (omega arith)
client_served y n (a ∷ []) five = absurd (omega arith)
client_served y n (a ∷ b ∷ []) five = absurd (omega arith)
client_served y n (a ∷ b ∷ c ∷ []) five = absurd (omega arith)
client_served y n (a ∷ b ∷ c ∷ d ∷ []) five = absurd (omega arith)
client_served y n (a ∷ b ∷ c ∷ d ∷ e ∷ []) five =
    (uninstall_lem y n a b c d e, remove_ip_alias_lem y n a b c d e, add_ip_alias_lem y n a b c d e)
client_served y n (a ∷ b ∷ c ∷ d ∷ e ∷ f ∷ name) five = absurd (omega arith)
