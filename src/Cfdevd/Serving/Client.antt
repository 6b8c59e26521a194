-- ===== src/Cfdevd/Serving/Client.antt =====
-- cfdevd/client/client.go: the client of the privileged helper.
pub mod Served
use cfdev.Common.{
  ℕ, zero, suc, ◌+◌, ◌/◌, ◌%◌, String, ◌<>◌, Bool, true, false, not, ◌||◌, Option, none, some, List,
  [], ◌∷◌, ◌++◌, ◌==◌, ltb, if◌then◌else◌,
}
use cfdev.Common.Decimal.{digit}
use cfdev.Common.Text.{codes, has_prefix}
use cfdev.Errors.{Error, plain, safe_nil, safe_wrap, error}
use cfdev.Cfdevd.{Bytes, take, drop, byte, read}

-- A connection: what dialling and the two writes come to, and the bytes that come back for all that
-- has been sent.
pub record Link : Type 0 where
  pub dial_error : Option Error
  pub hello_error : Option Error
  pub command_error : Option Error
  pub exchange : Bytes → Bytes

abbrev zeros : ℕ → Bytes
zeros zero = []
zeros (suc n) = 0 ∷ zeros n

abbrev pub hello : Bytes → Bytes
hello name = name ++ zeros 44

-- A byte in decimal.
abbrev pub decimal : ℕ → String
decimal n =
    if ltb n 10
    then digit n
    else if ltb n 100
    then digit (n / 10) <> digit (n % 10)
    else digit (n / 100) <> (digit (n / 10 % 10) <> digit (n % 10))

abbrev connect_msg : String
connect_msg = "connecting to cfdevd"

abbrev exit_code_msg : String
exit_code_msg = "reading errorcode from cfdevd"

abbrev eof : Error
eof = plain "EOF"

abbrev pub Sent : Type 0
Sent = Bytes × Option Error

-- The name of the server, and what the exit code says.
take_code : Bytes → Option Bytes → Sent
take_code server none = (server, some (safe_wrap eof exit_code_msg))
take_code server (some code) = if byte 0 code == 0 then (server, none) else (
  server,
  some (safe_nil ("failed to uninstall cfdevd: errorcode: " <> decimal (byte 0 code))),
)

send_command : Link → Bytes → ℕ → Option Bytes → Sent
unfolding take_code
send_command link name command none = ([], some (safe_wrap eof "reading handshake from cfdevd"))
send_command link name command (some handshake) = elim (link.command_error) [
  | some e ↦ (take 5 handshake, some (safe_wrap e "sending command to cfdevd"))
  | none ↦
      take_code (take 5 handshake) (read 1 (drop 49 (link.exchange (hello name ++ command ∷ [])))).0
]

-- `Send`, by the client's name of five bytes.
pub send : Link → Bytes → ℕ → Sent
unfolding send_command
send link name command = elim (link.dial_error) [
  | some e ↦ ([], some (safe_wrap e connect_msg))
  | none ↦ elim (link.hello_error) [
    | some e ↦ ([], some (safe_wrap e "sending handshake to cfdevd"))
    | none ↦ send_command link name command (read 49 (link.exchange (hello name))).0
  ]
]

-- A helper that is not there, or goes away before it answers, is no error.
tolerate : Option Error → Option Error
tolerate none = none
tolerate (some e) =
    if has_prefix (codes (error e)) (codes exit_code_msg)
      || has_prefix (codes (error e)) (codes connect_msg)
    then none
    else some e

-- `Uninstall`, `RemoveIPAlias` and `AddIPAlias`
pub uninstall : Link → Bytes → Sent
unfolding send tolerate
uninstall link name = let (server, failed) = send link name 1 in (server, tolerate failed)

pub remove_ip_alias : Link → Bytes → Sent
unfolding send tolerate
remove_ip_alias link name = let (server, failed) = send link name 2 in (server, tolerate failed)

pub add_ip_alias : Link → Bytes → Sent
unfolding send tolerate
add_ip_alias link name = let (server, failed) = send link name 3 in (server, tolerate failed)
