-- ===== src/Cfdevd/Serving.antt =====
-- cfdevd/cmd, cfdevd/networkd and the loop of cfdevd/main.go: what the privileged helper does on the
-- host for each command, and what it writes to one connection.
pub mod Binding
pub mod Aliases
pub mod Client
mod Tests
use cfdev.Common.{
  ℕ, zero, suc, ◌+◌, ◌*◌, ◌/◌, ◌%◌, ◌^◌, String, ◌<>◌, Bool, true, false, not, ◌&&◌, ◌||◌, Option,
  none, some, List, [], ◌∷◌, ◌++◌, ◌==◌, leb, length, if◌then◌else◌,
}
use cfdev.Common.Text.{codes, contains}
use cfdev.Errors.{Error, plain, error}
use cfdev.Runtime.{Result, ok, err}
use cfdev.Cfdevd.{
  Bytes, take, drop, byte, Handshake, little_endian, to_uint32, unmarshal_handshake,
  marshal_handshake, Command, read, or_zeros, unmarshal_bind_command, unmarshal_command, bind,
  uninstall, remove_ip_alias, add_ip_alias, unimplemented,
}

-- What `net.ListenTCP` and `File` come to: a socket, or an error with its system error if it has
-- one.
pub data Bound : Type 0 where
  socket : ℕ → Bound
  in_use not_available other_system_error not_a_system_error : Bound

-- What is written to the connection: bytes, and the socket that goes with them.
pub record Reply : Type 0 where
  pub message : Bytes
  pub rights : Option ℕ

-- What the operating system answers. The clock counts the answers.
pub record Host : Type 0 where
  pub bind_result : ℕ → Bytes → ℕ → Bound
  pub remove_daemon_error : ℕ → Option Error
  pub interface_addrs : ℕ → Result (List String)
  pub remove_alias_error : ℕ → String → Option Error
  pub add_alias_error : ℕ → String → Option Error

abbrev pub bosh_ip : Bytes
bosh_ip = 10 ∷ 144 ∷ 0 ∷ 4 ∷ []

abbrev pub gorouter_ip : Bytes
gorouter_ip = 10 ∷ 144 ∷ 0 ∷ 34 ∷ []

same_bytes : Bytes → Bytes → Bool
same_bytes [] [] = true
same_bytes [] (y ∷ ys) = false
same_bytes (x ∷ xs) [] = false
same_bytes (x ∷ xs) (y ∷ ys) = x == y && same_bytes xs ys

-- `isIPAllowed`
pub is_ip_allowed : Bytes → Bool
unfolding same_bytes
is_ip_allowed ip = same_bytes bosh_ip ip || same_bytes gorouter_ip ip

-- A message of eight bytes with a code.
abbrev pub coded : ℕ → Bytes
coded code = code ∷ 0 ∷ 0 ∷ 0 ∷ 0 ∷ 0 ∷ 0 ∷ 0 ∷ []

-- `response`
pub response : Bound → Reply
response (socket fd) = record { message = coded 0; rights = some fd }
response in_use = record { message = coded 48; rights = none }
response not_available = record { message = coded 49; rights = none }
response other_system_error = record { message = coded 66; rights = none }
response not_a_system_error = record { message = coded 0; rights = none }

abbrev pub one_byte : ℕ → Reply
one_byte code = record { message = code ∷ []; rights = none }

status : Option Error → Reply
status none = one_byte 0
status (some e) = one_byte 1

-- `BOSH_IP` and `GOROUTER_IP`
abbrev pub addresses : List String
addresses = "10.144.0.4" ∷ "10.144.0.34" ∷ []

-- `strings.Contains(addr.String(), alias)` for some address.
mentioned_in : List String → String → Bool
mentioned_in [] alias = false
mentioned_in (addr ∷ addrs) alias = contains (codes addr) (codes alias) || mentioned_in addrs alias

module _ (y : Host) where
  -- `aliasExists`
  pub alias_exists : ℕ → String → Result Bool
  unfolding mentioned_in
  alias_exists n alias = elim (y.interface_addrs n) [
    | err e ↦ err (plain ("getting interface addrs: " <> error e))
    | ok addrs ↦ ok (mentioned_in addrs alias)
  ]

  -- What is left of `RemoveLoopbackAliases` after an address was looked up.
  pub after_lookup : String → (ℕ → Option Error × ℕ) → Result Bool → ℕ → Option Error × ℕ
  after_lookup addr again (err e) n = (some e, n)
  after_lookup addr again (ok false) n = again n
  after_lookup addr again (ok true) n = elim (y.remove_alias_error n addr) [
    | some e ↦ (some (plain ("removing alias " <> addr <> ": " <> error e)), n + 1)
    | none ↦ again (n + 1)
  ]

  -- `RemoveLoopbackAliases`, with the clock.
  pub remove_loopback_aliases : List String → ℕ → Option Error × ℕ
  unfolding after_lookup
  remove_loopback_aliases [] n = (none, n)
  remove_loopback_aliases (addr ∷ addrs) n =
      after_lookup addr (remove_loopback_aliases addrs) (alias_exists n addr) (n + 1)

  -- The same for `AddLoopbackAliases` of networkd.
  pub after_search : String → (ℕ → Option Error × ℕ) → Result Bool → ℕ → Option Error × ℕ
  after_search addr again (err e) n = (some e, n)
  after_search addr again (ok true) n = again n
  after_search addr again (ok false) n = elim (y.add_alias_error n addr) [
    | some e ↦ (some e, n + 1)
    | none ↦ again (n + 1)
  ]

  pub add_loopback_aliases : List String → ℕ → Option Error × ℕ
  unfolding after_search
  add_loopback_aliases [] n = (none, n)
  add_loopback_aliases (addr ∷ addrs) n =
      after_search addr (add_loopback_aliases addrs) (alias_exists n addr) (n + 1)

  -- The `Execute` methods.
  execute_bind : Bytes → ℕ → ℕ → Reply
  unfolding response is_ip_allowed
  execute_bind ip port n =
      if is_ip_allowed ip
      then response (y.bind_result n ip port)
      else record { message = coded 71; rights = none }

  execute_uninstall : ℕ → Reply
  unfolding status
  execute_uninstall n = status (y.remove_daemon_error n)

  execute_remove_ip_alias : ℕ → Reply
  unfolding remove_loopback_aliases status
  execute_remove_ip_alias n = status (remove_loopback_aliases addresses n).0

  execute_add_ip_alias : ℕ → Reply
  unfolding add_loopback_aliases status
  execute_add_ip_alias n = status (add_loopback_aliases addresses n).0

  execute_unimplemented : ℕ → Reply
  execute_unimplemented instr = one_byte 33

  pub execute : Command → ℕ → Reply
  unfolding execute_bind execute_uninstall execute_remove_ip_alias execute_add_ip_alias
      execute_unimplemented
  execute (bind ip port) n = execute_bind ip port n
  execute uninstall n = execute_uninstall n
  execute remove_ip_alias n = execute_remove_ip_alias n
  execute add_ip_alias n = execute_add_ip_alias n
  execute (unimplemented instr) n = execute_unimplemented instr

  -- What one connection of `listenAndServe` writes: the handshake, and the answer to the command.
  answer_command : Result Command → ℕ → List Reply
  unfolding execute
  answer_command (err e) n = []
  answer_command (ok c) n = execute c n ∷ []

  greeting : Option Bytes → List Reply → List Reply
  greeting none rest = []
  greeting (some hello) rest = record { message = hello; rights = none } ∷ rest

  pub serve : Handshake → Bytes → ℕ → List Reply
  unfolding answer_command greeting marshal_handshake unmarshal_command
  serve own input n =
      if leb 49 (length input)
      then greeting (marshal_handshake own) (answer_command (unmarshal_command (drop 49 input)) n)
      else []
