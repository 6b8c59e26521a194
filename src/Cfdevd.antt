-- ===== src/Cfdevd.antt =====
-- cfdevd: the helper that runs with privileges on macOS. A client connects, shakes hands, and sends
-- one command; the helper answers with bytes, and, for a bind, with a socket.
pub mod Install
pub mod TimeSync
pub mod Handshaking
pub mod Serving
use cfdev.Common.{
  ℕ, zero, suc, ◌+◌, ◌*◌, ◌/◌, ◌%◌, ◌^◌, String, ◌<>◌, Bool, true, false, not, ◌&&◌, ◌||◌, Option,
  none, some, List, [], ◌∷◌, ◌++◌, ◌==◌, leb, length, if◌then◌else◌,
}
use cfdev.Common.Text.{codes, contains}
use cfdev.Errors.{Error, plain, error}
use cfdev.Runtime.{Result, ok, err}

abbrev pub Bytes : Type 0
Bytes = List ℕ

abbrev pub take : ℕ → Bytes → Bytes
take zero xs = []
take (suc n) [] = []
take (suc n) (x ∷ xs) = x ∷ take n xs

abbrev pub drop : ℕ → Bytes → Bytes
drop zero xs = xs
drop (suc n) [] = []
drop (suc n) (x ∷ xs) = drop n xs

-- The k-th byte, 0 where there is none.
abbrev pub byte : ℕ → Bytes → ℕ
byte k [] = 0
byte zero (x ∷ xs) = x
byte (suc k) (x ∷ xs) = byte k xs

-- handshake.go: a text is its bytes.
pub record Handshake : Type 0 where
  pub magic : Bytes
  pub version : ℕ
  pub commit : Bytes

abbrev pub little_endian : ℕ → Bytes
little_endian v = v % 256 ∷ v / 256 % 256 ∷ v / 65536 % 256 ∷ v / 16777216 % 256 ∷ []

-- `binary.LittleEndian.Uint32` of the first four bytes.
abbrev pub to_uint32 : Bytes → ℕ
to_uint32 b = byte 0 b + 256 * byte 1 b + 65536 * byte 2 b + 16777216 * byte 3 b

-- `unmarshalHandshake`; fewer than 40 bytes are a panic.
pub unmarshal_handshake : Bytes → Option Handshake
unmarshal_handshake bytes =
    if leb 40 (length bytes)
    then some (record {
      magic = take 5 bytes;
      version = to_uint32 (drop 5 bytes);
      commit = take 31 (drop 9 bytes);
    })
    else none

-- `marshalHandshake`: the version is put at the sixth byte, and there is a panic if it does not fit.
pub marshal_handshake : Handshake → Option Bytes
marshal_handshake hsk =
    let bytes = hsk.magic ++ 0 ∷ 0 ∷ 0 ∷ 0 ∷ [] in
    if leb 9 (length bytes)
    then some (take 5 bytes ++ (little_endian hsk.version ++ drop 9 bytes) ++ hsk.commit)
    else none

-- cmd.go: `Addr` is the four bytes of the address, the first one first, and the port.
pub data Command : Type 0 where
  bind : Bytes → ℕ → Command
  uninstall remove_ip_alias add_ip_alias : Command
  unimplemented : ℕ → Command

-- `binary.Read`: so many bytes, or none and the connection at its end.
abbrev pub read : ℕ → Bytes → Option Bytes × Bytes
read n input = if leb n (length input) then (some (take n input), drop n input) else (none, [])

abbrev pub or_zeros : Option Bytes → Bytes
or_zeros none = []
or_zeros (some b) = b

-- `UnmarshalBindCommand`: what is not there reads as 0.
pub unmarshal_bind_command : Bytes → Result Command
unmarshal_bind_command input =
    let (ip, input) = read 4 input in
    let (port, input) = read 2 input in
    let (udp, input) = read 1 input in
    let ip = or_zeros ip in
    if not (byte 0 (or_zeros udp) == 0)
    then err (plain "Unimplemented UDP socket requested")
    else ok (
        bind (byte 3 ip ∷ byte 2 ip ∷ byte 1 ip ∷ byte 0 ip ∷ [])
          (byte 0 (or_zeros port) + 256 * byte 1 (or_zeros port)))

-- `UnmarshalCommand`
pub unmarshal_command : Bytes → Result Command
unfolding unmarshal_bind_command
unmarshal_command input =
    let (instr, rest) = read 1 input in
    let instr = byte 0 (or_zeros instr) in
    if instr == 6
    then unmarshal_bind_command rest
    else if instr == 1
    then ok uninstall
    else if instr == 2
    then ok remove_ip_alias
    else if instr == 3
    then ok add_ip_alias
    else ok (unimplemented instr)
