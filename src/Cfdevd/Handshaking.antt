-- ===== src/Cfdevd/Handshaking.antt =====
-- The handshake of cfdevd/handshake.go as bytes.
use cfdev.Common.{
  ◌≡◌, refl, ℕ, ◌^◌, ◌≤◌, ◌<◌, true, Option, none, some, [], ◌∷◌, ◌++◌, arith, leb, length,
}
use cfdev.Cfdevd.{
  Bytes, take, Handshake, little_endian, to_uint32, marshal_handshake, unmarshal_handshake,
}

-- What comes of bytes that may not be there.
abbrev pub parsed : Option Bytes → Option Handshake
parsed none = none
parsed (some b) = unmarshal_handshake b

to_uint32-little_endian :
    (v : ℕ) (rest : Bytes) → v < 2 ^ 32 → to_uint32 (little_endian v ++ rest) ≡ v
to_uint32-little_endian v rest h = omega arith

long_enough :
    (a b c d e : ℕ) (v : ℕ) (k : Bytes)
    → 31 ≤ length k
    → leb 40 (length (a ∷ b ∷ c ∷ d ∷ e ∷ little_endian v ++ k)) ≡ true
long_enough a b c d e v k long = ground arith

fields_lem :
    (m : Bytes) (v : ℕ) (k : Bytes)
    → length m ≡ 5
    → v < 2 ^ 32
    → 31 ≤ length k
    → parsed (marshal_handshake (record { magic = m; version = v; commit = k }))
      ≡ some (record { magic = m; version = v; commit = take 31 k })
unfolding marshal_handshake unmarshal_handshake
fields_lem [] v k five small long = absurd (omega arith)
fields_lem (a ∷ []) v k five small long = absurd (omega arith)
fields_lem (a ∷ b ∷ []) v k five small long = absurd (omega arith)
fields_lem (a ∷ b ∷ c ∷ []) v k five small long = absurd (omega arith)
fields_lem (a ∷ b ∷ c ∷ d ∷ []) v k five small long = absurd (omega arith)
fields_lem (a ∷ b ∷ c ∷ d ∷ e ∷ []) v k five small long =
    rw (long_enough a b c d e v k long, to_uint32-little_endian v k small) refl
fields_lem (a ∷ b ∷ c ∷ d ∷ e ∷ f ∷ m) v k five small long = absurd (omega arith)

-- A handshake whose magic has five bytes, whose version fits in 32 bits and whose commit has at
-- least 31 bytes is read back with its magic and its version; of the commit only the first 31 bytes
-- come back.
pub unmarshal_handshake-marshal_handshake :
    (hsk : Handshake)
    → length hsk.magic ≡ 5
    → hsk.version < 2 ^ 32
    → 31 ≤ length hsk.commit
    → parsed (marshal_handshake hsk) ≡ some (record hsk { commit = take 31 hsk.commit })
unmarshal_handshake-marshal_handshake hsk five small long =
    fields_lem hsk.magic hsk.version hsk.commit five small long
