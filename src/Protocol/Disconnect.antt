-- ===== src/Protocol/Disconnect.antt =====
-- fips/src/protocol/link.rs: the message `Disconnect` and the types of handshake messages.
use fips_native.Base.{
  ℕ, ◌≡◌, refl, arith, List, [], ◌∷◌, Bool, Option, none, some, ◌==◌, ◌||◌, if◌then◌else◌, drop,
  is_some,
}
use fips_native.Codec.Reader.{message_too_short, Outcome, ok, err}
use fips_native.Protocol.DisconnectReason.{DisconnectReason, from_byte, reason_iff}
use fips_native.Protocol.DisconnectReason
use fips_native.Protocol.LinkMessage

pub record Disconnect : Type 0 where
  pub reason : DisconnectReason

abbrev pub encode : Disconnect → List ℕ
encode m = LinkMessage.to_byte LinkMessage.disconnect ∷ DisconnectReason.to_byte m.reason ∷ []

-- A byte that names no reason reads as `other`.
unfoldable pub decode : List ℕ → Outcome Disconnect
decode [] = err (message_too_short 1 0)
decode (b ∷ rest) = elim (from_byte b) [
  | none ↦ ok (record { reason = DisconnectReason.other })
  | some reason ↦ ok (record { reason = reason })
]

decode-encode_disconnect : (m : Disconnect) → decode (drop 1 (encode m)) ≡ ok m
unfolding decode
decode-encode_disconnect m =
    rw (decode, (reason_iff (DisconnectReason.to_byte m.reason) m.reason).1 refl) refl

pub data HandshakeMessageType : Type 0 where
  noise_ik_msg1 noise_ik_msg2 : HandshakeMessageType

unfoldable pub handshake_from_byte : ℕ → Option HandshakeMessageType
handshake_from_byte b =
    if b == 0x01 then some noise_ik_msg1 else (if b == 0x02 then some noise_ik_msg2 else none)

unfoldable pub handshake_to_byte : HandshakeMessageType → ℕ
handshake_to_byte noise_ik_msg1 = 0x01
handshake_to_byte noise_ik_msg2 = 0x02

unfoldable pub is_handshake : ℕ → Bool
is_handshake b = (b == 0x01) || (b == 0x02)

-- The test on bytes holds of exactly the bytes that name a type.
is_handshake-from_byte : (b : ℕ) → is_handshake b ≡ is_some (handshake_from_byte b)
unfolding is_handshake handshake_from_byte
is_handshake-from_byte b = ground arith
