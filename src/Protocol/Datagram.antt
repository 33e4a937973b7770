-- ===== src/Protocol/Datagram.antt =====
-- fips/src/protocol/link.rs: `SessionDatagram`, the link message that carries session traffic.
use fips_native.Base.{
  ℕ, ◌-◌, ◌^◌, ◌<◌, ◌≡◌, ◌≢◌, inl, inr, arith, List, ◌∷◌, ◌++◌, Bool, true, false, ltb,
  if◌then◌else◌, length, drop, le→ltb, Bool-cases, ltb-false→le,
}
use fips_native.Codec.Bytes.{le_bytes, as_bytes, IsNodeAddr, length_uint, length_addr}
use fips_native.Codec.Reader.{
  message_too_short, Outcome, ok, err, panic, Reader, ◌>>=◌, pure, result, u8, uint, addr, rest,
  uint_written, addr_written,
}
use fips_native.Codec.Safety.{
  Safe, u8-Takes, uint-Takes, addr-Takes, pure-Safe, Safe-bind, rest-Safe, result-ne-panic,
}
use fips_native.Protocol.LinkMessage.{session_datagram, to_byte}

pub record SessionDatagram : Type 0 where
  pub src_addr : ℕ
  pub dest_addr : ℕ
  pub ttl : ℕ
  pub path_mtu : ℕ
  pub payload : List ℕ

-- The ranges of the field types.
pub record IsSessionDatagram (d : SessionDatagram) : Type 0 where
  pub src : IsNodeAddr d.src_addr
  pub dest : IsNodeAddr d.dest_addr
  pub ttl : d.ttl < 256
  pub path_mtu : d.path_mtu < 256 ^ 2

unfoldable pub new : ℕ → ℕ → List ℕ → SessionDatagram
new src dest p = record {
  src_addr = src;
  dest_addr = dest;
  ttl = 64;
  path_mtu = 0xffff;
  payload = p;
}

unfoldable decrement_ttl : SessionDatagram → SessionDatagram × Bool
decrement_ttl d = if ltb 0 d.ttl then (record d { ttl = d.ttl - 1 }, true) else (d, false)

unfoldable pub can_forward : SessionDatagram → Bool
can_forward d = ltb 0 d.ttl

unfoldable pub encode : SessionDatagram → List ℕ
encode d =
    to_byte session_datagram ∷ d.ttl ∷ le_bytes 2 d.path_mtu
    ++ (as_bytes d.src_addr ++ (as_bytes d.dest_addr ++ d.payload))

body : Reader SessionDatagram
body = do
  ttl ← u8
  path_mtu ← uint 2
  src ← addr
  dest ← addr
  p ← rest
  pure (record { src_addr = src; dest_addr = dest; ttl = ttl; path_mtu = path_mtu; payload = p })

unfoldable pub decode : List ℕ → Outcome SessionDatagram
unfolding body rest
decode payload =
    if ltb (length payload) 35
    then err (message_too_short 35 (length payload))
    else result (body payload)

-- A datagram with fields in range is decoded back, less its type byte.
pub decode-encode_datagram :
    (d : SessionDatagram) → IsSessionDatagram d → decode (drop 1 (encode d)) ≡ ok d
unfolding decode encode u8
decode-encode_datagram d v =
    rw (le→ltb (length (drop 1 (encode d))) 35 (omega (arith, length_uint, length_addr))) (
      simp (
        ◌>>=◌,
        uint_written 2 d.path_mtu v.path_mtu,
        addr_written d.src_addr v.src,
        addr_written d.dest_addr v.dest,
      ))

-- `decode` of a Datagram panics on no input.
pub decode_datagram-ne-panic : (p : List ℕ) → decode p ≢ panic
unfolding decode
decode_datagram-ne-panic p = elim (Bool-cases (ltb (length p) 35)) [
  | inl short ↦ rw short (λ e. cc)
  | inr enough ↦ rw enough (result-ne-panic (body p) (body-Safe p (ltb-false→le _ _ enough)))
]
  where
    body-Safe : Safe 35 body
    body-Safe = Safe-bind 1 34 u8 _ u8-Takes λ ttl. Safe-bind 2 32 (uint 2) _ (uint-Takes 2) λ m.
        Safe-bind 16 16 addr _ addr-Takes
          λ s. Safe-bind 16 0 addr _ addr-Takes λ t. rest-Safe _ λ q. pure-Safe _
