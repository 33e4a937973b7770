-- ===== src/Protocol/LookupRequest.antt =====
-- fips/src/protocol/discovery.rs: `LookupRequest`.
use fips_native.Base.{
  ℕ, ◌-◌, ◌^◌, ◌≤◌, ◌<◌, ◌≡◌, ◌≢◌, inl, inr, arith, List, [], ◌∷◌, ◌++◌, ltb, ◌==◌, if◌then◌else◌,
  length, length-append, drop, le→ltb, ltb-false→le, Bool-cases, Bool, true, false,
}
use fips_native.Codec.Bytes.{le_bytes, as_bytes, IsNodeAddr, length_uint, length_addr}
use fips_native.Codec.Reader.{
  message_too_short, Outcome, ok, err, panic, Reader, ◌>>=◌, pure, result, u8, uint, addr,
  uint_written, addr_written,
}
use fips_native.Codec.Safety.{
  Safe, u8-Takes, uint-Takes, addr-Takes, pure-Safe, Safe-bind, Safe-then, result-ne-panic,
}
use fips_native.Tree.Coordinate.{TreeCoordinate}
use fips_native.Protocol.Coords.{
  encode_coords, decode_coords, without_meta, IsWireCoordinate, coords_wire_size,
  length-encode_coords, coords_written, decode_coords-Safe,
}

pub record LookupRequest : Type 0 where
  pub request_id : ℕ
  pub target : ℕ
  pub origin : ℕ
  pub origin_coords : TreeCoordinate
  pub ttl : ℕ
  pub min_mtu : ℕ

unfoldable pub new : ℕ → ℕ → ℕ → TreeCoordinate → ℕ → ℕ → LookupRequest
new id target origin coords ttl mtu = record {
  request_id = id;
  target = target;
  origin = origin;
  origin_coords = coords;
  ttl = ttl;
  min_mtu = mtu;
}

-- The request, and whether it may go on.
unfoldable forward : LookupRequest → LookupRequest × Bool
forward m = if m.ttl == 0 then (m, false) else (record m { ttl = m.ttl - 1 }, true)

unfoldable pub can_forward : LookupRequest → Bool
can_forward m = ltb 0 m.ttl

unfoldable pub encode : LookupRequest → List ℕ
encode m =
    0x30
    ∷ (le_bytes 8 m.request_id
        ++ (as_bytes m.target
            ++ (as_bytes m.origin
                ++ (m.ttl ∷ (le_bytes 2 m.min_mtu ++ (encode_coords m.origin_coords ++ []))))))

body : Reader LookupRequest
body = do
  request_id ← uint 8
  target ← addr
  origin ← addr
  ttl ← u8
  min_mtu ← uint 2
  c ← decode_coords
  pure (record {
    request_id = request_id;
    target = target;
    origin = origin;
    origin_coords = c;
    ttl = ttl;
    min_mtu = min_mtu;
  })

unfoldable pub decode : List ℕ → Outcome LookupRequest
unfolding body
decode payload =
    if ltb (length payload) 45
    then err (message_too_short 45 (length payload))
    else result (body payload)

-- The ranges of the field types, and coordinates that fit the wire format.
pub record IsLookupRequest (m : LookupRequest) : Type 0 where
  pub request_id : m.request_id < 256 ^ 8
  pub target : IsNodeAddr m.target
  pub origin : IsNodeAddr m.origin
  pub min_mtu : m.min_mtu < 256 ^ 2
  pub coords : IsWireCoordinate m.origin_coords

-- A request with fields in range is decoded back, less its type byte; its coordinates keep their
-- addresses only.
pub decode-encode_lookup_request :
    (m : LookupRequest)
    → IsLookupRequest m
    → decode (drop 1 (encode m)) ≡ ok (record m { origin_coords = without_meta m.origin_coords })
unfolding decode encode u8
decode-encode_lookup_request m v =
    rw
      (le→ltb (length (drop 1 (encode m))) 45 (
        omega (
          arith,
          length_addr,
          length_uint,
          length-append (encode_coords m.origin_coords) [],
          length-encode_coords m.origin_coords,
          size-two m.origin_coords,
        )))
      (simp (
        ◌>>=◌,
        uint_written 8 m.request_id v.request_id,
        addr_written m.target v.target,
        addr_written m.origin v.origin,
        uint_written 2 m.min_mtu v.min_mtu,
        coords_written m.origin_coords v.coords,
      ))
  where
    size-two : (c : TreeCoordinate) → 2 ≤ coords_wire_size c
    size-two c = unfold coords_wire_size in omega arith

-- A request is forwarded exactly when hops are left, and then one hop fewer is left.
forward_lem :
    (m : LookupRequest)
    → ((forward m).1 ≡ can_forward m) × ((forward m).0 ≡ record m { ttl = m.ttl - 1 })
unfolding forward can_forward
forward_lem m = ground arith

-- `decode` of a LookupRequest panics on no input.
pub decode_lookup_request-ne-panic : (p : List ℕ) → decode p ≢ panic
unfolding decode
decode_lookup_request-ne-panic p = elim (Bool-cases (ltb (length p) 45)) [
  | inl short ↦ rw short (λ e. cc)
  | inr enough ↦
      rw enough
        (result-ne-panic (body p) (body-Safe p (omega (arith, ltb-false→le (length p) 45 enough))))
]
  where
    body-Safe : Safe 43 body
    body-Safe = Safe-bind 8 35 (uint 8) _ (uint-Takes 8) λ id.
        Safe-bind 16 19 addr _ addr-Takes λ target. Safe-bind 16 3 addr _ addr-Takes λ origin.
          Safe-bind 1 2 u8 _ u8-Takes λ ttl.
            Safe-bind 2 0 (uint 2) _ (uint-Takes 2)
              λ mtu. Safe-then decode_coords _ decode_coords-Safe λ c. pure-Safe _
