-- ===== src/Protocol/LookupResponse.antt =====
-- fips/src/protocol/discovery.rs: `LookupResponse`, with the target's proof.
use fips_native.Base.{
  ℕ, ◌^◌, ◌≤◌, ◌<◌, ◌≡◌, ◌≢◌, refl, inl, inr, arith, List, [], ◌∷◌, ◌++◌, none, some, ltb,
  if◌then◌else◌, length, length-append, drop, le→ltb, ltb-false→le, Bool-cases,
}
use fips_native.Codec.Bytes.{le_bytes, as_bytes, IsNodeAddr, length_uint, length_addr}
use fips_native.Codec.Reader.{
  message_too_short, malformed, Outcome, ok, err, panic, Reader, ◌>>=◌, ◌>>◌, pure, fail, result,
  bytes, uint, addr, need, need_met, bytes_written, uint_written, addr_written,
}
use fips_native.Codec.Safety.{
  Safe, bytes-Takes, uint-Takes, addr-Takes, pure-Safe, Safe-bind, Safe-then, need-Safe,
  result-ne-panic,
}
use fips_native.Tree.Coordinate.{TreeCoordinate}
use fips_native.Protocol.Coords.{
  encode_coords, decode_coords, without_meta, IsWireCoordinate, coords_wire_size,
  length-encode_coords, coords_written, decode_coords-Safe,
}
use fips_native.Codec.Signature.{SignatureApi, IsSignatureApi}

pub record LookupResponse (S : Type 0) : Type 0 where
  pub request_id : ℕ
  pub target : ℕ
  pub path_mtu : ℕ
  pub target_coords : TreeCoordinate
  pub proof : S

unfoldable pub new : {S : Type 0} → ℕ → ℕ → TreeCoordinate → S → LookupResponse S
new id target coords proof = record {
  request_id = id;
  target = target;
  path_mtu = 0xffff;
  target_coords = coords;
  proof = proof;
}

-- The bytes that the target signs: the path MTU, which transit nodes lower, is not among them.
unfoldable proof_bytes : ℕ → ℕ → TreeCoordinate → List ℕ
proof_bytes id target coords = le_bytes 8 id ++ (as_bytes target ++ encode_coords coords)

module _ (api : SignatureApi) where
  open api use {Signature, from_slice, as_ref}

  unfoldable pub encode : LookupResponse Signature → List ℕ
  encode m =
      0x31
      ∷ (le_bytes 8 m.request_id
          ++ (as_bytes m.target
              ++ (le_bytes 2 m.path_mtu
                  ++ (encode_coords m.target_coords ++ (as_ref m.proof ++ [])))))

  unfoldable pub signature_of : List ℕ → Reader Signature
  signature_of b = elim (from_slice b) [
    | none ↦ fail (malformed "bad proof signature")
    | some s ↦ pure s
  ]

  body : ℕ → Reader (LookupResponse Signature)
  body total = do
    request_id ← uint 8
    target ← addr
    path_mtu ← uint 2
    c ← decode_coords
    need total 64
    b ← bytes 64
    proof ← signature_of b
    pure (record {
      request_id = request_id;
      target = target;
      path_mtu = path_mtu;
      target_coords = c;
      proof = proof;
    })

  unfoldable pub decode : List ℕ → Outcome (LookupResponse Signature)
  unfolding body
  decode payload =
      if ltb (length payload) 92
      then err (message_too_short 92 (length payload))
      else result (body (length payload) payload)

  -- The ranges of the field types, and coordinates that fit the wire format.
  pub record IsLookupResponse (m : LookupResponse Signature) : Type 0 where
    pub request_id : m.request_id < 256 ^ 8
    pub target : IsNodeAddr m.target
    pub path_mtu : m.path_mtu < 256 ^ 2
    pub coords : IsWireCoordinate m.target_coords

  signature_written :
      IsSignatureApi api → (g : Signature) (ys : List ℕ) → signature_of (as_ref g) ys ≡ ok (g, ys)
  unfolding signature_of
  signature_written a g ys = rw (a.from_slice-as_ref g, signature_of) refl

  -- A response with fields in range is decoded back, less its type byte; its coordinates keep
  -- their addresses only.
  pub decode-encode_lookup_response :
      IsSignatureApi api
      → (m : LookupResponse Signature) → IsLookupResponse m
      → decode (drop 1 (encode m)) ≡ ok (record m { target_coords = without_meta m.target_coords })
  unfolding decode encode
  decode-encode_lookup_response a m v =
      rw (le→ltb (length (drop 1 (encode m))) 92 (omega (arith, enough))) (
        simp (
          ◌>>=◌,
          uint_written 8 m.request_id v.request_id,
          addr_written m.target v.target,
          uint_written 2 m.path_mtu v.path_mtu,
          coords_written m.target_coords v.coords,
          need_met (length (drop 1 (encode m))) 64 (as_ref m.proof ++ []) proof_length,
          bytes_written 64 (as_ref m.proof) (a.length_as_ref m.proof),
          signature_written a m.proof,
        ))
    where
      proof_length : 64 ≤ length (as_ref m.proof ++ [])
      proof_length = omega (arith, length-append (as_ref m.proof) [], a.length_as_ref m.proof)

      size : 18 ≤ coords_wire_size m.target_coords
      size = unfold coords_wire_size in omega arith

      enough : 92 ≤ length (drop 1 (encode m))
      enough = omega (
        arith,
        length_addr,
        length_uint,
        length-append (encode_coords m.target_coords) (as_ref m.proof ++ []),
        length-encode_coords m.target_coords,
        size,
        proof_length,
      )

  signature_of-Safe : (b : List ℕ) → Safe 0 (signature_of b)
  unfolding signature_of
  signature_of-Safe b xs h = ground arith

  body-Safe : (total : ℕ) → Safe 26 (body total)
  unfolding body
  body-Safe total = Safe-bind 8 18 (uint 8) _ (uint-Takes 8) λ id.
      Safe-bind 16 2 addr _ addr-Takes λ target. Safe-bind 2 0 (uint 2) _ (uint-Takes 2) λ mtu.
        Safe-then decode_coords _ decode_coords-Safe λ c. need-Safe total 64 _ (
          Safe-bind 64 0 (bytes 64) _ (bytes-Takes 64)
            λ b. Safe-then (signature_of b) _ (signature_of-Safe b) λ s. pure-Safe _)

  -- `decode` of a LookupResponse panics on no input.
  pub decode_lookup_response-ne-panic : (p : List ℕ) → decode p ≢ panic
  unfolding decode
  decode_lookup_response-ne-panic p = elim (Bool-cases (ltb (length p) 92)) [
    | inl short ↦ rw short (λ e. cc)
    | inr enough ↦ rw enough (
        result-ne-panic (body (length p) p)
          (body-Safe (length p) p (omega (arith, ltb-false→le (length p) 92 enough))))
  ]
