-- ===== src/Protocol/TreeAnnounce.antt =====
-- fips/src/protocol/tree.rs: `TreeAnnounce`, a signed parent declaration and the path to the root.
pub mod Laws
use fips_native.Base.{
  ℕ, zero, suc, ◌+◌, ◌-◌, ◌*◌, ◌/◌, ◌%◌, ◌^◌, ◌≤◌, ◌<◌, ◌≡◌, ◌≢◌, refl, sym, ap, ◌∙◌, inl, inr,
  arith, List, [], ◌∷◌, ◌++◌, Option, none, some, ltb, leb, ◌==◌, if◌then◌else◌, length,
  length-append, drop, le→ltb, ltb-false→le, Bool-cases, append_assoc, replicate, All, Bool, true,
  false,
}
use fips_native.Codec.Bytes.{
  le_bytes, as_bytes, IsNodeAddr, length_uint, length_addr, length-le_bytes, u16_bytes,
}
use fips_native.Codec.Reader.{
  message_too_short, malformed, Outcome, ok, err, panic, Reader, ◌>>=◌, ◌>>◌, pure, fail, result,
  bytes, u8, uint, addr, need, need_met, bytes_written, uint_written, addr_written, rest,
}
use fips_native.Codec.Safety.{
  Safe, bytes-Takes, u8-Takes, uint-Takes, addr-Takes, pure-Safe, Safe-bind, Safe-then, need-Safe,
  result-ne-panic,
}
use native.Mathlib.Nat.{mod-eq_of_lt}
use fips_native.Tree.Coordinate.{TreeCoordinate, node_addrs, entries}
use fips_native.Codec.Reader.{invalid_signature, unsupported_version}
use fips_native.Codec.Signature.{SignatureApi, IsSignatureApi}
use fips_native.Protocol.LinkMessage.{to_byte, tree_announce}
use fips_native.Tree.Coordinate.{CoordEntry}
use fips_native.Tree.Declaration.{ParentDeclaration, with_signature}

abbrev pub version_1 : ℕ
version_1 = 0x01

abbrev pub min_payload_size : ℕ
min_payload_size = 99

pub record TreeAnnounce (S : Type 0) : Type 0 where
  pub declaration : ParentDeclaration S
  pub ancestry : TreeCoordinate

unfoldable pub encode_entries : List CoordEntry → List ℕ
encode_entries [] = []
encode_entries (e ∷ es) =
    as_bytes e.node_addr ++ (le_bytes 8 e.sequence ++ (le_bytes 8 e.timestamp ++ encode_entries es))

unfoldable pub read_entries : ℕ → Reader (List CoordEntry)
read_entries zero = pure []
read_entries (suc n) = do
  a ← addr
  s ← uint 8
  t ← uint 8
  es ← read_entries n
  pure (record { node_addr = a; sequence = s; timestamp = t } ∷ es)

module _ (api : SignatureApi) where
  open api use {Signature, from_slice, as_ref}

  -- The bytes of a message with its signature.
  unfoldable pub encode_with : TreeAnnounce Signature → Signature → List ℕ
  unfolding encode_entries
  encode_with m g =
      to_byte tree_announce
      ∷ version_1
      ∷ (le_bytes 8 m.declaration.sequence
          ++ (le_bytes 8 m.declaration.timestamp
              ++ (as_bytes m.declaration.parent_id
                  ++ (le_bytes 2 (length (entries m.ancestry) % 2 ^ 16)
                      ++ (encode_entries (entries m.ancestry) ++ (as_ref g ++ []))))))

  unfoldable pub encode : TreeAnnounce Signature → Outcome (List ℕ)
  unfolding encode_with
  encode m = elim m.declaration.signature [
    | none ↦ err invalid_signature
    | some g ↦ ok (encode_with m g)
  ]

  unfoldable pub signature_of : List ℕ → Reader Signature
  signature_of b = elim (from_slice b) [ none ↦ fail invalid_signature | some s ↦ pure s ]

  -- The first entry is the declaring node.
  unfoldable pub announce :
      ℕ → ℕ → ℕ → Signature → List CoordEntry → Reader (TreeAnnounce Signature)
  announce seq ts parent g [] = fail (malformed "ancestry must have at least one entry")
  announce seq ts parent g (e ∷ es) = pure (record {
    declaration = with_signature e.node_addr parent seq ts g;
    ancestry = record { first = e; rest = es };
  })

  -- Behind the version byte; `total` is the length of the payload.
  unfoldable pub read_announce : ℕ → Reader (TreeAnnounce Signature)
  unfolding read_entries signature_of announce
  read_announce total = do
    seq ← uint 8
    ts ← uint 8
    parent ← addr
    count ← uint 2
    need total (count * 32 + 64)
    es ← read_entries count
    b ← bytes 64
    g ← signature_of b
    announce seq ts parent g es

  unfoldable pub body : ℕ → Reader (TreeAnnounce Signature)
  unfolding read_announce
  body total = do
    version ← u8
    if version == version_1 then read_announce total else fail (unsupported_version version)

  unfoldable pub decode : List ℕ → Outcome (TreeAnnounce Signature)
  unfolding body
  decode payload =
      if ltb (length payload) min_payload_size
      then err (message_too_short min_payload_size (length payload))
      else result (body (length payload) payload)
