-- ===== src/Protocol/TreeAnnounce/Laws.antt =====
-- `TreeAnnounce`: the round trip, and safety on any input.
use fips_native.Base.{
  ℕ, zero, suc, ◌+◌, ◌*◌, ◌^◌, ◌≤◌, ◌<◌, ◌≡◌, ◌≢◌, refl, sym, inl, inr, arith, List, [], ◌∷◌, ◌++◌,
  none, some, ltb, ◌==◌, length, length-append, drop, le→ltb, ltb-false→le, Bool-cases,
  append_assoc, All,
}
use fips_native.Codec.Bytes.{IsNodeAddr, length_uint, length_addr}
use fips_native.Codec.Reader.{
  invalid_signature, ok, err, panic, ◌>>=◌, ◌>>◌, bytes, u8, uint, addr, need, need_met,
  bytes_written, uint_written, addr_written,
}
use fips_native.Codec.Safety.{
  Safe, bytes-Takes, u8-Takes, uint-Takes, addr-Takes, Safe-bind, Safe-then, need-Safe,
  result-ne-panic,
}
use native.Mathlib.Nat.{mod-eq_of_lt}
use fips_native.Tree.Coordinate.{entries}
use fips_native.Codec.Safety.{Takes}
use fips_native.Codec.Signature.{SignatureApi, IsSignatureApi}
use fips_native.Tree.Coordinate.{CoordEntry}
use fips_native.Tree.Declaration.{ParentDeclaration, with_signature, IsDeclaration}
use fips_native.Protocol.TreeAnnounce.{
  TreeAnnounce, encode_entries, read_entries, encode_with, encode, signature_of, announce,
  read_announce, body, decode, min_payload_size, version_1,
}

-- The ranges of an entry's fields.
pub record IsEntry (e : CoordEntry) : Type 0 where
  pub node_addr : IsNodeAddr e.node_addr
  pub sequence : e.sequence < 256 ^ 8
  pub timestamp : e.timestamp < 256 ^ 8

length-encode_entries : (es : List CoordEntry) → length (encode_entries es) ≡ length es * 32
unfolding encode_entries
length-encode_entries [] = refl
length-encode_entries (e ∷ es) = omega (arith, length_addr, length_uint, length-encode_entries es)

entries_written :
    (es : List CoordEntry)
    → All IsEntry es
    → (ys : List ℕ) → read_entries (length es) (encode_entries es ++ ys) ≡ ok (es, ys)
unfolding read_entries encode_entries
entries_written [] h ys = refl
entries_written (e ∷ es) h ys = simp (
  append_assoc,
  ◌>>=◌,
  addr_written e.node_addr h.0.node_addr,
  uint_written 8 e.sequence h.0.sequence,
  uint_written 8 e.timestamp h.0.timestamp,
  entries_written es h.1,
)

read_entries-Takes : (n : ℕ) → Takes (n * 32) (read_entries n)
unfolding read_entries
read_entries-Takes zero xs h = ([], xs, refl, omega arith)
read_entries-Takes (suc n) xs h =
    let (a, l, e, k) = addr-Takes xs (omega arith) in
    let (s, l', e', k') = uint-Takes 8 l (omega arith) in
    let (t, l'', e'', k'') = uint-Takes 8 l' (omega arith) in
    let (es, m, f, g) = read_entries-Takes n l'' (omega arith) in
    (
      record { node_addr = a; sequence = s; timestamp = t } ∷ es,
      m,
      rw (e, ◌>>=◌) (rw (e', ◌>>=◌) (rw (e'', ◌>>=◌) (rw (f, ◌>>=◌)))),
      omega arith,
    )

module _ (api : SignatureApi) where
  open api use {Signature, from_slice, as_ref}

  -- A declaration of the path's first node, with fields in range, and a path that fits its count.
  pub record IsTreeAnnounce (m : TreeAnnounce Signature) : Type 0 where
    pub declaration : IsDeclaration m.declaration
    pub owner : m.declaration.node_addr ≡ m.ancestry.first.node_addr
    pub ancestry : All IsEntry (entries m.ancestry)
    pub count : length (entries m.ancestry) < 256 ^ 2

  signature_written :
      IsSignatureApi api
      → (g : Signature) (ys : List ℕ) → signature_of api (as_ref g) ys ≡ ok (g, ys)
  unfolding signature_of
  signature_written a g ys = rw (a.from_slice-as_ref g, signature_of) refl

  rebuilt :
      (d : ParentDeclaration Signature) (a : ℕ) (g : Signature)
      → d.node_addr ≡ a
      → d.signature ≡ some g
      → with_signature a d.parent_id d.sequence d.timestamp g ≡ d
  unfolding with_signature
  rebuilt d a g h e = rw (sym h) (rw (sym e) refl)

  decode-encode_with :
      IsSignatureApi api
      → (m : TreeAnnounce Signature) → IsTreeAnnounce m
      → (g : Signature) → m.declaration.signature ≡ some g
      → decode api (drop 1 (encode_with api m g)) ≡ ok m
  unfolding encode_with decode body read_announce announce encode_entries u8
  decode-encode_with a m v g e =
      let long : 99 ≤ length (drop 1 (encode_with api m g)) = omega (
        arith,
        length_uint,
        length_addr,
        length-append (as_ref g) [],
        a.length_as_ref g,
        length-append (encode_entries (entries m.ancestry)) (as_ref g ++ []),
        length-encode_entries (entries m.ancestry),
      ) in
      let fits : length (entries m.ancestry) * 32 + 64
          ≤ length (encode_entries (entries m.ancestry) ++ (as_ref g ++ [])) =
        omega (
          arith,
          length-append (as_ref g) [],
          a.length_as_ref g,
          length-append (encode_entries (entries m.ancestry)) (as_ref g ++ []),
          length-encode_entries (entries m.ancestry),
        ) in
      let met : (t : ℕ)
          → need t (length (entries m.ancestry) * 32 + 64)
              (encode_entries (entries m.ancestry) ++ (as_ref g ++ []))
            ≡ ok (tt, encode_entries (entries m.ancestry) ++ (as_ref g ++ [])) =
        λ t. need_met t _ _ fits in
      rw (le→ltb (length (drop 1 (encode_with api m g))) 99 long) (
        simp (
          ◌>>=◌,
          ◌>>◌,
          uint_written 8 m.declaration.sequence v.declaration.sequence,
          uint_written 8 m.declaration.timestamp v.declaration.timestamp,
          addr_written m.declaration.parent_id v.declaration.parent,
          mod-eq_of_lt v.count,
          uint_written 2 (length (entries m.ancestry)) v.count,
          met,
          entries_written (entries m.ancestry) v.ancestry,
          bytes_written 64 (as_ref g) (a.length_as_ref g),
          signature_written a g,
          rebuilt m.declaration m.ancestry.first.node_addr g v.owner e,
        ))

  -- An announcement by the first node of its path, with fields in range, is encoded if it is
  -- signed and decoded back, less its type byte; an unsigned one is refused.
  pub decode-encode_tree_announce :
      IsSignatureApi api
      → (m : TreeAnnounce Signature) → IsTreeAnnounce m
      → ((g : Signature)
          → m.declaration.signature ≡ some g
          → (b : List ℕ) × (encode api m ≡ ok b) × (decode api (drop 1 b) ≡ ok m))
        × (m.declaration.signature ≡ none → encode api m ≡ err invalid_signature)
  unfolding encode
  decode-encode_tree_announce a m v =
      (λ g e. (encode_with api m g, rw e refl, decode-encode_with a m v g e), λ e. rw e refl)

  signature_of-Safe : (b : List ℕ) → Safe 0 (signature_of api b)
  unfolding signature_of
  signature_of-Safe b xs h = ground arith

  announce-Safe :
      (s t p : ℕ) (g : Signature) (es : List CoordEntry) → Safe 0 (announce api s t p g es)
  unfolding announce
  announce-Safe s t p g [] xs h e = cc
  announce-Safe s t p g (x ∷ es) xs h e = cc

  read_announce-Safe : (total : ℕ) → Safe 34 (read_announce api total)
  unfolding read_announce
  read_announce-Safe total = Safe-bind 8 26 (uint 8) _ (uint-Takes 8) λ s.
      Safe-bind 8 18 (uint 8) _ (uint-Takes 8) λ t. Safe-bind 16 2 addr _ addr-Takes λ p.
        Safe-bind 2 0 (uint 2) _ (uint-Takes 2) λ n. need-Safe total (n * 32 + 64) _ (
          Safe-bind (n * 32) 64 (read_entries n) _ (read_entries-Takes n) λ es.
            Safe-bind 64 0 (bytes 64) _ (bytes-Takes 64) λ b.
              Safe-then (signature_of api b) _ (signature_of-Safe b) λ g. announce-Safe s t p g es)

  body-Safe : (total : ℕ) → Safe 35 (body api total)
  unfolding body
  body-Safe total = Safe-bind 1 34 u8 _ u8-Takes λ version.
      elim (Bool-cases (version == version_1)) [
        | inl h ↦ rw h (read_announce-Safe total)
        | inr h ↦ rw h (λ xs k e. cc)
      ]

  -- `decode` of a TreeAnnounce panics on no input.
  pub decode_tree_announce-ne-panic : (p : List ℕ) → decode api p ≢ panic
  unfolding decode
  decode_tree_announce-ne-panic p = elim (Bool-cases (ltb (length p) min_payload_size)) [
    | inl short ↦ rw short (λ e. cc)
    | inr enough ↦ rw enough (
        result-ne-panic (body api (length p) p)
          (body-Safe (length p) p (omega (arith, ltb-false→le (length p) 99 enough))))
  ]
