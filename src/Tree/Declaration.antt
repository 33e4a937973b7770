-- ===== src/Tree/Declaration.antt =====
-- fips/src/tree/declaration.rs: a node's signed choice of its parent.
-- The signature scheme (secp256k1, SHA-256) is not part of the sources: it is a parameter.
use fips_native.Base.{
  ℕ, ◌^◌, ◌<◌, ◌≡◌, ◌≢◌, refl, sym, ap, ◌∙◌, arith, List, [], ◌++◌, Bool, true, Option, none, some,
  ltb, ◌==◌, if◌then◌else◌, is_some,
}
use fips_native.Codec.Bytes.{le_bytes, as_bytes, IsNodeAddr}
use fips_native.Codec.Reader.{
  ok, Reader, ◌>>=◌, pure, uint, addr, addr_written, uint_written, Outcome,
}
use fips_native.Tree.Coordinate.{invalid_signature, TreeResult}

pub record ParentDeclaration (S : Type 0) : Type 0 where
  pub node_addr : ℕ
  pub parent_id : ℕ
  pub sequence : ℕ
  pub timestamp : ℕ
  pub signature : Option S

-- A node's identity as `sign` uses it: its address and its signing function.
pub record Identity (S : Type 0) : Type 0 where
  pub node_addr : ℕ
  pub sign : List ℕ → S

-- The four fields, read back.
read_fields : Reader (ℕ × ℕ × ℕ × ℕ)
read_fields = do a ← addr; p ← addr; s ← uint 8; t ← uint 8; pure (a, p, s, t)

module _ {S : Type 0} where
  unfoldable pub new : ℕ → ℕ → ℕ → ℕ → ParentDeclaration S
  new a p s t = record {
    node_addr = a;
    parent_id = p;
    sequence = s;
    timestamp = t;
    signature = none;
  }

  unfoldable pub self_root : ℕ → ℕ → ℕ → ParentDeclaration S
  unfolding new
  self_root a s t = new a a s t

  unfoldable pub with_signature : ℕ → ℕ → ℕ → ℕ → S → ParentDeclaration S
  with_signature a p s t g = record {
    node_addr = a;
    parent_id = p;
    sequence = s;
    timestamp = t;
    signature = some g;
  }

  abbrev set_signature : ParentDeclaration S → S → ParentDeclaration S
  set_signature d g = record d { signature = some g }

  -- format: node_addr (16), parent_id (16), sequence (8), timestamp (8)
  unfoldable pub signing_bytes : ParentDeclaration S → List ℕ
  signing_bytes d =
      as_bytes d.node_addr
      ++ (as_bytes d.parent_id ++ (le_bytes 8 d.sequence ++ (le_bytes 8 d.timestamp ++ [])))

  unfoldable pub sign : ParentDeclaration S → Identity S → TreeResult (ParentDeclaration S)
  sign d i =
      if i.node_addr == d.node_addr
      then TreeResult.ok (record d { signature = some (i.sign (signing_bytes d)) })
      else TreeResult.err (invalid_signature d.node_addr)

  unfoldable pub is_root : ParentDeclaration S → Bool
  is_root d = d.node_addr == d.parent_id

  unfoldable is_signed : ParentDeclaration S → Bool
  is_signed d = is_some d.signature

  -- `verify`, over the check of a signature on the hash of some bytes.
  unfoldable pub verify : (S → List ℕ → Bool) → ParentDeclaration S → TreeResult (Unit {0})
  verify valid d = elim d.signature [
    | none ↦ TreeResult.err (invalid_signature d.node_addr)
    | some g ↦
        if valid g (signing_bytes d)
        then TreeResult.ok tt
        else TreeResult.err (invalid_signature d.node_addr)
  ]

  unfoldable pub is_fresher_than : ParentDeclaration S → ParentDeclaration S → Bool
  is_fresher_than d e = ltb e.sequence d.sequence

  -- The ranges of the field types.
  pub record IsDeclaration (d : ParentDeclaration S) : Type 0 where
    pub node : IsNodeAddr d.node_addr
    pub parent : IsNodeAddr d.parent_id
    pub sequence : d.sequence < 256 ^ 8
    pub timestamp : d.timestamp < 256 ^ 8

  read-signing_bytes :
      (d : ParentDeclaration S)
      → IsDeclaration d
      → read_fields (signing_bytes d) ≡ ok ((d.node_addr, d.parent_id, d.sequence, d.timestamp), [])
  unfolding read_fields signing_bytes
  read-signing_bytes d v = simp (
    ◌>>=◌,
    addr_written d.node_addr v.node,
    addr_written d.parent_id v.parent,
    uint_written 8 d.sequence v.sequence,
    uint_written 8 d.timestamp v.timestamp,
  )

  -- A signature covers every field: declarations with fields in range and the same signing bytes
  -- agree in all four.
  pub signing_bytes_injective :
      (d e : ParentDeclaration S)
      → IsDeclaration d
      → IsDeclaration e
      → signing_bytes d ≡ signing_bytes e
      → (d.node_addr ≡ e.node_addr)
        × (d.parent_id ≡ e.parent_id)
        × (d.sequence ≡ e.sequence)
        × (d.timestamp ≡ e.timestamp)
  signing_bytes_injective d e v w h = (cc all, cc all, cc all, cc all)
    where
      all :
          ◌≡◌ {A = Outcome ((ℕ × ℕ × ℕ × ℕ) × List ℕ)}
            (ok ((d.node_addr, d.parent_id, d.sequence, d.timestamp), []))
            (ok ((e.node_addr, e.parent_id, e.sequence, e.timestamp), []))
      all = sym (read-signing_bytes d v) ∙ ap read_fields h ∙ read-signing_bytes e w

  -- Under a scheme whose signatures are valid, what a node signs for itself verifies, and an
  -- identity with another address is refused.
  pub verify-sign :
      (valid : S → List ℕ → Bool) (i : Identity S) (d : ParentDeclaration S)
      → ((m : List ℕ) → valid (i.sign m) m ≡ true)
      → (i.node_addr ≡ d.node_addr
          → (d' : ParentDeclaration S) × (sign d i ≡ TreeResult.ok d')
            × (verify valid d' ≡ TreeResult.ok tt))
        × (i.node_addr ≢ d.node_addr → sign d i ≡ TreeResult.err (invalid_signature d.node_addr))
  unfolding sign verify
  verify-sign valid i d h = (
    λ e. (
      record d { signature = some (i.sign (signing_bytes d)) },
      ground arith,
      unfold signing_bytes in rw (h (signing_bytes d)) refl,
    ),
    λ n. ground arith,
  )
