-- ===== src/Protocol/Coords/Defs.antt =====
-- The encoder and the decoders.
use fips_native.Base.{
  ℕ, zero, suc, ◌+◌, ◌*◌, ◌%◌, ◌^◌, ◌<◌, List, [], ◌∷◌, ◌++◌, map, Option, none, some, ltb, ◌==◌,
  if◌then◌else◌, length, All,
}
use fips_native.Codec.Bytes.{le_bytes, as_bytes, IsNodeAddr}
use fips_native.Codec.Reader.{
  ProtocolError, message_too_short, malformed, Outcome, Reader, ◌>>=◌, pure, fail, uint, addr,
}
use fips_native.Codec.Reader
use fips_native.Tree.Coordinate.{
  TreeCoordinate, TreeResult, entries, node_addrs, addr_only, from_addrs,
}

unfoldable pub coords_wire_size : TreeCoordinate → ℕ
coords_wire_size c = 2 + length (entries c) * 16

unfoldable pub encode_addrs : List ℕ → List ℕ
encode_addrs [] = []
encode_addrs (a ∷ rest) = as_bytes a ++ encode_addrs rest

-- `addrs.len() as u16` keeps the low 16 bits.
unfoldable pub encode_coords : TreeCoordinate → List ℕ
unfolding encode_addrs
encode_coords c = le_bytes 2 (length (node_addrs c) % 2 ^ 16) ++ encode_addrs (node_addrs c)

unfoldable pub encode_empty_coords : List ℕ
encode_empty_coords = le_bytes 2 0

unfoldable pub read_addrs : ℕ → Reader (List ℕ)
read_addrs zero = pure []
read_addrs (suc n) = do a ← addr; rest ← read_addrs n; pure (a ∷ rest)

-- `from_addrs` fails on an empty list only, with this text.
unfoldable pub coords_of : List ℕ → Reader TreeCoordinate
coords_of addrs = elim (from_addrs addrs) [
  | TreeResult.ok c ↦ pure c
  | TreeResult.err e ↦ fail (malformed "invalid tree coordinate: empty path")
]

-- The coordinates behind a count, in `len` bytes that hold the count too.
unfoldable pub read_coords : ℕ → ℕ → Reader TreeCoordinate
unfolding read_addrs coords_of
read_coords len count =
    let needed = 2 + count * 16 in
    if ltb len needed
    then fail (message_too_short needed len)
    else (if count == 0
        then fail (malformed "coordinate with zero entries")
        else do addrs ← read_addrs count; coords_of addrs)

unfoldable pub decode_coords : Reader TreeCoordinate
unfolding read_coords
decode_coords xs =
    if ltb (length xs) 2
    then Reader.err (message_too_short 2 (length xs))
    else (do count ← uint 2; read_coords (length xs) count) xs

unfoldable pub read_optional_coords : ℕ → ℕ → Reader (Option TreeCoordinate)
unfolding read_addrs coords_of
read_optional_coords len count =
    let needed = 2 + count * 16 in
    if ltb len needed
    then fail (message_too_short needed len)
    else (if count == 0
        then pure none
        else do addrs ← read_addrs count; c ← coords_of addrs; pure (some c))

unfoldable pub decode_optional_coords : Reader (Option TreeCoordinate)
unfolding read_optional_coords
decode_optional_coords xs =
    if ltb (length xs) 2
    then Reader.err (message_too_short 2 (length xs))
    else (do count ← uint 2; read_optional_coords (length xs) count) xs

-- What is left of coordinates after a round over the wire.
unfoldable pub without_meta : TreeCoordinate → TreeCoordinate
without_meta c = record {
  first = addr_only c.first.node_addr;
  rest = map addr_only (map (λ e. e.node_addr) c.rest);
}

-- The count fits the wire format, and the addresses are 16 bytes.
pub record IsWireCoordinate (c : TreeCoordinate) : Type 0 where
  pub count : length (node_addrs c) < 256 ^ 2
  pub addrs : All IsNodeAddr (node_addrs c)
