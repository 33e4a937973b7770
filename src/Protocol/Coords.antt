-- ===== src/Protocol/Coords.antt =====
-- fips/src/protocol/session.rs: coordinates on the wire (`encode_coords`, `decode_coords`,
-- `decode_optional_coords`). Only the addresses travel: the metadata of the entries does not.
-- The source returns the number of bytes consumed; here the cursor has moved past them.
mod Defs
mod Laws
unfoldable pub use Defs.{
  coords_wire_size, encode_coords, encode_empty_coords, decode_coords, decode_optional_coords,
  without_meta,
}
pub use Defs.{IsWireCoordinate}
pub use Laws.{
  length-encode_coords, coords_written, optional_coords_written, empty_coords_written,
  decode_coords-Safe, decode_optional_coords-Safe,
}
