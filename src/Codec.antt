-- ===== src/Codec.antt =====
-- What the sources use of Rust's byte slices: little-endian integers and 16-byte addresses, and
-- a cursor over a slice. `payload[pos..pos + n]` followed by `pos += n` reads `n` bytes from the
-- cursor; `payload.len() - pos` is the length of what is left; indexing out of range panics.
pub mod Bytes
pub mod Reader
pub mod Safety
pub mod Signature
