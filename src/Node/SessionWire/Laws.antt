-- ===== src/Node/SessionWire/Laws.antt =====
-- fips/src/node/session_wire.rs: what is built is parsed back, and never as another kind.
use Prim.Native.Nat.{bit_and}
use fips_native.Base.{
  ℕ, ◌^◌, ◌≤◌, ◌<◌, ◌≡◌, refl, arith, List, ◌++◌, true, false, none, some, ltb, length, drop,
  if_same,
}
use fips_native.Codec.Bytes.{le_bytes, from_le-le_bytes}
use fips_native.Node.SessionWire.{
  FspCommonPrefix, parse_fsp_prefix, parse_fsp_encrypted, ver_phase_byte, is_unencrypted,
  build_fsp_header, build_fsp_encrypted, build_fsp_error_prefix, fsp_prepend_inner_header,
  fsp_strip_inner_header, fsp_flag_u,
}

-- An encrypted session message with header fields in range, the U flag clear and at least a tag
-- behind the header is parsed to its fields, and its ciphertext starts at offset 12.
pub parse-build_fsp_encrypted :
    (counter flags payload_len : ℕ) (ciphertext : List ℕ)
    → counter < 256 ^ 8
    → payload_len < 256 ^ 2
    → bit_and flags fsp_flag_u ≡ 0
    → 16 ≤ length ciphertext
    → let header = build_fsp_header counter flags payload_len in
      let packet = build_fsp_encrypted header ciphertext in
      (parse_fsp_encrypted packet
        ≡ some (record {
          flags = flags;
          payload_len = payload_len;
          counter = counter;
          header_bytes = header;
        }))
      × (drop 12 packet ≡ ciphertext)
unfolding build_fsp_header ver_phase_byte parse_fsp_encrypted le_bytes
parse-build_fsp_encrypted counter flags payload_len ciphertext h k u m =
    let header = build_fsp_header counter flags payload_len in
    let enough : ltb (length (header ++ ciphertext)) 28 ≡ false = ground arith in
    (rw (enough, u, from_le-le_bytes 8 counter h, from_le-le_bytes 2 payload_len k) refl, refl)

-- An error signal is announced as such, and never taken for an encrypted message.
parse-build_fsp_error :
    (payload_len : ℕ) (signal : List ℕ)
    → payload_len < 256 ^ 2
    → let packet = build_fsp_error_prefix payload_len ++ signal in
      let prefix : FspCommonPrefix = record {
        version = 0;
        phase = 0;
        flags = fsp_flag_u;
        payload_len = payload_len;
      } in
      (parse_fsp_prefix packet ≡ some prefix)
      × (is_unencrypted prefix ≡ true)
      × (parse_fsp_encrypted packet ≡ none)
unfolding build_fsp_error_prefix ver_phase_byte parse_fsp_prefix parse_fsp_encrypted le_bytes
parse-build_fsp_error payload_len signal h =
    let packet = build_fsp_error_prefix payload_len ++ signal in
    let enough : ltb (length packet) 4 ≡ false = ground arith in
    (rw (enough, from_le-le_bytes 2 payload_len h) refl, refl, if_same _ none)

fsp_strip-prepend_inner_header :
    (timestamp_ms msg_type inner_flags : ℕ) (payload : List ℕ)
    → timestamp_ms < 256 ^ 4
    → fsp_strip_inner_header (fsp_prepend_inner_header timestamp_ms msg_type inner_flags payload)
      ≡ some (timestamp_ms, msg_type, inner_flags, payload)
unfolding fsp_strip_inner_header fsp_prepend_inner_header le_bytes
fsp_strip-prepend_inner_header timestamp_ms msg_type inner_flags payload h =
    let enough : ltb (length (fsp_prepend_inner_header timestamp_ms msg_type inner_flags payload)) 6
        ≡ false =
      ground arith in
    rw (enough, from_le-le_bytes 4 timestamp_ms h) refl
