-- ===== src/Node/Wire/Laws.antt =====
-- fips/src/node/wire.rs: what is built is parsed back, and by its own parser only.
use fips_native.Base.{
  ℕ, ◌^◌, ◌≤◌, ◌<◌, ◌≡◌, refl, arith, List, ◌++◌, true, false, none, some, ltb, ◌==◌, length, drop,
  le→ltb, if_same,
}
use fips_native.Codec.Bytes.{le_bytes, from_le-le_bytes}
use fips_native.Node.Wire.{
  parse_encrypted, parse_msg1, parse_msg2, build_msg1, build_msg2, build_established_header,
  build_encrypted, prepend_inner_header, strip_inner_header, handshake_msg1_size,
  handshake_msg2_size, ver_phase_byte,
}

-- An established frame with header fields in range and at least a tag behind the header is
-- parsed to its fields, its ciphertext starts at offset 16, and neither handshake parser takes
-- it.
pub parse-build_encrypted :
    (receiver_idx counter flags payload_len : ℕ) (ciphertext : List ℕ)
    → receiver_idx < 256 ^ 4
    → counter < 256 ^ 8
    → payload_len < 256 ^ 2
    → 16 ≤ length ciphertext
    → let header = build_established_header receiver_idx counter flags payload_len in
      let packet = build_encrypted header ciphertext in
      (parse_encrypted packet
        ≡ some (record {
          flags = flags;
          payload_len = payload_len;
          receiver_idx = receiver_idx;
          counter = counter;
          header_bytes = header;
        }))
      × (drop 16 packet ≡ ciphertext)
      × (parse_msg1 packet ≡ none)
      × (parse_msg2 packet ≡ none)
unfolding build_established_header ver_phase_byte parse_encrypted parse_msg1 parse_msg2 le_bytes
parse-build_encrypted receiver_idx counter flags payload_len ciphertext h k l m =
    let header = build_established_header receiver_idx counter flags payload_len in
    let enough : ltb (length (header ++ ciphertext)) 32 ≡ false = le→ltb _ 32 (length_enough) in
    (
      rw
          (
            enough,
            from_le-le_bytes 4 receiver_idx h,
            from_le-le_bytes 8 counter k,
            from_le-le_bytes 2 payload_len l,
          )
          refl,
      refl,
      if_same _ none,
      if_same _ none,
    )
  where
    length_enough :
        32 ≤ length (build_established_header receiver_idx counter flags payload_len ++ ciphertext)
    length_enough = omega arith

-- A message 1 packet of the right size is parsed to its sender index, its Noise message starts
-- at offset 8, and no other parser takes it.
pub parse-build_msg1 :
    (sender_idx : ℕ) (noise_msg1 : List ℕ)
    → sender_idx < 256 ^ 4
    → length noise_msg1 ≡ handshake_msg1_size
    → let packet = build_msg1 sender_idx noise_msg1 in
      (parse_msg1 packet ≡ some (record { sender_idx = sender_idx; noise_msg1_offset = 8 }))
      × (drop 8 packet ≡ noise_msg1)
      × (parse_encrypted packet ≡ none)
      × (parse_msg2 packet ≡ none)
unfolding build_msg1 ver_phase_byte parse_encrypted parse_msg1 parse_msg2 le_bytes
parse-build_msg1 sender_idx noise_msg1 h k =
    let size : (length (build_msg1 sender_idx noise_msg1) == 114) ≡ true = ground (arith, k) in
    (rw (size, from_le-le_bytes 4 sender_idx h) refl, refl, if_same _ none, if_same _ none)

pub parse-build_msg2 :
    (sender_idx receiver_idx : ℕ) (noise_msg2 : List ℕ)
    → sender_idx < 256 ^ 4
    → receiver_idx < 256 ^ 4
    → length noise_msg2 ≡ handshake_msg2_size
    → let packet = build_msg2 sender_idx receiver_idx noise_msg2 in
      (parse_msg2 packet
        ≡ some (record {
          sender_idx = sender_idx;
          receiver_idx = receiver_idx;
          noise_msg2_offset = 12;
        }))
      × (drop 12 packet ≡ noise_msg2)
      × (parse_encrypted packet ≡ none)
      × (parse_msg1 packet ≡ none)
unfolding build_msg2 ver_phase_byte parse_encrypted parse_msg1 parse_msg2 le_bytes
parse-build_msg2 sender_idx receiver_idx noise_msg2 h k l =
    let size : (length (build_msg2 sender_idx receiver_idx noise_msg2) == 69) ≡ true =
      ground (arith, l) in
    (
      rw (size, from_le-le_bytes 4 sender_idx h, from_le-le_bytes 4 receiver_idx k) refl,
      refl,
      if_same _ none,
      if_same _ none,
    )

pub strip-prepend_inner_header :
    (timestamp_ms : ℕ) (plaintext : List ℕ)
    → timestamp_ms < 256 ^ 4
    → 1 ≤ length plaintext
    → strip_inner_header (prepend_inner_header timestamp_ms plaintext)
      ≡ some (timestamp_ms, plaintext)
unfolding strip_inner_header prepend_inner_header le_bytes
strip-prepend_inner_header timestamp_ms plaintext h k =
    let enough : ltb (length (prepend_inner_header timestamp_ms plaintext)) 5 ≡ false =
      ground (arith, k) in
    rw (enough, from_le-le_bytes 4 timestamp_ms h) refl
