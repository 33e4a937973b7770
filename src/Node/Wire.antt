-- ===== src/Node/Wire.antt =====
-- fips/src/node/wire.rs: the headers of link packets. A packet is its list of bytes; every parser
-- checks the length before it reads.
pub mod Laws
use Prim.Native.Nat.{bit_and, bit_or}
use fips_native.Base.{
  ℕ, ◌+◌, ◌*◌, ◌/◌, ◌%◌, ◌^◌, List, [], ◌∷◌, ◌++◌, Bool, not, ◌&&◌, ◌||◌, Option, none, some, ltb,
  ◌==◌, if◌then◌else◌, length, get_or, take, drop,
}
use fips_native.Codec.Bytes.{le_bytes, from_le}

abbrev fmp_version : ℕ
fmp_version = 0

abbrev pub phase_established : ℕ
phase_established = 0

abbrev pub phase_msg1 : ℕ
phase_msg1 = 1

abbrev pub phase_msg2 : ℕ
phase_msg2 = 2

abbrev pub handshake_msg1_size : ℕ
handshake_msg1_size = 33 + 33 + 16 + 24

abbrev pub handshake_msg2_size : ℕ
handshake_msg2_size = 33 + 24

-- A byte, and a little-endian integer of `w` bytes, of a slice that reaches so far.
abbrev pub byte : List ℕ → ℕ → ℕ
byte packet i = get_or packet i 0

abbrev pub int : ℕ → List ℕ → ℕ → ℕ
int w packet i = from_le (take w (drop i packet))

abbrev pub version_of : List ℕ → ℕ
version_of packet = byte packet 0 / 16

abbrev pub phase_of : List ℕ → ℕ
phase_of packet = bit_and (byte packet 0) 15

pub record CommonPrefix : Type 0 where
  pub version : ℕ
  pub phase : ℕ
  pub flags : ℕ
  pub payload_len : ℕ

unfoldable pub parse_prefix : List ℕ → Option CommonPrefix
parse_prefix packet =
    if ltb (length packet) 4
    then none
    else some (record {
      version = version_of packet;
      phase = phase_of packet;
      flags = byte packet 1;
      payload_len = int 2 packet 2;
    })

unfoldable pub ver_phase_byte : ℕ → ℕ → ℕ
ver_phase_byte version phase = bit_or (version * 16 % 256) (bit_and phase 15)

pub record EncryptedHeader : Type 0 where
  pub flags : ℕ
  pub payload_len : ℕ
  pub receiver_idx : ℕ
  pub counter : ℕ
  pub header_bytes : List ℕ

unfoldable pub parse_encrypted : List ℕ → Option EncryptedHeader
parse_encrypted packet =
    if ltb (length packet) (16 + 16)
    then none
    else if not (version_of packet == fmp_version) || not (phase_of packet == phase_established)
    then none
    else some (record {
      flags = byte packet 1;
      payload_len = int 2 packet 2;
      receiver_idx = int 4 packet 4;
      counter = int 8 packet 8;
      header_bytes = take 16 packet;
    })

pub record Msg1Header : Type 0 where
  pub sender_idx : ℕ
  pub noise_msg1_offset : ℕ

unfoldable pub parse_msg1 : List ℕ → Option Msg1Header
parse_msg1 packet =
    if not (length packet == 4 + 4 + handshake_msg1_size)
    then none
    else if not (version_of packet == fmp_version) || not (phase_of packet == phase_msg1)
    then none
    else if not (byte packet 1 == 0)
    then none
    else some (record { sender_idx = int 4 packet 4; noise_msg1_offset = 8 })

pub record Msg2Header : Type 0 where
  pub sender_idx : ℕ
  pub receiver_idx : ℕ
  pub noise_msg2_offset : ℕ

unfoldable pub parse_msg2 : List ℕ → Option Msg2Header
parse_msg2 packet =
    if not (length packet == 4 + 4 + 4 + handshake_msg2_size)
    then none
    else if not (version_of packet == fmp_version) || not (phase_of packet == phase_msg2)
    then none
    else if not (byte packet 1 == 0)
    then none
    else some (record {
      sender_idx = int 4 packet 4;
      receiver_idx = int 4 packet 8;
      noise_msg2_offset = 12;
    })

unfoldable pub build_msg1 : ℕ → List ℕ → List ℕ
unfolding ver_phase_byte
build_msg1 sender_idx noise_msg1 =
    ver_phase_byte fmp_version phase_msg1
    ∷ 0
    ∷ (le_bytes 2 ((4 + length noise_msg1) % 2 ^ 16) ++ (le_bytes 4 sender_idx ++ noise_msg1))

unfoldable pub build_msg2 : ℕ → ℕ → List ℕ → List ℕ
unfolding ver_phase_byte
build_msg2 sender_idx receiver_idx noise_msg2 =
    ver_phase_byte fmp_version phase_msg2
    ∷ 0
    ∷ (le_bytes 2 ((4 + 4 + length noise_msg2) % 2 ^ 16)
        ++ (le_bytes 4 sender_idx ++ (le_bytes 4 receiver_idx ++ noise_msg2)))

unfoldable pub build_established_header : ℕ → ℕ → ℕ → ℕ → List ℕ
unfolding ver_phase_byte
build_established_header receiver_idx counter flags payload_len =
    ver_phase_byte fmp_version phase_established
    ∷ flags
    ∷ (le_bytes 2 payload_len ++ (le_bytes 4 receiver_idx ++ le_bytes 8 counter))

abbrev pub build_encrypted : List ℕ → List ℕ → List ℕ
build_encrypted header ciphertext = header ++ ciphertext

unfoldable pub prepend_inner_header : ℕ → List ℕ → List ℕ
prepend_inner_header timestamp_ms plaintext = le_bytes 4 timestamp_ms ++ plaintext

unfoldable pub strip_inner_header : List ℕ → Option (ℕ × List ℕ)
strip_inner_header plaintext =
    if ltb (length plaintext) 5 then none else some (int 4 plaintext 0, drop 4 plaintext)
