-- ===== src/Node/SessionWire.antt =====
-- fips/src/node/session_wire.rs: the headers of session packets. A packet is its list of bytes;
-- every parser checks the length before it reads.
pub mod Laws
use Prim.Native.Nat.{bit_and, bit_or}
use fips_native.Base.{
  ℕ, ◌+◌, ◌*◌, ◌/◌, ◌%◌, List, [], ◌∷◌, ◌++◌, Bool, not, ◌||◌, Option, none, some, ltb, ◌==◌,
  if◌then◌else◌, length, take, drop,
}
use fips_native.Codec.Bytes.{le_bytes}
use fips_native.Node.Wire.{byte, int, version_of, phase_of}

abbrev fsp_version : ℕ
fsp_version = 0

abbrev pub fsp_phase_established : ℕ
fsp_phase_established = 0

abbrev pub fsp_flag_cp : ℕ
fsp_flag_cp = 1

abbrev pub fsp_flag_u : ℕ
fsp_flag_u = 4

pub record FspCommonPrefix : Type 0 where
  pub version : ℕ
  pub phase : ℕ
  pub flags : ℕ
  pub payload_len : ℕ

unfoldable pub parse_fsp_prefix : List ℕ → Option FspCommonPrefix
parse_fsp_prefix packet =
    if ltb (length packet) 4
    then none
    else some (record {
      version = version_of packet;
      phase = phase_of packet;
      flags = byte packet 1;
      payload_len = int 2 packet 2;
    })

abbrev pub is_unencrypted : FspCommonPrefix → Bool
is_unencrypted prefix = not (bit_and prefix.flags fsp_flag_u == 0)

abbrev pub has_coords : FspCommonPrefix → Bool
has_coords prefix = not (bit_and prefix.flags fsp_flag_cp == 0)

unfoldable pub ver_phase_byte : ℕ → ℕ → ℕ
ver_phase_byte version phase = bit_or (version * 16 % 256) (bit_and phase 15)

pub record FspEncryptedHeader : Type 0 where
  pub flags : ℕ
  pub payload_len : ℕ
  pub counter : ℕ
  pub header_bytes : List ℕ

unfoldable pub parse_fsp_encrypted : List ℕ → Option FspEncryptedHeader
parse_fsp_encrypted packet =
    if ltb (length packet) (12 + 16)
    then none
    else if not (version_of packet == fsp_version) || not (phase_of packet == fsp_phase_established)
    then none
    else if not (bit_and (byte packet 1) fsp_flag_u == 0)
    then none
    else some (record {
      flags = byte packet 1;
      payload_len = int 2 packet 2;
      counter = int 8 packet 4;
      header_bytes = take 12 packet;
    })

unfoldable pub build_fsp_header : ℕ → ℕ → ℕ → List ℕ
unfolding ver_phase_byte
build_fsp_header counter flags payload_len =
    ver_phase_byte fsp_version fsp_phase_established
    ∷ flags
    ∷ (le_bytes 2 payload_len ++ le_bytes 8 counter)

abbrev pub build_fsp_encrypted : List ℕ → List ℕ → List ℕ
build_fsp_encrypted header ciphertext = header ++ ciphertext

unfoldable pub build_fsp_handshake_prefix : ℕ → ℕ → List ℕ
unfolding ver_phase_byte
build_fsp_handshake_prefix phase payload_len =
    ver_phase_byte fsp_version phase ∷ 0 ∷ le_bytes 2 payload_len

unfoldable pub build_fsp_error_prefix : ℕ → List ℕ
unfolding ver_phase_byte
build_fsp_error_prefix payload_len =
    ver_phase_byte fsp_version fsp_phase_established ∷ fsp_flag_u ∷ le_bytes 2 payload_len

unfoldable pub fsp_prepend_inner_header : ℕ → ℕ → ℕ → List ℕ → List ℕ
fsp_prepend_inner_header timestamp_ms msg_type inner_flags payload =
    le_bytes 4 timestamp_ms ++ (msg_type ∷ inner_flags ∷ payload)

unfoldable pub fsp_strip_inner_header : List ℕ → Option (ℕ × ℕ × ℕ × List ℕ)
fsp_strip_inner_header plaintext =
    if ltb (length plaintext) 6
    then none
    else some (int 4 plaintext 0, byte plaintext 4, byte plaintext 5, drop 6 plaintext)
