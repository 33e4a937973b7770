-- ===== src/Protocol/Handshake.antt =====
-- fips/src/protocol/session.rs: what the three handshake messages share, a payload behind its
-- length, and the 4-byte prefix of the session layer.
use fips_native.Base.{
  ℕ, ◌%◌, ◌^◌, ◌<◌, ◌≡◌, refl, arith, List, [], ◌∷◌, ◌++◌, length, length-append,
}
use fips_native.Codec.Bytes.{le_bytes, length_uint, u16_bytes}
use fips_native.Codec.Reader.{
  ok, Reader, ◌>>=◌, ◌>>◌, bytes, uint, need, need_met, bytes_written, uint_written,
}
use fips_native.Codec.Safety.{Safe, bytes-Takes, uint-Takes, Safe-bind, need-Safe}
use native.Mathlib.Nat.{mod-eq_of_lt}

abbrev pub u16_max : ℕ
u16_max = 256 ^ 2

-- `(len as u16).to_le_bytes()` and the payload.
unfoldable pub encode_payload : List ℕ → List ℕ
encode_payload p = le_bytes 2 (length p % 2 ^ 16) ++ (p ++ [])

-- `hs_len`, and as many bytes; `total` is the length of the whole message.
unfoldable pub decode_payload : ℕ → Reader (List ℕ)
decode_payload total = do need total 2; hs_len ← uint 2; need total hs_len; bytes hs_len

-- The prefix of a handshake message of a phase: version 0, no flags, the length of the body.
unfoldable pub with_prefix : ℕ → List ℕ → List ℕ
with_prefix ver_phase body = ver_phase ∷ 0x00 ∷ (u16_bytes (length body % 2 ^ 16) ++ body)

pub payload_written :
    (total : ℕ) (p : List ℕ)
    → length p < u16_max
    → decode_payload total (encode_payload p) ≡ ok (p, [])
unfolding decode_payload encode_payload
payload_written total p h = rw (mod-eq_of_lt {m = 2 ^ 16} h) (
    rw (need_met total 2 (le_bytes 2 (length p) ++ (p ++ [])) (omega (arith, length_uint)), ◌>>=◌)
      (rw (uint_written 2 (length p) h (p ++ []), ◌>>=◌)
        (rw (need_met total (length p) (p ++ []) (omega (arith, length-append p [])), ◌>>=◌)
          (bytes_written (length p) p refl []))))

pub decode_payload-Safe : (total : ℕ) → Safe 0 (decode_payload total)
unfolding decode_payload
decode_payload-Safe total =
    need-Safe total 2 _ (
      Safe-bind 2 0 (uint 2) _ (uint-Takes 2)
        λ hs_len. need-Safe total hs_len _ (bytes-Safe hs_len))
  where
    bytes-Safe : (n : ℕ) → Safe n (bytes n)
    bytes-Safe n xs h = let (b, l, e, k) = bytes-Takes n xs h in rw e (λ p. cc)
