-- ===== src/Codec/Reader.antt =====
-- Results of the decoders, and the cursor.
use fips_native.Base.{
  ℕ, ◌+◌, ◌-◌, ◌^◌, ◌≤◌, ◌<◌, ◌≡◌, ap, arith, List, [], ◌∷◌, ◌++◌, leb, ltb, if◌then◌else◌, length,
  length-append, take, drop, take-append, drop-append, le→leb, le→ltb,
}
use Prim.Native.String.{String}
use fips_native.Codec.Bytes.{
  le_bytes, from_le, length-le_bytes, from_le-le_bytes, as_bytes, from_bytes, length-as_bytes,
  from_bytes-as_bytes, IsNodeAddr,
}

-- fips/src/protocol/error.rs. The text of `Malformed` is the format string of the source.
pub data ProtocolError : Type 0 where
  invalid_message_type : ℕ → ProtocolError
  message_too_short : ℕ → ℕ → ProtocolError
  message_too_long : ℕ → ℕ → ProtocolError
  invalid_signature : ProtocolError
  unsupported_version : ℕ → ProtocolError
  malformed : String → ProtocolError
  hop_limit_exceeded : ProtocolError
  ttl_expired : ProtocolError

pub data Outcome {ℓ} (A : Type ℓ) : Type ℓ where
  ok : A → Outcome A
  err : ProtocolError → Outcome A
  panic : Outcome A

abbrev pub Reader {ℓ} : Type ℓ → Type ℓ
Reader A = List ℕ → Outcome (A × List ℕ)

infixl 5 ◌>>=◌ ◌>>◌
abbrev pub ◌>>=◌ {ℓ κ} : {A : Type ℓ} {B : Type κ} → Reader A → (A → Reader B) → Reader B
◌>>=◌ m f xs = elim (m xs) [ ok (a, rest) ↦ f a rest | err e ↦ err e | panic ↦ panic ]

abbrev pub ◌>>◌ {ℓ κ} : {A : Type ℓ} {B : Type κ} → Reader A → Reader B → Reader B
m >> k = m >>= λ _. k

abbrev pub pure {ℓ} : {A : Type ℓ} → A → Reader A
pure a xs = ok (a, xs)

abbrev pub fail {ℓ} : {A : Type ℓ} → ProtocolError → Reader A
fail e xs = err e

-- The length of what is left.
abbrev remaining : Reader ℕ
remaining xs = ok (length xs, xs)

-- The result, whatever bytes are left.
abbrev pub result {ℓ} : {A : Type ℓ} → Outcome (A × List ℕ) → Outcome A
result (ok (a, rest)) = ok a
result (err e) = err e
result panic = panic

unfoldable pub bytes : ℕ → Reader (List ℕ)
bytes n xs = if leb n (length xs) then ok (take n xs, drop n xs) else panic

unfoldable pub u8 : Reader ℕ
u8 [] = panic
u8 (x ∷ xs) = ok (x, xs)

-- A little-endian integer of `w` bytes.
unfoldable pub uint : ℕ → Reader ℕ
uint w = do b ← bytes w; pure (from_le b)

unfoldable pub addr : Reader ℕ
addr = do b ← bytes 16; pure (from_bytes b)

-- Each reader gives back what was written in front of the cursor.
pub bytes_written :
    (n : ℕ) (xs : List ℕ) → length xs ≡ n → (ys : List ℕ) → bytes n (xs ++ ys) ≡ ok (xs, ys)
unfolding bytes
bytes_written n xs e ys = rw (← e) (
    rw (
      le→leb (length xs) (length (xs ++ ys)) (omega (arith, length-append xs ys)),
      take-append xs ys,
      drop-append xs ys,
    ))

pub uint_written :
    (w n : ℕ) → n < 256 ^ w → (ys : List ℕ) → uint w (le_bytes w n ++ ys) ≡ ok (n, ys)
unfolding uint
uint_written w n h ys =
    rw (bytes_written w (le_bytes w n) (length-le_bytes w n) ys, uint, ◌>>=◌)
      (ap (λ (t : ℕ). ok (t, ys)) (from_le-le_bytes w n h))

pub addr_written : (a : ℕ) → IsNodeAddr a → (ys : List ℕ) → addr (as_bytes a ++ ys) ≡ ok (a, ys)
unfolding addr
addr_written a h ys =
    rw (bytes_written 16 (as_bytes a) (length-as_bytes a) ys, addr, ◌>>=◌)
      (ap (λ (t : ℕ). ok (t, ys)) (from_bytes-as_bytes a h))

-- `payload[pos..]`: all that is left.
unfoldable pub rest : Reader (List ℕ)
rest xs = ok (xs, [])

-- `payload.len() < offset + n`: the check that `n` more bytes are there, of `total` bytes in all.
unfoldable pub need : ℕ → ℕ → Reader (Unit {0})
need total n xs =
    if ltb (length xs) n then err (message_too_short (total - length xs + n) total) else ok (tt, xs)

pub need_met : (total n : ℕ) (xs : List ℕ) → n ≤ length xs → need total n xs ≡ ok (tt, xs)
unfolding need
need_met total n xs h = rw (le→ltb (length xs) n h)
