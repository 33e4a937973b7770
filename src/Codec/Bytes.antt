-- ===== src/Codec/Bytes.antt =====
-- Integers and addresses as bytes.
-- A `NodeAddr` ([u8; 16], fips/src/identity/node_addr.rs) is the number that its bytes spell, the
-- first byte the highest: the numeric order is the order of the arrays.
use fips_native.Base.{
  ℕ, zero, suc, ◌+◌, ◌*◌, ◌/◌, ◌%◌, ◌^◌, ◌<◌, ◌≡◌, refl, ap, ◌∙◌, arith, List, [], ◌∷◌, ◌++◌,
  length, length-append, All,
}
use mathlib.Core.List.{reverse, reverse-cons, reverse-reverse}
use native.Mathlib.Nat.{pow-suc}

abbrev IsByte : ℕ → Type 0
IsByte b = b < 256

-- `to_le_bytes` of an integer of `w` bytes, and `from_le_bytes`.
unfoldable pub le_bytes : ℕ → ℕ → List ℕ
le_bytes zero n = []
le_bytes (suc w) n = (n % 256) ∷ le_bytes w (n / 256)

unfoldable pub from_le : List ℕ → ℕ
from_le [] = 0
from_le (b ∷ bs) = b + 256 * from_le bs

pub length-le_bytes : (w n : ℕ) → length (le_bytes w n) ≡ w
unfolding le_bytes
length-le_bytes zero n = refl
length-le_bytes (suc w) n = ap suc (length-le_bytes w (n / 256))

le_bytes-IsByte : (w n : ℕ) → All IsByte (le_bytes w n)
unfolding le_bytes
le_bytes-IsByte zero n = tt
le_bytes-IsByte (suc w) n = (omega arith, le_bytes-IsByte w (n / 256))

pub from_le-le_bytes : (w n : ℕ) → n < 256 ^ w → from_le (le_bytes w n) ≡ n
unfolding le_bytes from_le
from_le-le_bytes zero n h = omega arith
from_le-le_bytes (suc w) n h =
    omega (arith, from_le-le_bytes w (n / 256) (omega (arith, pow-suc 256 w)))

from_le-lt : (bs : List ℕ) → All IsByte bs → from_le bs < 256 ^ length bs
unfolding from_le
from_le-lt [] h = omega arith
from_le-lt (b ∷ bs) h = omega (arith, pow-suc 256 (length bs), from_le-lt bs h.1)

le_bytes-from_le : (bs : List ℕ) → All IsByte bs → le_bytes (length bs) (from_le bs) ≡ bs
unfolding le_bytes from_le
le_bytes-from_le [] h = refl
le_bytes-from_le (b ∷ bs) h =
    let low : (b + 256 * from_le bs) % 256 ≡ b = omega arith in
    let high : (b + 256 * from_le bs) / 256 ≡ from_le bs = omega arith in
    rw (low, high, le_bytes-from_le bs h.1)

-- `NodeAddr::as_bytes` and `from_bytes`.
abbrev node_addr_len : ℕ
node_addr_len = 16

abbrev pub IsNodeAddr : ℕ → Type 0
IsNodeAddr a = a < 256 ^ 16

unfoldable pub as_bytes : ℕ → List ℕ
as_bytes a = reverse (le_bytes node_addr_len a)

unfoldable pub from_bytes : List ℕ → ℕ
from_bytes bs = from_le (reverse bs)

length-reverse : (xs : List ℕ) → length (reverse xs) ≡ length xs
length-reverse [] = refl
length-reverse (x ∷ xs) =
    omega
      (arith, ap length (reverse-cons x xs), length-append (reverse xs) (x ∷ []), length-reverse xs)

pub length-as_bytes : (a : ℕ) → length (as_bytes a) ≡ 16
unfolding as_bytes
length-as_bytes a = length-reverse (le_bytes 16 a) ∙ length-le_bytes 16 a

pub from_bytes-as_bytes : (a : ℕ) → IsNodeAddr a → from_bytes (as_bytes a) ≡ a
unfolding as_bytes from_bytes
from_bytes-as_bytes a h = rw (reverse-reverse (le_bytes 16 a)) (from_le-le_bytes 16 a h)

pub length_uint : (w n : ℕ) (ys : List ℕ) → length (le_bytes w n ++ ys) ≡ w + length ys
length_uint w n ys = omega (arith, length-append (le_bytes w n) ys, length-le_bytes w n)

pub length_addr : (a : ℕ) (ys : List ℕ) → length (as_bytes a ++ ys) ≡ 16 + length ys
length_addr a ys = omega (arith, length-append (as_bytes a) ys, length-as_bytes a)

-- The two bytes of a u16, spelt out where a prefix is stripped again.
abbrev pub u16_bytes : ℕ → List ℕ
u16_bytes n = (n % 256) ∷ (n / 256 % 256) ∷ []

u16_bytes-le_bytes : (n : ℕ) → u16_bytes n ≡ le_bytes 2 n
unfolding le_bytes
u16_bytes-le_bytes n = refl
