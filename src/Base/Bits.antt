-- ===== src/Base/Bits.antt =====
-- Machine words as numbers, read one binary digit at a time: `bit a i` is digit `i` of `a`.
mod Step
use Prim.Native.Nat.{
  ℕ, zero, suc, ◌+◌, ◌-◌, ◌*◌, ◌/◌, ◌%◌, ◌^◌, ◌≤◌, ◌<◌, min, max, bit_and, bit_or,
}
use mathlib.Core.Path.{◌≡◌, refl, ap, sym, ◌∙◌}
use native.Mathlib.Nat.{
  pow-suc, one-le-pow, div-div-eq-div-mul, div-add-mod, mod-lt, mul-add-mod_self_left, mod-eq_of_lt,
  mul-one, zero-add, suc-add, div-one,
}
use native.Mathlib.Omega.{arith}
use fips_native.Base.Tests.{ltb, ◌==◌, if◌then◌else◌}
use Step.{bit_or_step, bit_and_step}

unfoldable pub bit : ℕ → ℕ → ℕ
bit a zero = a % 2
bit a (suc i) = bit (a / 2) i

pub bit-lt_two : (a i : ℕ) → bit a i < 2
unfolding bit
bit-lt_two a zero = omega arith
bit-lt_two a (suc i) = bit-lt_two (a / 2) i

pub bit-zero : (i : ℕ) → bit 0 i ≡ 0
unfolding bit
bit-zero zero = refl
bit-zero (suc i) = bit-zero i

-- The digit as the source reads it, by a shift.
pow_double : (k : ℕ) → 2 ^ suc k ≡ 2 * 2 ^ k
pow_double k = omega (arith, pow-suc 2 k)

pub two_pow_add : (a b : ℕ) → 2 ^ a * 2 ^ b ≡ 2 ^ (a + b)
two_pow_add zero b = rw (zero-add b) (omega arith)
two_pow_add (suc a) b =
    rw (suc-add a b)
      (omega (arith, ap (λ (t : ℕ). t * 2 ^ b) (pow_double a), two_pow_add a b, pow_double (a + b)))

pow_half : (k : ℕ) → 2 ^ suc k / 2 ≡ 2 ^ k
pow_half k = omega (arith, pow-suc 2 k)

div_pow_suc : (a k : ℕ) → a / 2 ^ suc k ≡ a / 2 / 2 ^ k
div_pow_suc a k = rw (pow_double k) (sym (div-div-eq-div-mul a 2 (2 ^ k)))

shl_half : (a k : ℕ) → a * 2 ^ suc k / 2 ≡ a * 2 ^ k
shl_half a k = omega (arith, ap (λ (t : ℕ). a * t) (pow_double k))

shl_even : (a k : ℕ) → a * 2 ^ suc k % 2 ≡ 0
shl_even a k = omega (arith, ap (λ (t : ℕ). a * t) (pow_double k))

-- The remainder by `2 ^ (w + 1)` keeps the lowest digit, and halves to the remainder by `2 ^ w`.
split_pow : (a w : ℕ) → a ≡ 2 * (2 ^ w * (a / 2 ^ suc w)) + a % 2 ^ suc w
split_pow a w =
    omega (arith, div-add-mod a (2 ^ suc w), ap (λ (t : ℕ). t * (a / 2 ^ suc w)) (pow_double w))

mod_pow_even : (a w : ℕ) → a % 2 ^ suc w % 2 ≡ a % 2
mod_pow_even a w = omega (arith, split_pow a w)

mod_pow_lt : (a w : ℕ) → a % 2 ^ w < 2 ^ w
mod_pow_lt a w = mod-lt a (one-le-pow w 2 (omega arith))

mod_pow_half : (a w : ℕ) → a % 2 ^ suc w / 2 ≡ a / 2 % 2 ^ w
mod_pow_half a w =
    let r : ℕ = a % 2 ^ suc w / 2 in
    let low : r < 2 ^ w = omega (arith, mod_pow_lt a (suc w), pow_double w) in
    let e : a / 2 ≡ 2 ^ w * (a / 2 ^ suc w) + r = omega (arith, split_pow a w) in
    sym (
      ap (λ (t : ℕ). t % 2 ^ w) e
      ∙ mul-add-mod_self_left (2 ^ w) (a / 2 ^ suc w) r
      ∙ mod-eq_of_lt low)

pub shift-bit : (a i : ℕ) → a / 2 ^ i % 2 ≡ bit a i
unfolding bit
shift-bit a zero = omega arith
shift-bit a (suc i) = rw (div_pow_suc a i) (shift-bit (a / 2) i)

pub bit-bit_or : (a b i : ℕ) → bit (bit_or a b) i ≡ max (bit a i) (bit b i)
unfolding bit
bit-bit_or a b zero = omega (arith, bit_or_step a b)
bit-bit_or a b (suc i) =
    let half : bit_or a b / 2 ≡ bit_or (a / 2) (b / 2) = omega (arith, bit_or_step a b) in
    rw half (bit-bit_or (a / 2) (b / 2) i)

pub bit-two_pow : (k i : ℕ) → bit (2 ^ k) i ≡ (if k == i then 1 else 0)
unfolding bit
bit-two_pow zero zero = refl
bit-two_pow zero (suc i) = rw (bit-zero i) (ground arith)
bit-two_pow (suc k) zero = rw (ap (λ (t : ℕ). t % 2) (pow_double k)) (ground arith)
bit-two_pow (suc k) (suc i) = rw (pow_half k, bit-two_pow k i) (ground arith)

-- With as many rounds as the number is large, by recursion on their count.
bit_and-zero_within : (rounds x : ℕ) → x ≤ rounds → bit_and x 0 ≡ 0
bit_and-zero_within rounds zero l = refl
bit_and-zero_within zero (suc x) l = absurd (omega arith)
bit_and-zero_within (suc rounds) (suc x) l =
    let halved = bit_and-zero_within rounds (suc x / 2) (omega arith) in
    omega (arith, bit_and_step (suc x) 0, halved)

bit_and-zero : (x : ℕ) → bit_and x 0 ≡ 0
bit_and-zero x = bit_and-zero_within x x (omega arith)

-- `a & (1 << k)` is digit `k` in its place.
pub bit_and-two_pow : (k a : ℕ) → bit_and a (2 ^ k) ≡ bit a k * 2 ^ k
unfolding bit
bit_and-two_pow zero a = omega (arith, bit_and_step a 1, bit_and-zero (a / 2))
bit_and-two_pow (suc k) a = omega (
  arith,
  bit_and_step a (2 ^ suc k),
  pow_double k,
  ap (bit_and (a / 2)) (pow_half k),
  bit_and-two_pow k (a / 2),
  ap (λ (t : ℕ). bit (a / 2) k * t) (pow_double k),
)

-- Beyond the width there are only zeros.
pub bit_above : (w a i : ℕ) → a < 2 ^ w → w ≤ i → bit a i ≡ 0
unfolding bit
bit_above zero a i h k = let e : a ≡ 0 = omega arith in rw e (bit-zero i)
bit_above (suc w) a zero h k = absurd (omega arith)
bit_above (suc w) a (suc i) h k = bit_above w (a / 2) i (omega (arith, pow-suc 2 w)) (omega arith)

-- `a << k` within `w` bits.
pub bit_shl_low : (k a i : ℕ) → i < k → bit (a * 2 ^ k) i ≡ 0
unfolding bit
bit_shl_low zero a i h = absurd (omega arith)
bit_shl_low (suc k) a zero h = shl_even a k
bit_shl_low (suc k) a (suc i) h = rw (shl_half a k) (bit_shl_low k a i (omega arith))

pub bit_shl_high : (k a i : ℕ) → bit (a * 2 ^ k) (k + i) ≡ bit a i
unfolding bit
bit_shl_high zero a i = rw (mul-one a, zero-add i)
bit_shl_high (suc k) a i = rw (suc-add k i) (rw (shl_half a k, bit) (bit_shl_high k a i))

pub bit_truncate : (w a i : ℕ) → i < w → bit (a % 2 ^ w) i ≡ bit a i
unfolding bit
bit_truncate zero a i h = absurd (omega arith)
bit_truncate (suc w) a zero h = mod_pow_even a w
bit_truncate (suc w) a (suc i) h = rw (mod_pow_half a w) (bit_truncate w (a / 2) i (omega arith))

-- `a >> k`.
pub bit_shr : (k a i : ℕ) → bit (a / 2 ^ k) i ≡ bit a (k + i)
unfolding bit
bit_shr zero a i = rw (div-one a, zero-add i)
bit_shr (suc k) a i = rw (suc-add k i, div_pow_suc a k) (bit_shr k (a / 2) i)

-- `a | b` of two words is a word.
pub bit_or-lt : (w a b : ℕ) → a < 2 ^ w → b < 2 ^ w → bit_or a b < 2 ^ w
bit_or-lt zero a b h k =
    let ea : a ≡ 0 = omega arith in let eb : b ≡ 0 = omega arith in rw (ea, eb) (omega arith)
bit_or-lt (suc w) a b h k = omega (
  arith,
  pow_double w,
  bit_or_step a b,
  bit_or-lt w (a / 2) (b / 2) (omega (arith, pow_double w)) (omega (arith, pow_double w)),
)

pub mod_pow-lt : (a w : ℕ) → a % 2 ^ w < 2 ^ w
mod_pow-lt = mod_pow_lt
