-- ===== src/Noise/Replay/Carry.antt =====
-- The loop with the carry, bit by bit.
use fips_native.Base.{
  ℕ, zero, suc, ◌+◌, ◌-◌, ◌*◌, ◌/◌, ◌%◌, ◌^◌, ◌<◌, ◌≡◌, ap, ◌∙◌, arith, List, length, get_or_past,
}
use fips_native.Base.Bits.{
  bit, bit-zero, bit-bit_or, bit_above, bit_shl_low, bit_shl_high, bit_truncate, bit_shr, bit_or-lt,
  mod_pow-lt, two_pow_add,
}
use native.Mathlib.Decide.{dec_lt}
use native.Mathlib.Nat.{one-le-pow, div-lt_iff_lt-mul, pow-le-pow_right, lt_of_lt_of_le}
use fips_native.Noise.Replay.{word, shift_bits, bitmap_len, replay_window_size}
use fips_native.Noise.Replay.Words.{length-shift_bits, carry_in, word-shift_bits}
use fips_native.Noise.Replay.Bitmap.{IsBitmap, window_bit}

-- The second phase, by `s` bits, less than a word.
module _ (s : ℕ) (b : List ℕ) (p : 0 < s) (h : s < 64) (v : IsBitmap b) where
  pub split_width : 2 ^ s * 2 ^ (64 - s) ≡ 2 ^ 64
  split_width = two_pow_add s (64 - s) ∙ ap (λ (t : ℕ). 2 ^ t) {y = 64} (omega arith)

  pub carry_in-lt : (q : ℕ) → carry_in s 0 b q < 2 ^ s
  carry_in-lt zero = one-le-pow s 2 (omega arith)
  carry_in-lt (suc q) =
      (div-lt_iff_lt-mul {k = 2 ^ (64 - s)} {x = word b q} {y = 2 ^ s}
          (one-le-pow (64 - s) 2 (omega arith))).1
        (rw split_width (v.fits q))

  pub fits-shift_bits : (j : ℕ) → word (shift_bits s 0 b) j < 2 ^ 64
  fits-shift_bits j = elim (dec_lt j (length b)) [
    | yes inside ↦ rw (word-shift_bits s 0 b j inside) (
        bit_or-lt 64 (word b j * 2 ^ s % 2 ^ 64) (carry_in s 0 b j)
          (mod_pow-lt (word b j * 2 ^ s) 64)
          (lt_of_lt_of_le (carry_in-lt j)
            (pow-le-pow_right {n = 2} (omega arith) {j = 64} (omega arith))))
    | no past ↦
        rw (get_or_past (shift_bits s 0 b) j 0 (omega (arith, length-shift_bits s 0 b)))
          (omega arith)
  ]

  pub shift_bits-IsBitmap : IsBitmap (shift_bits s 0 b)
  shift_bits-IsBitmap = record { words = length-shift_bits s 0 b ∙ v.words; fits = fits-shift_bits }

  -- Bit `i` of word `q` comes from the carry below `s`, and from the word itself from `s` on.
  pub bit-shift_bits_low :
      (q i : ℕ)
      → q < bitmap_len
      → i < s
      → bit (word (shift_bits s 0 b) q) i ≡ bit (carry_in s 0 b q) i
  bit-shift_bits_low q i l k =
      rw
        (
          word-shift_bits s 0 b q (rw v.words l),
          bit-bit_or (word b q * 2 ^ s % 2 ^ 64) (carry_in s 0 b q) i,
        )
        (rw (bit_truncate 64 (word b q * 2 ^ s) i (omega arith), bit_shl_low s (word b q) i k)
          (omega arith))

  pub bit-shift_bits_high :
      (q i : ℕ)
      → q < bitmap_len
      → s + i < 64
      → bit (word (shift_bits s 0 b) q) (s + i) ≡ bit (word b q) i
  bit-shift_bits_high q i l k =
      rw
        (
          word-shift_bits s 0 b q (rw v.words l),
          bit-bit_or (word b q * 2 ^ s % 2 ^ 64) (carry_in s 0 b q) (s + i),
        )
        (rw
          (
            bit_truncate 64 (word b q * 2 ^ s) (s + i) k,
            bit_shl_high s (word b q) i,
            bit_above s (carry_in s 0 b q) (s + i) (carry_in-lt q) (omega arith),
          )
          (omega arith))

  pub window_bit-shift_bits_low : (j : ℕ) → j < s → window_bit (shift_bits s 0 b) j ≡ 0
  unfolding window_bit
  window_bit-shift_bits_low j l =
      let q : j / 64 ≡ 0 = omega arith in
      let r : j % 64 ≡ j = omega arith in
      rw (q, r) (bit-shift_bits_low 0 j (omega arith) l ∙ bit-zero j)

  pub window_bit-shift_bits_high :
      (j : ℕ) → s + j < replay_window_size → window_bit (shift_bits s 0 b) (s + j) ≡ window_bit b j
  unfolding window_bit
  window_bit-shift_bits_high j l = elim (dec_lt (s + j % 64) 64) [
    | yes same ↦
        let q : (s + j) / 64 ≡ j / 64 = omega arith in
        let r : (s + j) % 64 ≡ s + j % 64 = omega arith in
        rw (q, r) (bit-shift_bits_high (j / 64) (j % 64) (omega arith) same)
    | no above ↦
        let i : ℕ = s + j % 64 - 64 in
        let q : (s + j) / 64 ≡ suc (j / 64) = omega arith in
        let r : (s + j) % 64 ≡ i = omega arith in
        let back : 64 - s + i ≡ j % 64 = omega arith in
        rw (q, r)
          (bit-shift_bits_low (suc (j / 64)) i (omega arith) (omega arith)
            ∙ bit_shr (64 - s) (word b (j / 64)) i
            ∙ ap (bit (word b (j / 64))) back)
  ]
