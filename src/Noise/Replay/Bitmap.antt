-- ===== src/Noise/Replay/Bitmap.antt =====
-- The bitmap as one long row of bits.
use fips_native.Base.{
  ℕ, ◌/◌, ◌%◌, ◌^◌, ◌<◌, ◌≡◌, refl, arith, List, length, get_or-replicate, replicate,
}
use fips_native.Base.Bits.{bit, bit-zero}
use fips_native.Noise.Replay.{word, bitmap_len}

-- A window: 32 words of 64 bits. Bit `j` of the row is bit `j % 64` of word `j / 64`.
pub record IsBitmap (b : List ℕ) : Type 0 where
  pub words : length b ≡ bitmap_len
  pub fits : (j : ℕ) → word b j < 2 ^ 64

unfoldable pub window_bit : List ℕ → ℕ → ℕ
window_bit b j = bit (word b (j / 64)) (j % 64)

pub zeros-IsBitmap : IsBitmap (replicate bitmap_len 0)
zeros-IsBitmap = record {
  words = refl;
  fits = λ j. rw (get_or-replicate {A = ℕ} bitmap_len j 0) (omega arith);
}

pub window_bit-zeros : (j : ℕ) → window_bit (replicate bitmap_len 0) j ≡ 0
unfolding window_bit
window_bit-zeros j = rw (get_or-replicate {A = ℕ} bitmap_len (j / 64) 0) (bit-zero (j % 64))
