-- ===== src/Noise/Replay/Mark.antt =====
-- `mark`: one bit of the bitmap is set.
use fips_native.Base.{
  ℕ, suc, ◌/◌, ◌%◌, ◌^◌, ◌<◌, ◌≡◌, ◌∙◌, arith, List, some, ◌==◌, if◌then◌else◌, set,
  get_or-set_self, get_or-set_ne, get_elem?-get_or, length-set,
}
use fips_native.Base.Bits.{bit-lt_two, bit-bit_or, bit-two_pow, bit_or-lt}
use Prim.Native.Nat.{bit_or}
use native.Mathlib.Decide.{ℕ_discrete}
use native.Mathlib.Nat.{one-le-pow, pow-suc, pow-le-pow_right, lt_of_lt_of_le}
use fips_native.Noise.Replay.{replay_window_size, word, mark}
use fips_native.Noise.Replay.Bitmap.{IsBitmap, window_bit}

two_pow-lt_suc : (k : ℕ) → 2 ^ k < 2 ^ suc k
two_pow-lt_suc k = omega (arith, pow-suc 2 k, one-le-pow k 2)

-- `mark` sets one bit of the row.
module _ (b : List ℕ) (d : ℕ) (v : IsBitmap b) (l : d < replay_window_size) where
  abbrev pub marked : List ℕ
  marked = set b (d / 64) (bit_or (word b (d / 64)) (2 ^ (d % 64)))

  pub mark_lem : mark b d ≡ some marked
  unfolding mark
  mark_lem = rw (get_elem?-get_or b (d / 64) 0 (omega (arith, v.words)), mark)

  pub marked-IsBitmap : IsBitmap marked
  marked-IsBitmap = record {
    words = length-set b (d / 64) (bit_or (word b (d / 64)) (2 ^ (d % 64))) ∙ v.words;
    fits = fits;
  }
    where
      one_bit : 2 ^ (d % 64) < 2 ^ 64
      one_bit =
          lt_of_lt_of_le (two_pow-lt_suc (d % 64))
            (pow-le-pow_right {n = 2} (omega arith) {j = 64} (omega arith))

      fits : (j : ℕ) → word marked j < 2 ^ 64
      fits j = elim (ℕ_discrete (d / 64) j) [
        | yes e ↦ rw (← e) (
            rw
              (get_or-set_self b (d / 64) (bit_or (word b (d / 64)) (2 ^ (d % 64))) 0
                (omega (arith, v.words)))
              (bit_or-lt 64 (word b (d / 64)) (2 ^ (d % 64)) (v.fits (d / 64)) one_bit))
        | no n ↦
            rw (get_or-set_ne b (d / 64) j (bit_or (word b (d / 64)) (2 ^ (d % 64))) 0 n) (v.fits j)
      ]

  pub window_bit-marked : (j : ℕ) → window_bit marked j ≡ (if d == j then 1 else window_bit b j)
  unfolding window_bit
  window_bit-marked j = elim (ℕ_discrete (d / 64) (j / 64)) [
    | yes e ↦ rw (← e) (
        rw
          (
            get_or-set_self b (d / 64) (bit_or (word b (d / 64)) (2 ^ (d % 64))) 0
                (omega (arith, v.words)),
            bit-bit_or (word b (d / 64)) (2 ^ (d % 64)) (j % 64),
            bit-two_pow (d % 64) (j % 64),
          )
          (ground (arith, bit-lt_two (word b (d / 64)) (j % 64))))
    | no n ↦
        rw (get_or-set_ne b (d / 64) (j / 64) (bit_or (word b (d / 64)) (2 ^ (d % 64))) 0 n)
          (ground arith)
  ]
