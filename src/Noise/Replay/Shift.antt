-- ===== src/Noise/Replay/Shift.antt =====
-- `ReplayWindow::shift_bitmap`: its three loops, and what they do to the window as one row of bits.
use fips_native.Base.{
  ℕ, ◌+◌, ◌-◌, ◌*◌, ◌/◌, ◌%◌, ◌^◌, ◌≤◌, ◌<◌, ◌≡◌, refl, ap, ◌∙◌, inr, arith, List, ltb,
  if◌then◌else◌, length, get_or_past, lt→ltb, le→ltb,
}
use fips_native.Base.Bits.{bit, bit-zero}
use native.Mathlib.Decide.{dec_lt}
use native.Mathlib.Nat.{zero-add}
use fips_native.Noise.Replay.{
  word, move_words, clear_words, shift_bits, shift_bitmap, bitmap_len, replay_window_size,
}
use fips_native.Noise.Replay.Words.{
  length-move_words, move_words_inside, length-clear_words, clear_words_outside, clear_words_inside,
}
use fips_native.Noise.Replay.Bitmap.{IsBitmap, window_bit}
use fips_native.Noise.Replay.Carry.{
  shift_bits-IsBitmap, window_bit-shift_bits_low, window_bit-shift_bits_high,
}

-- The two loops over whole words together.
abbrev moved_words : ℕ → List ℕ → List ℕ
moved_words ws b = clear_words ws 0 (move_words (length b - ws) ws b)

moved_words_low :
    (ws : ℕ) (b : List ℕ) (j : ℕ) → ws ≤ length b → j < ws → word (moved_words ws b) j ≡ 0
moved_words_low ws b j h l =
    clear_words_inside ws 0 (move_words (length b - ws) ws b) j
      (rw (length-move_words (length b - ws) ws b) (omega arith)) (omega arith) (omega arith)

moved_words_high :
    (ws : ℕ) (b : List ℕ) (j : ℕ)
    → 0 < ws
    → ws + j < length b
    → word (moved_words ws b) (ws + j) ≡ word b j
moved_words_high ws b j p h =
    clear_words_outside ws 0 (move_words (length b - ws) ws b) (ws + j) (inr (omega arith))
    ∙ move_words_inside (length b - ws) ws b j p (omega arith) (omega arith)

length-moved_words : (ws : ℕ) (b : List ℕ) → length (moved_words ws b) ≡ length b
length-moved_words ws b =
    length-clear_words ws 0 (move_words (length b - ws) ws b)
    ∙ length-move_words (length b - ws) ws b

-- The words after the first phase: moved up by `ws`, or untouched where `ws` is 0.
phase_one : ℕ → List ℕ → List ℕ
phase_one ws b = if ltb 0 ws then moved_words ws b else b

phase_one_low : (ws : ℕ) (b : List ℕ) (j : ℕ) → ws ≤ length b → j < ws → word (phase_one ws b) j ≡ 0
unfolding phase_one
phase_one_low ws b j h l = rw (lt→ltb 0 ws (omega arith)) (moved_words_low ws b j h l)

phase_one_high :
    (ws : ℕ) (b : List ℕ) (j : ℕ) → ws + j < length b → word (phase_one ws b) (ws + j) ≡ word b j
unfolding phase_one
phase_one_high ws b j h = elim (dec_lt 0 ws) [
  | yes p ↦ rw (lt→ltb 0 ws p) (moved_words_high ws b j p h)
  | no z ↦ let e : ws ≡ 0 = omega arith in rw (e, zero-add j) refl
]

length-phase_one : (ws : ℕ) (b : List ℕ) → length (phase_one ws b) ≡ length b
unfolding phase_one
length-phase_one ws b = ground (arith, length-moved_words ws b)

phase_one-IsBitmap :
    (ws : ℕ) (b : List ℕ) → ws ≤ bitmap_len → IsBitmap b → IsBitmap (phase_one ws b)
phase_one-IsBitmap ws b h v = record { words = length-phase_one ws b ∙ v.words; fits = λ j. fits j }
  where
    fits : (j : ℕ) → word (phase_one ws b) j < 2 ^ 64
    fits j = elim (dec_lt j ws) [
      | yes low ↦ rw (phase_one_low ws b j (omega (arith, v.words)) low) (omega arith)
      | no high ↦ elim (dec_lt j (length b)) [
        | yes inside ↦
            let e : ws + (j - ws) ≡ j = omega arith in
            rw (← e) (rw (phase_one_high ws b (j - ws) (omega arith)) (v.fits (j - ws)))
        | no past ↦
            rw (get_or_past (phase_one ws b) j 0 (omega (arith, length-phase_one ws b)))
              (omega arith)
      ]
    ]

window_bit-phase_one_low :
    (ws : ℕ) (b : List ℕ) (j : ℕ)
    → ws ≤ bitmap_len
    → IsBitmap b
    → j < 64 * ws
    → window_bit (phase_one ws b) j ≡ 0
unfolding window_bit
window_bit-phase_one_low ws b j h v l =
    rw (phase_one_low ws b (j / 64) (omega (arith, v.words)) (omega arith)) (bit-zero (j % 64))

window_bit-phase_one_high :
    (ws : ℕ) (b : List ℕ) (j : ℕ)
    → IsBitmap b
    → 64 * ws + j < replay_window_size
    → window_bit (phase_one ws b) (64 * ws + j) ≡ window_bit b j
unfolding window_bit
window_bit-phase_one_high ws b j v l =
    let q : (64 * ws + j) / 64 ≡ ws + j / 64 = omega arith in
    let r : (64 * ws + j) % 64 ≡ j % 64 = omega arith in
    rw (q, r)
      (ap (λ (t : ℕ). bit t (j % 64)) (phase_one_high ws b (j / 64) (omega (arith, v.words))))

-- The whole of `shift_bitmap`, for a shift below the window.
module _ (b : List ℕ) (shift : ℕ) (v : IsBitmap b) (l : shift < replay_window_size) where
  abbrev phases : List ℕ
  phases =
      if ltb 0 (shift % 64)
      then shift_bits (shift % 64) 0 (phase_one (shift / 64) b)
      else phase_one (shift / 64) b

  shift_bitmap-phases : shift_bitmap b shift ≡ phases
  unfolding shift_bitmap phase_one
  shift_bitmap-phases = ground arith

  moved : IsBitmap (phase_one (shift / 64) b)
  moved = phase_one-IsBitmap (shift / 64) b (omega arith) v

  pub shift_bitmap-IsBitmap : IsBitmap (shift_bitmap b shift)
  shift_bitmap-IsBitmap = rw shift_bitmap-phases (elim (dec_lt 0 (shift % 64)) [
    | yes p ↦
        rw (lt→ltb 0 (shift % 64) p) (shift_bits-IsBitmap (shift % 64) _ p (omega arith) moved)
    | no z ↦ rw (le→ltb 0 (shift % 64) (omega arith)) moved
  ])

  pub window_bit-shift_bitmap_low : (j : ℕ) → j < shift → window_bit (shift_bitmap b shift) j ≡ 0
  window_bit-shift_bitmap_low j k = rw shift_bitmap-phases (elim (dec_lt 0 (shift % 64)) [
    | yes p ↦ rw (lt→ltb 0 (shift % 64) p) (elim (dec_lt j (shift % 64)) [
      | yes low ↦ window_bit-shift_bits_low (shift % 64) _ p (omega arith) moved j low
      | no high ↦
          let j' : ℕ = j - shift % 64 in
          let e : j ≡ shift % 64 + j' = omega arith in
          rw e (
            window_bit-shift_bits_high (shift % 64) _ p (omega arith) moved j' (omega arith)
            ∙ window_bit-phase_one_low (shift / 64) b j' (omega arith) v (omega arith))
    ])
    | no z ↦
        rw (le→ltb 0 (shift % 64) (omega arith))
          (window_bit-phase_one_low (shift / 64) b j (omega arith) v (omega arith))
  ])

  -- Bit `j` moves to `shift + j`.
  pub window_bit-shift_bitmap_high :
      (j : ℕ)
      → shift + j < replay_window_size
      → window_bit (shift_bitmap b shift) (shift + j) ≡ window_bit b j
  window_bit-shift_bitmap_high j k = rw shift_bitmap-phases (elim (dec_lt 0 (shift % 64)) [
    | yes p ↦
        let e : shift + j ≡ shift % 64 + (64 * (shift / 64) + j) = omega arith in
        rw (lt→ltb 0 (shift % 64) p, e)
          (window_bit-shift_bits_high (shift % 64) _ p (omega arith) moved (64 * (shift / 64) + j)
              (omega arith)
            ∙ window_bit-phase_one_high (shift / 64) b j v (omega arith))
    | no z ↦
        let e : shift + j ≡ 64 * (shift / 64) + j = omega arith in
        rw (le→ltb 0 (shift % 64) (omega arith), e)
          (window_bit-phase_one_high (shift / 64) b j v (omega arith))
  ])
