-- ===== src/Noise/Replay.antt =====
-- fips/src/noise/replay.rs: the sliding window against replayed packet counters.
-- A word of the bitmap is a number below 2 ^ 64. A `usize` is 64 bits wide, so the casts from
-- `u64` change nothing. Indexing out of range panics: `none`.
pub mod Words
pub mod Bitmap
pub mod Carry
pub mod Shift
pub mod Mark
pub mod Window
use fips_native.Base.{
  ℕ, zero, suc, ◌+◌, ◌-◌, ◌*◌, ◌/◌, ◌%◌, ◌^◌, List, [], ◌∷◌, Bool, true, false, Option, none, some,
  leb, ltb, ◌==◌, if◌then◌else◌, length, get_elem?, get_or, set, replicate,
}
use Prim.Native.Nat.{bit_and, bit_or}

abbrev pub replay_window_size : ℕ
replay_window_size = 2048

abbrev pub bitmap_len : ℕ
bitmap_len = replay_window_size / 64

pub record ReplayWindow : Type 0 where
  pub highest : ℕ
  pub bitmap : List ℕ

unfoldable pub new : ReplayWindow
new = record { highest = 0; bitmap = replicate bitmap_len 0 }

-- `bitmap[i]` of an index that is in range.
abbrev pub word : List ℕ → ℕ → ℕ
word b i = get_or b i 0

pub check : ReplayWindow → ℕ → Bool
check w counter =
    let diff = w.highest - counter in
    if ltb w.highest counter
    then true
    else (if leb replay_window_size diff
        then false
        else bit_and (word w.bitmap (diff / 64)) (2 ^ (diff % 64)) == 0)

-- `for i in (word_shift..len).rev()`: the rounds left, of which the next writes word `ws + k`.
pub move_words : ℕ → ℕ → List ℕ → List ℕ
move_words zero ws b = b
move_words (suc k) ws b = move_words k ws (set b (ws + k) (word b k))

-- `for i in 0..word_shift`: from word `i`, with `n` rounds left.
pub clear_words : ℕ → ℕ → List ℕ → List ℕ
clear_words zero i b = b
clear_words (suc n) i b = clear_words n (suc i) (set b i 0)

-- `for i in 0..len` with the carry from the word below.
pub shift_bits : ℕ → ℕ → List ℕ → List ℕ
shift_bits s carry [] = []
shift_bits s carry (x ∷ xs) = bit_or (x * 2 ^ s % 2 ^ 64) carry ∷ shift_bits s (x / 2 ^ (64 - s)) xs

pub shift_bitmap : List ℕ → ℕ → List ℕ
unfolding move_words clear_words shift_bits
shift_bitmap b shift =
    let ws = shift / 64 in
    let s = shift % 64 in
    let moved = if ltb 0 ws then clear_words ws 0 (move_words (length b - ws) ws b) else b in
    if leb replay_window_size shift
    then replicate bitmap_len 0
    else (if ltb 0 s then shift_bits s 0 moved else moved)

-- `bitmap[i] |= 1 << j`: a panic beyond the array.
pub mark : List ℕ → ℕ → Option (List ℕ)
mark b diff = elim (get_elem? b (diff / 64)) [
  | none ↦ none
  | some x ↦ some (set b (diff / 64) (bit_or x (2 ^ (diff % 64))))
]

pub with_bitmap : ℕ → Option (List ℕ) → Option ReplayWindow
with_bitmap h none = none
with_bitmap h (some b) = some (record { highest = h; bitmap = b })

pub accept : ReplayWindow → ℕ → Option ReplayWindow
unfolding mark with_bitmap
accept w counter =
    let shift = counter - w.highest in
    let shifted =
      if leb replay_window_size shift
      then replicate bitmap_len 0
      else shift_bitmap w.bitmap shift in
    if ltb w.highest counter
    then with_bitmap counter (mark shifted 0)
    else with_bitmap w.highest (mark w.bitmap (w.highest - counter))

pub reset : ReplayWindow → ReplayWindow
reset w = record w { highest = 0; bitmap = replicate bitmap_len 0 }
