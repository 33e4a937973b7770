-- ===== src/Noise/Replay/Words.antt =====
-- The loops of `shift_bitmap`, word by word.
use fips_native.Base.{
  ℕ, zero, suc, ◌+◌, ◌-◌, ◌*◌, ◌/◌, ◌%◌, ◌^◌, ◌≤◌, ◌<◌, ◌≡◌, refl, ap, ◌∙◌, inl, inr, arith, List,
  [], ◌∷◌, length, set, get_or-set_self, get_or-set_ne, length-set, ◌⊎◌,
}
use Prim.Native.Nat.{bit_or}
use native.Mathlib.Decide.{dec_lt}
use fips_native.Noise.Replay.{word, move_words, clear_words, shift_bits}

pub length-move_words : (k ws : ℕ) (b : List ℕ) → length (move_words k ws b) ≡ length b
unfolding move_words
length-move_words zero ws b = refl
length-move_words (suc k) ws b =
    length-move_words k ws (set b (ws + k) (word b k)) ∙ length-set b (ws + k) (word b k)

-- Words below `ws`, and words from `ws + k` on, stay.
pub move_words_outside :
    (k ws : ℕ) (b : List ℕ) (j : ℕ)
    → (j < ws) ⊎ (ws + k ≤ j)
    → word (move_words k ws b) j ≡ word b j
unfolding move_words
move_words_outside zero ws b j h = refl
move_words_outside (suc k) ws b j h =
    move_words_outside k ws (set b (ws + k) (word b k)) j (omega arith)
    ∙ get_or-set_ne b (ws + k) j (word b k) 0 (omega arith)

-- Word `ws + j` becomes what word `j` was.
pub move_words_inside :
    (k ws : ℕ) (b : List ℕ) (j : ℕ)
    → 0 < ws
    → ws + k ≤ length b
    → j < k
    → word (move_words k ws b) (ws + j) ≡ word b j
unfolding move_words
move_words_inside zero ws b j p h l = absurd (omega arith)
move_words_inside (suc k) ws b j p h l = elim (dec_lt j k) [
  | yes low ↦
      move_words_inside k ws (set b (ws + k) (word b k)) j p
        (rw (length-set b (ws + k) (word b k)) (omega arith)) low
      ∙ get_or-set_ne b (ws + k) j (word b k) 0 (omega arith)
  | no high ↦
      let e : j ≡ k = omega arith in
      rw e (
        move_words_outside k ws (set b (ws + k) (word b k)) (ws + k) (inr (omega arith))
        ∙ get_or-set_self b (ws + k) (word b k) 0 (omega arith))
]

pub length-clear_words : (n i : ℕ) (b : List ℕ) → length (clear_words n i b) ≡ length b
unfolding clear_words
length-clear_words zero i b = refl
length-clear_words (suc n) i b = length-clear_words n (suc i) (set b i 0) ∙ length-set b i 0

pub clear_words_outside :
    (n i : ℕ) (b : List ℕ) (j : ℕ) → (j < i) ⊎ (i + n ≤ j) → word (clear_words n i b) j ≡ word b j
unfolding clear_words
clear_words_outside zero i b j h = refl
clear_words_outside (suc n) i b j h =
    clear_words_outside n (suc i) (set b i 0) j (omega arith)
    ∙ get_or-set_ne b i j 0 0 (omega arith)

pub clear_words_inside :
    (n i : ℕ) (b : List ℕ) (j : ℕ)
    → i + n ≤ length b
    → i ≤ j
    → j < i + n
    → word (clear_words n i b) j ≡ 0
unfolding clear_words
clear_words_inside zero i b j h l u = absurd (omega arith)
clear_words_inside (suc n) i b j h l u = elim (dec_lt i j) [
  | yes above ↦
      clear_words_inside n (suc i) (set b i 0) j (rw (length-set b i 0) (omega arith)) above
        (omega arith)
  | no at ↦
      let e : j ≡ i = omega arith in
      rw e (
        clear_words_outside n (suc i) (set b i 0) i (inl (omega arith))
        ∙ get_or-set_self b i 0 0 (omega arith))
]

pub length-shift_bits : (s c : ℕ) (xs : List ℕ) → length (shift_bits s c xs) ≡ length xs
unfolding shift_bits
length-shift_bits s c [] = refl
length-shift_bits s c (x ∷ xs) = ap suc (length-shift_bits s (x / 2 ^ (64 - s)) xs)

-- The carry into word `j`.
abbrev pub carry_in : ℕ → ℕ → List ℕ → ℕ → ℕ
carry_in s c xs zero = c
carry_in s c xs (suc j) = word xs j / 2 ^ (64 - s)

pub word-shift_bits :
    (s c : ℕ) (xs : List ℕ) (j : ℕ)
    → j < length xs
    → word (shift_bits s c xs) j ≡ bit_or (word xs j * 2 ^ s % 2 ^ 64) (carry_in s c xs j)
unfolding shift_bits
word-shift_bits s c [] j h = absurd (omega arith)
word-shift_bits s c (x ∷ xs) zero h = refl
word-shift_bits s c (x ∷ xs) (suc zero) h =
    word-shift_bits s (x / 2 ^ (64 - s)) xs zero (omega arith)
word-shift_bits s c (x ∷ xs) (suc (suc j)) h =
    word-shift_bits s (x / 2 ^ (64 - s)) xs (suc j) (omega arith)
