-- ===== src/Noise/Replay/Window.antt =====
-- What the window promises: `check` answers exactly whether a counter is fresh.
use fips_native.Base.{
  ℕ, ◌+◌, ◌-◌, ◌/◌, ◌%◌, ◌^◌, ◌≤◌, ◌<◌, ◌≡◌, ◌↔◌, refl, inl, inr, arith, List, [], ◌∷◌, Bool, true,
  false, none, some, leb, ltb, ◌==◌, if◌then◌else◌, Bool-cases, replicate, lt→ltb, le→ltb, lt→leb,
  le→leb, get_elem?_past,
}
use fips_native.Base.Bits.{bit, bit-lt_two, bit_and-two_pow}
use Prim.Native.Nat.{bit_and}
use native.Mathlib.Decide.{dec_lt}
use native.Mathlib.Nat.{one-le-pow}
use fips_native.Noise.Replay.{
  ReplayWindow, replay_window_size, bitmap_len, word, new, check, mark, accept, reset, shift_bitmap,
  with_bitmap,
}
use fips_native.Noise.Replay.Bitmap.{IsBitmap, window_bit, zeros-IsBitmap, window_bit-zeros}
use fips_native.Noise.Replay.Shift.{
  shift_bitmap-IsBitmap, window_bit-shift_bitmap_low, window_bit-shift_bitmap_high,
}
use fips_native.Noise.Replay.Mark.{marked, mark_lem, marked-IsBitmap, window_bit-marked}

IsWindow : ReplayWindow → Type 0
IsWindow w = IsBitmap w.bitmap

-- The source's test of one bit.
bit_test : (x i : ℕ) → (bit_and x (2 ^ i) == 0) ≡ (bit x i == 0)
bit_test x i = rw (bit_and-two_pow i x) (elim (dec_lt 0 (bit x i)) [
  | yes p ↦
      let e : bit x i ≡ 1 = omega (arith, bit-lt_two x i) in rw e (ground (arith, one-le-pow i 2))
  | no z ↦ let e : bit x i ≡ 0 = omega arith in rw e (ground arith)
])

check_lem :
    (w : ReplayWindow) (c : ℕ)
    → check w c ≡ (
        if ltb w.highest c
        then true
        else (if leb replay_window_size (w.highest - c)
            then false
            else window_bit w.bitmap (w.highest - c) == 0))
unfolding check window_bit
check_lem w c = rw (bit_test (word w.bitmap ((w.highest - c) / 64)) ((w.highest - c) % 64))

-- The contract: a history of accepted counters, newest first.
unfoldable pub seen : List ℕ → ℕ → Bool
seen [] c = false
seen (h ∷ hs) c = if h == c then true else seen hs c

pub record Represents (w : ReplayWindow) (hs : List ℕ) : Type 0 where
  pub bitmap : IsBitmap w.bitmap
  pub bounded : (c : ℕ) → seen hs c ≡ true → c ≤ w.highest
  pub bits :
      (c : ℕ)
      → c ≤ w.highest
      → w.highest - c < replay_window_size
      → window_bit w.bitmap (w.highest - c) ≡ (if seen hs c then 1 else 0)

-- A counter is too old when the window has moved past it.
abbrev pub IsRecent : ReplayWindow → ℕ → Type 0
IsRecent w c = w.highest < c + replay_window_size

-- A new window has accepted nothing, and so has a window after `reset`.
pub new-Represents : Represents new []
unfolding new seen
new-Represents = record {
  bitmap = zeros-IsBitmap;
  bounded = λ c h. cc;
  bits = λ c h l. window_bit-zeros (0 - c);
}

reset-Represents : (w : ReplayWindow) → Represents (reset w) []
unfolding reset seen
reset-Represents w = record {
  bitmap = zeros-IsBitmap;
  bounded = λ c h. cc;
  bits = λ c h l. window_bit-zeros (0 - c);
}

-- On a window that represents a history, check accepts a counter exactly when the history lacks
-- it and the window has not moved past it.
pub check_correct :
    (w : ReplayWindow) (hs : List ℕ) (c : ℕ)
    → Represents w hs
    → (check w c ≡ true) ↔ ((seen hs c ≡ false) × IsRecent w c)
check_correct w hs c r = rw (check_lem w c) (elim (dec_lt w.highest c) [
  | yes above ↦ rw (lt→ltb w.highest c above) (λ _. (unseen above, omega arith), λ _. refl)
  | no below ↦ rw (le→ltb w.highest c (omega arith)) (elim (dec_lt (w.highest - c) 2048) [
    | yes inside ↦ rw (r.bits c (omega arith) inside) (ground arith)
    | no old ↦ (λ h. ground arith, λ p. ground arith)
  ])
])
  where
    unseen : w.highest < c → seen hs c ≡ false
    unseen above = elim (Bool-cases (seen hs c)) [
      | inl t ↦ absurd (omega (arith, r.bounded c t))
      | inr f ↦ f
    ]

-- The bitmap that `accept` marks for a counter above the highest one.
abbrev shifted : ReplayWindow → ℕ → List ℕ
shifted w c =
    if leb replay_window_size (c - w.highest)
    then replicate bitmap_len 0
    else shift_bitmap w.bitmap (c - w.highest)

module _ (w : ReplayWindow) (c : ℕ) (v : IsBitmap w.bitmap) (above : w.highest < c) where
  shifted-IsBitmap : IsBitmap (shifted w c)
  shifted-IsBitmap = elim (dec_lt (c - w.highest) 2048) [
    | yes l ↦ rw (lt→leb (c - w.highest) 2048 l) (shift_bitmap-IsBitmap w.bitmap _ v l)
    | no g ↦ rw (le→leb 2048 (c - w.highest) (omega arith)) zeros-IsBitmap
  ]

  -- Above the old highest counter the row is empty.
  shifted_new : (a : ℕ) → w.highest < a → a ≤ c → window_bit (shifted w c) (c - a) ≡ 0
  shifted_new a h l = elim (dec_lt (c - w.highest) 2048) [
    | yes k ↦
        rw (lt→leb (c - w.highest) 2048 k)
          (window_bit-shift_bitmap_low w.bitmap _ v k (c - a) (omega arith))
    | no g ↦ rw (le→leb 2048 (c - w.highest) (omega arith)) (window_bit-zeros (c - a))
  ]

  -- A counter in the old window keeps its bit.
  shifted_old :
      (a : ℕ)
      → a ≤ w.highest
      → c - a < replay_window_size
      → window_bit (shifted w c) (c - a) ≡ window_bit w.bitmap (w.highest - a)
  shifted_old a h l =
      let k : c - w.highest < 2048 = omega arith in
      let e : c - a ≡ (c - w.highest) + (w.highest - a) = omega arith in
      rw (lt→leb (c - w.highest) 2048 k, e)
        (window_bit-shift_bitmap_high w.bitmap _ v k (w.highest - a) (omega arith))

module _ (w : ReplayWindow) (hs : List ℕ) (c : ℕ) (r : Represents w hs) where
  accept_above :
      w.highest < c → (w' : ReplayWindow) × (accept w c ≡ some w') × Represents w' (c ∷ hs)
  unfolding accept seen
  accept_above above = (
    record { highest = c; bitmap = marked (shifted w c) 0 row (omega arith) },
    rw (lt→ltb w.highest c above, mark_lem (shifted w c) 0 row (omega arith)),
    record {
      bitmap = marked-IsBitmap (shifted w c) 0 row (omega arith);
      bounded = λ a h. ground (arith, r.bounded a);
      bits = bits;
    },
  )
    where
      row : IsBitmap (shifted w c)
      row = shifted-IsBitmap w c r.bitmap above

      bits :
          (a : ℕ)
          → a ≤ c
          → c - a < replay_window_size
          → window_bit (marked (shifted w c) 0 row (omega arith)) (c - a)
            ≡ (if (if c == a then true else seen hs a) then 1 else 0)
      bits a h l = elim (dec_lt w.highest a) [
        | yes new ↦ ground (
          arith,
          window_bit-marked (shifted w c) 0 row (omega arith) (c - a),
          shifted_new w c r.bitmap above a new h,
          r.bounded a,
        )
        | no old ↦ ground (
          arith,
          window_bit-marked (shifted w c) 0 row (omega arith) (c - a),
          shifted_old w c r.bitmap above a (omega arith) l,
          r.bits a,
        )
      ]

  accept_below :
      c ≤ w.highest
      → IsRecent w c
      → (w' : ReplayWindow) × (accept w c ≡ some w') × Represents w' (c ∷ hs)
  unfolding accept seen
  accept_below below recent = (
    record { highest = w.highest; bitmap = marked w.bitmap (w.highest - c) r.bitmap (omega arith) },
    rw (le→ltb w.highest c below, mark_lem w.bitmap (w.highest - c) r.bitmap (omega arith)),
    record {
      bitmap = marked-IsBitmap w.bitmap (w.highest - c) r.bitmap (omega arith);
      bounded = λ a h. ground (arith, r.bounded a);
      bits = λ a h l. ground (
        arith,
        window_bit-marked w.bitmap (w.highest - c) r.bitmap (omega arith) (w.highest - a),
        r.bits a,
      );
    },
  )

-- On a window that represents a history, accept of a recent counter does not panic and gives a
-- window that represents the history with the counter added.
pub accept_correct :
    (w : ReplayWindow) (hs : List ℕ) (c : ℕ)
    → Represents w hs
    → IsRecent w c
    → (w' : ReplayWindow) × (accept w c ≡ some w') × Represents w' (c ∷ hs)
accept_correct w hs c r recent = elim (dec_lt w.highest c) [
  | yes above ↦ accept_above w hs c r above
  | no below ↦ accept_below w hs c r (omega arith) recent
]

-- On a bitmap of the right shape, accept of a counter that the window has moved past indexes it
-- out of range: it panics.
pub accept_too_old :
    (w : ReplayWindow) (c : ℕ)
    → IsBitmap w.bitmap
    → c + replay_window_size ≤ w.highest
    → accept w c ≡ none
unfolding accept mark
accept_too_old w c v old = rw (
  le→ltb w.highest c (omega arith),
  get_elem?_past w.bitmap ((w.highest - c) / 64) (omega (arith, v.words)),
  mark,
  with_bitmap,
)
