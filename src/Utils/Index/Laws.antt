-- ===== src/Utils/Index/Laws.antt =====
-- fips/src/utils/index.rs: what allocation and release of indices promise.
use fips_native.Base.{
  ℕ, zero, suc, ◌+◌, ◌≤◌, ◌<◌, ◌≡◌, inl, inr, refl, arith, Bool, true, false, if◌then◌else◌, none,
  some, ◌==◌, Bool-cases, Option-cases,
}
use fips_native.Base.Map.{
  Map, get, insert, remove, contains_key, get-insert, get-remove, length-insert_new,
}
use fips_native.Utils.Index.{
  exhausted, not_found, already_in_use, IndexResult, ok, err, IndexAllocator, is_allocated,
  allocate_from, allocate, free, reserve, count,
}

-- After the operation exactly `index` has come to be in use, or to be free, as `now` says.
abbrev pub Changed : IndexAllocator → ℕ → Bool → IndexAllocator → Type 0
Changed a index now b = (j : ℕ) → is_allocated b j ≡ (if index == j then now else is_allocated a j)

-- The index drawn by attempt `i` is the first that was free.
abbrev pub IsFirstFree : IndexAllocator → (ℕ → ℕ) → ℕ → ℕ → Type 0
IsFirstFree a draw start i =
    (start ≤ i)
    × (is_allocated a (draw i) ≡ false)
    × ((j : ℕ) → start ≤ j → j < i → is_allocated a (draw j) ≡ true)

abbrev pub IsAllocation : IndexAllocator → (ℕ → ℕ) → ℕ → ℕ → IndexResult ℕ × IndexAllocator → Type 0
IsAllocation a draw start attempts (ok index, b) =
    (i : ℕ) × (i < start + attempts)
    × (index ≡ draw i)
    × IsFirstFree a draw start i
    × Changed a index true b
    × (count b ≡ suc (count a))
IsAllocation a draw start attempts (err e, b) =
    (e ≡ exhausted)
    × (b ≡ a)
    × ((j : ℕ) → start ≤ j → j < start + attempts → is_allocated a (draw j) ≡ true)

inserted :
    (a : IndexAllocator) (index : ℕ)
    → Changed a index true (record a { in_use = insert a.in_use index tt })
inserted a index j = rw (get-insert a.in_use index j tt) (ground arith)

removed :
    (a : IndexAllocator) (index : ℕ)
    → Changed a index false (record a { in_use = remove a.in_use index })
removed a index j = rw (get-remove a.in_use index j) (ground arith)

contains_key-none : (m : Map (Unit {0})) (k : ℕ) → contains_key m k ≡ false → get m k ≡ none
contains_key-none m k h = elim (Option-cases (get m k)) [
  | inl e ↦ e
  | inr (u, e) ↦ absurd (present u e h)
]
  where
    present : (u : Unit {0}) → get m k ≡ some u → contains_key m k ≡ false → ⊥
    present u = ground arith

allocate_from-IsAllocation :
    (a : IndexAllocator) (draw : ℕ → ℕ) (start attempts : ℕ)
    → IsAllocation a draw start attempts (allocate_from a draw start attempts)
unfolding allocate_from
allocate_from-IsAllocation a draw start zero = (refl, refl, λ j h k. absurd (omega arith))
allocate_from-IsAllocation a draw start (suc attempts) =
    elim (Bool-cases (is_allocated a (draw start))) [
      | inl used ↦ rw used (
          later (allocate_from a draw (suc start) attempts) used
            (allocate_from-IsAllocation a draw (suc start) attempts))
      | inr unused ↦ rw unused (
        start,
        omega arith,
        refl,
        (omega arith, unused, λ j h k. absurd (omega arith)),
        inserted a (draw start),
        length-insert_new a.in_use (draw start) tt (contains_key-none a.in_use (draw start) unused),
      )
    ]
  where
    earlier :
        (end : ℕ)
        → is_allocated a (draw start) ≡ true
        → ((j : ℕ) → suc start ≤ j → j < end → is_allocated a (draw j) ≡ true)
        → (j : ℕ) → start ≤ j
        → j < end
        → is_allocated a (draw j) ≡ true
    earlier end used h j k l = elim (Bool-cases (start == j)) [
      | inl e ↦ let same : start ≡ j = ground arith in rw (← same) used
      | inr ne ↦ h j (ground arith) l
    ]

    later :
        (r : IndexResult ℕ × IndexAllocator)
        → is_allocated a (draw start) ≡ true
        → IsAllocation a draw (suc start) attempts r
        → IsAllocation a draw start (suc attempts) r
    later (ok index, b) used (i, l, e, (g, f, p), h, c) =
        (i, omega arith, e, (omega arith, f, earlier i used p), h, c)
    later (err x, b) used (e, s, p) =
        (e, s, λ j h k. earlier (start + suc attempts) used (λ i m n. p i m (omega arith)) j h k)

-- An allocation succeeds if one of the first max_attempts draws is free: it then gives the first
-- such draw, which alone has come into use; else it reports exhaustion and changes nothing.
pub allocate_correct :
    (a : IndexAllocator) (draw : ℕ → ℕ) → IsAllocation a draw 0 a.max_attempts (allocate a draw)
unfolding allocate
allocate_correct a draw = allocate_from-IsAllocation a draw 0 a.max_attempts

-- What the release of an index gives.
abbrev pub IsRelease : IndexAllocator → ℕ → IndexResult (Unit {0}) × IndexAllocator → Type 0
IsRelease a index (ok u, b) = (is_allocated a index ≡ true) × Changed a index false b
IsRelease a index (err e, b) =
    (e ≡ not_found index)
    × (is_allocated a index ≡ false)
    × ((j : ℕ) → is_allocated b j ≡ is_allocated a j)

pub free_correct : (a : IndexAllocator) (index : ℕ) → IsRelease a index (free a index)
unfolding free
free_correct a index = elim (Bool-cases (contains_key a.in_use index)) [
  | inl used ↦ rw used (used, removed a index)
  | inr unused ↦ rw unused (refl, unused, λ j. same j unused)
]
  where
    same :
        (j : ℕ)
        → contains_key a.in_use index ≡ false
        → contains_key (remove a.in_use index) j ≡ is_allocated a j
    same j h = rw (get-remove a.in_use index j) (elim (Bool-cases (index == j)) [
      | inl e ↦ let k : index ≡ j = ground arith in rw (e, ← k, h)
      | inr e ↦ rw e
    ])

abbrev pub IsReservation : IndexAllocator → ℕ → IndexResult (Unit {0}) × IndexAllocator → Type 0
IsReservation a index (ok u, b) = (is_allocated a index ≡ false) × Changed a index true b
IsReservation a index (err e, b) =
    (e ≡ already_in_use index) × (is_allocated a index ≡ true) × (b ≡ a)

pub reserve_correct : (a : IndexAllocator) (index : ℕ) → IsReservation a index (reserve a index)
unfolding reserve
reserve_correct a index = elim (Bool-cases (contains_key a.in_use index)) [
  | inl used ↦ rw used (refl, used, refl)
  | inr unused ↦ rw unused (unused, inserted a index)
]
