-- ===== src/Utils/Index/Held.antt =====
-- fips/src/utils/index.rs: the indices that sessions hold, over any run of an allocator.
use fips_native.Base.{
  ℕ, ◌+◌, ◌≤◌, ◌≡◌, refl, arith, List, [], ◌∷◌, true, false, if◌then◌else◌, ◌==◌, Bool-cases, inl,
  inr,
}
use mathlib.Core.Path.{subst}
use native.Mathlib.Nat.{zero-add}
use fips_native.Utils.Index.{
  IndexError, ok, err, IndexAllocator, with_max_attempts, is_allocated, allocate, free, reserve,
  clear,
}
use fips_native.Utils.Index.Laws.{
  Changed, IsAllocation, IsRelease, IsReservation, allocate_correct, free_correct, reserve_correct,
}

-- How many of the sessions hold the index `j`.
unfoldable pub holders : List ℕ → ℕ → ℕ
holders [] j = 0
holders (i ∷ is) j = (if i == j then 1 else 0) + holders is j

unfoldable pub give_back : List ℕ → ℕ → List ℕ
give_back [] index = []
give_back (i ∷ is) index = let later = give_back is index in if i == index then is else i ∷ later

-- Every operation of an allocator, beside the indices that sessions hold.
pub data Step (a : IndexAllocator) (held : List ℕ) : IndexAllocator → List ℕ → Type 0 where
  allocated :
      (draw : ℕ → ℕ) (index : ℕ) (b : IndexAllocator)
      → allocate a draw ≡ (ok index, b)
      → Step a held b (index ∷ held)
  refused :
      (draw : ℕ → ℕ) (e : IndexError) (b : IndexAllocator)
      → allocate a draw ≡ (err e, b)
      → Step a held b held
  freed :
      (index : ℕ) (b : IndexAllocator)
      → free a index ≡ (ok tt, b)
      → Step a held b (give_back held index)
  not_freed :
      (index : ℕ) (e : IndexError) (b : IndexAllocator)
      → free a index ≡ (err e, b)
      → Step a held b held
  reserved :
      (index : ℕ) (b : IndexAllocator) → reserve a index ≡ (ok tt, b) → Step a held b (index ∷ held)
  not_reserved :
      (index : ℕ) (e : IndexError) (b : IndexAllocator)
      → reserve a index ≡ (err e, b)
      → Step a held b held
  cleared : Step a held (clear a) []

pub data Reach : IndexAllocator → List ℕ → Type 0 where
  start : (max_attempts : ℕ) → Reach (with_max_attempts max_attempts) []
  next : (a b : IndexAllocator) (held now : List ℕ) → Reach a held → Step a held b now → Reach b now

-- Exactly the indices in use are held, each by one session.
abbrev pub Agree : IndexAllocator → List ℕ → Type 0
Agree a held = (j : ℕ) → holders held j ≡ (if is_allocated a j then 1 else 0)

taken :
    (a b : IndexAllocator) (held : List ℕ) (index : ℕ)
    → is_allocated a index ≡ false
    → Changed a index true b
    → Agree a held
    → Agree b (index ∷ held)
unfolding holders
taken a b held index f c g j = elim (Bool-cases (index == j)) [
  | inl e ↦ let k : index ≡ j = ground arith in rw (c j, e, g j) (rw (← k, f) refl)
  | inr e ↦ rw (c j, e, g j) (zero-add _)
]

holders-give_back :
    (held : List ℕ) (index j : ℕ)
    → 1 ≤ holders held index
    → (if index == j then 1 else 0) + holders (give_back held index) j ≡ holders held j
unfolding holders give_back
holders-give_back [] index j h = absurd (omega arith)
holders-give_back (i ∷ is) index j h = ground (arith, holders-give_back is index j)

given :
    (a b : IndexAllocator) (held : List ℕ) (index : ℕ)
    → is_allocated a index ≡ true
    → Changed a index false b
    → Agree a held
    → Agree b (give_back held index)
given a b held index f c g j =
    let one : holders held index ≡ 1 = rw (g index, f) refl in
    let all : (if index == j then 1 else 0) + holders (give_back held index) j ≡ holders held j =
      holders-give_back held index j (omega arith) in
    elim (Bool-cases (index == j)) [
      | inl e ↦
          let k : index ≡ j = ground arith in
          let had : holders held j ≡ 1 = rw (← k) one in
          let all' : 1 + holders (give_back held index) j ≡ holders held j = rw (← all, e) refl in
          rw (c j, e) (omega arith)
      | inr e ↦
          let all' : 0 + holders (give_back held index) j ≡ holders held j = rw (← all, e) refl in
          rw (c j, e) (omega (arith, g j))
    ]

Step-Agree :
    (a b : IndexAllocator) (held now : List ℕ) → Step a held b now → Agree a held → Agree b now
unfolding fips_native.Base.Map.get holders
Step-Agree a _ held _ (allocated draw index b e) g =
    let r : IsAllocation a draw 0 a.max_attempts (ok index, b) =
      subst (IsAllocation a draw 0 a.max_attempts) e (allocate_correct a draw) in
    let (i, l, d, (m, f, p), c, n) = r in taken a b held index (rw d f) c g
Step-Agree a _ held _ (refused draw x b e) g =
    let r : IsAllocation a draw 0 a.max_attempts (err x, b) =
      subst (IsAllocation a draw 0 a.max_attempts) e (allocate_correct a draw) in
    rw (r.1) g
Step-Agree a _ held _ (freed index b e) g =
    let r : IsRelease a index (ok tt, b) = subst (IsRelease a index) e (free_correct a index) in
    given a b held index r.0 r.1 g
Step-Agree a _ held _ (not_freed index x b e) g =
    let r : IsRelease a index (err x, b) = subst (IsRelease a index) e (free_correct a index) in
    λ j. rw (r.2 j) (g j)
Step-Agree a _ held _ (reserved index b e) g =
    let r : IsReservation a index (ok tt, b) =
      subst (IsReservation a index) e (reserve_correct a index) in
    taken a b held index r.0 r.1 g
Step-Agree a _ held _ (not_reserved index x b e) g =
    let r : IsReservation a index (err x, b) =
      subst (IsReservation a index) e (reserve_correct a index) in
    rw (r.2) g
Step-Agree a _ held _ cleared g = λ j. refl

-- In every run of an allocator, exactly the indices in use are held, each by one session.
pub Reach-Agree : (a : IndexAllocator) (held : List ℕ) → Reach a held → Agree a held
unfolding fips_native.Base.Map.get holders
Reach-Agree _ _ (start n) = λ j. refl
Reach-Agree b now (next a _ held _ r s) = Step-Agree a b held now s (Reach-Agree a held r)
