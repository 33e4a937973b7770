-- ===== src/Utils/Index.antt =====
-- fips/src/utils/index.rs: the allocator of session indices. The random numbers are a stream,
-- `draw i` the number of attempt `i`; `SessionIndex` is a u32.
pub mod Laws
pub mod Held
use fips_native.Base.{ℕ, zero, suc, List, [], ◌∷◌, Bool, true, false, if◌then◌else◌, length}
use fips_native.Base.Map.{Map, insert, remove, contains_key}

pub data IndexError : Type 0 where
  exhausted : IndexError
  not_found : ℕ → IndexError
  already_in_use : ℕ → IndexError

pub data IndexResult {ℓ} (A : Type ℓ) : Type ℓ where
  ok : A → IndexResult A
  err : IndexError → IndexResult A

pub record IndexAllocator : Type 0 where
  pub in_use : Map (Unit {0})
  pub max_attempts : ℕ

abbrev pub with_max_attempts : ℕ → IndexAllocator
with_max_attempts n = record { in_use = []; max_attempts = n }

unfoldable pub new : IndexAllocator
new = with_max_attempts 100

abbrev pub is_allocated : IndexAllocator → ℕ → Bool
is_allocated a index = contains_key a.in_use index

-- The loop, with `attempts` rounds left of which the first draws number `i`.
unfoldable pub allocate_from : IndexAllocator → (ℕ → ℕ) → ℕ → ℕ → IndexResult ℕ × IndexAllocator
allocate_from a draw i zero = (err exhausted, a)
allocate_from a draw i (suc attempts) =
    let later = allocate_from a draw (suc i) attempts in
    if is_allocated a (draw i)
    then later
    else (ok (draw i), record a { in_use = insert a.in_use (draw i) tt })

unfoldable pub allocate : IndexAllocator → (ℕ → ℕ) → IndexResult ℕ × IndexAllocator
unfolding allocate_from
allocate a draw = allocate_from a draw 0 a.max_attempts

-- `HashSet::remove` says whether the index was there.
unfoldable pub free : IndexAllocator → ℕ → IndexResult (Unit {0}) × IndexAllocator
free a index =
    let freed = record a { in_use = remove a.in_use index } in
    if contains_key a.in_use index then (ok tt, freed) else (err (not_found index), freed)

abbrev pub count : IndexAllocator → ℕ
count a = length a.in_use

abbrev is_empty : IndexAllocator → Bool
is_empty a = elim a.in_use [ [] ↦ true | e ∷ m ↦ false ]

unfoldable pub reserve : IndexAllocator → ℕ → IndexResult (Unit {0}) × IndexAllocator
reserve a index =
    if contains_key a.in_use index
    then (err (already_in_use index), a)
    else (ok tt, record a { in_use = insert a.in_use index tt })

abbrev pub clear : IndexAllocator → IndexAllocator
clear a = record a { in_use = [] }
