-- ===== src/Tests/Utils.antt =====
-- The index allocator on a stream that draws 7 first and then counts up.
use fips_native.Base.{ℕ, ◌+◌, ◌≡◌, refl, [], ◌∷◌, true, if◌then◌else◌}
use fips_native.Utils.Index.{ok, with_max_attempts, is_allocated, allocate}
use fips_native.Utils.Index
use fips_native.Utils.Index.Laws.{IsAllocation, allocate_correct}
use fips_native.Utils.Index.Held.{Reach, Agree, start, next, allocated, Reach-Agree}

abbrev toy_allocator : Index.IndexAllocator
toy_allocator = record { in_use = (7, tt) ∷ []; max_attempts = 3 }

allocate_correct_example :
    IsAllocation toy_allocator (λ i. i + 7) 0 3 (allocate toy_allocator (λ i. i + 7))
allocate_correct_example = allocate_correct toy_allocator (λ i. i + 7)

reached : Reach toy_allocator (7 ∷ [])
unfolding allocate Index.allocate_from fips_native.Base.Map.insert fips_native.Base.Map.get
reached =
    next (with_max_attempts 3) toy_allocator [] (7 ∷ []) (start 3)
      (allocated (λ i. i + 7) 7 toy_allocator refl)

Reach-Agree_example : Agree toy_allocator (7 ∷ [])
Reach-Agree_example = Reach-Agree toy_allocator (7 ∷ []) reached
