-- ===== src/Base/Map.antt =====
-- Rust's `HashMap` and `HashSet` over keys that are numbers, as association lists.
-- The order of the list is the (unspecified) order of iteration.
use Prim.Native.Nat.{ℕ, suc, ◌≤◌, ◌<◌}
use mathlib.Core.Path.{◌≡◌, refl}
use mathlib.Core.Bool.{Bool}
use mathlib.Core.List.{List, [], ◌∷◌}
use mathlib.Core.Option.{Option, none, some}
use native.Mathlib.Omega.{arith}
use fips_native.Base.Tests.{◌==◌, if◌then◌else◌, is_some}
use fips_native.Base.Lists.{length}

abbrev pub Map {ℓ} : Type ℓ → Type ℓ
Map V = List (ℕ × V)

module _ {ℓ} {V : Type ℓ} where
  unfoldable pub get : Map V → ℕ → Option V
  get [] k = none
  get ((j, v) ∷ m) k = if j == k then some v else get m k

  -- `insert` replaces the value of a key that is present.
  unfoldable pub insert : Map V → ℕ → V → Map V
  insert [] k v = (k, v) ∷ []
  insert ((j, w) ∷ m) k v = if j == k then (k, v) ∷ m else (j, w) ∷ insert m k v

  unfoldable pub remove : Map V → ℕ → Map V
  remove [] k = []
  remove ((j, w) ∷ m) k = if j == k then remove m k else (j, w) ∷ remove m k

  unfoldable pub retain : (ℕ → V → Bool) → Map V → Map V
  retain p [] = []
  retain p ((j, w) ∷ m) = if p j w then (j, w) ∷ retain p m else retain p m

  abbrev pub contains_key : Map V → ℕ → Bool
  contains_key m k = is_some (get m k)

  -- No key stands twice, as in every `HashMap`.
  abbrev pub Distinct : Map V → Type ℓ
  Distinct [] = Unit
  Distinct ((k, v) ∷ m) = (get m k ≡ none) × Distinct m

  pub get-insert :
      (m : Map V) (k j : ℕ) (v : V) → get (insert m k v) j ≡ (if k == j then some v else get m j)
  unfolding get insert
  get-insert [] k j v = refl
  get-insert ((i, w) ∷ m) k j v = ground (arith, get-insert m k j v)

  pub get-remove : (m : Map V) (k j : ℕ) → get (remove m k) j ≡ (if k == j then none else get m j)
  unfolding get remove
  get-remove [] k j = ground arith
  get-remove ((i, w) ∷ m) k j = ground (arith, get-remove m k j)

  pub length-insert_new :
      (m : Map V) (k : ℕ) (v : V) → get m k ≡ none → length (insert m k v) ≡ suc (length m)
  unfolding get insert
  length-insert_new [] k v h = refl
  length-insert_new ((i, w) ∷ m) k v h = ground (arith, length-insert_new m k v)

  pub length-insert_old :
      (m : Map V) (k : ℕ) (v w : V) → get m k ≡ some w → length (insert m k v) ≡ length m
  unfolding get insert
  length-insert_old [] k v w h = cc
  length-insert_old ((i, u) ∷ m) k v w h = ground (arith, length-insert_old m k v w)

  pub length-remove_le : (m : Map V) (k : ℕ) → length (remove m k) ≤ length m
  unfolding remove
  length-remove_le [] k = omega arith
  length-remove_le ((i, w) ∷ m) k = ground (arith, length-remove_le m k)

  pub length-remove_lt :
      (m : Map V) (k : ℕ) (v : V) → get m k ≡ some v → length (remove m k) < length m
  unfolding get remove
  length-remove_lt [] k v h = cc
  length-remove_lt ((i, w) ∷ m) k v h = ground (arith, length-remove_lt m k v, length-remove_le m k)

  pub length-retain_le : (p : ℕ → V → Bool) (m : Map V) → length (retain p m) ≤ length m
  unfolding retain
  length-retain_le p [] = omega arith
  length-retain_le p ((i, w) ∷ m) = ground (arith, length-retain_le p m)

  pub insert-Distinct : (m : Map V) (k : ℕ) (v : V) → Distinct m → Distinct (insert m k v)
  unfolding get insert
  insert-Distinct [] k v d = (refl, tt)
  insert-Distinct ((i, w) ∷ m) k v d = ground (arith, get-insert m k i v, insert-Distinct m k v d.1)

  pub remove-Distinct : (m : Map V) (k : ℕ) → Distinct m → Distinct (remove m k)
  unfolding get remove
  remove-Distinct [] k d = tt
  remove-Distinct ((i, w) ∷ m) k d = ground (arith, get-remove m k i, remove-Distinct m k d.1)

  -- Under distinct keys, `retain` filters what `get` finds.
  abbrev pub filter_value : (ℕ → V → Bool) → ℕ → Option V → Option V
  filter_value p k none = none
  filter_value p k (some v) = if p k v then some v else none

  get-retain-none :
      (p : ℕ → V → Bool) (m : Map V) (k : ℕ) → get m k ≡ none → get (retain p m) k ≡ none
  unfolding get retain
  get-retain-none p [] k h = refl
  get-retain-none p ((i, w) ∷ m) k h = ground (arith, get-retain-none p m k)

  pub retain-Distinct : (p : ℕ → V → Bool) (m : Map V) → Distinct m → Distinct (retain p m)
  unfolding retain
  retain-Distinct p [] d = tt
  retain-Distinct p ((i, w) ∷ m) d =
      ground (arith, get-retain-none p m i d.0, retain-Distinct p m d.1)

  pub get-retain :
      (p : ℕ → V → Bool) (m : Map V) (k : ℕ)
      → Distinct m
      → get (retain p m) k ≡ filter_value p k (get m k)
  unfolding get retain
  get-retain p [] k d = refl
  get-retain p ((i, w) ∷ m) k d = ground (arith, get-retain p m k d.1, get-retain-none p m k)
