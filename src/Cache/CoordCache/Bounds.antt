-- ===== src/Cache/CoordCache/Bounds.antt =====
-- The cache stays within its bound, and answers what was put in until it expires.
use fips_native.Base.{
  ℕ, suc, ◌-◌, ◌≤◌, ◌≡◌, refl, ◌∙◌, inl, inr, arith, [], ◌∷◌, true, not, Option, none, some, ltb,
  leb, ◌==◌, if◌then◌else◌, length, Bool-cases, Option-cases, ◌≢◌, is_some,
}
use fips_native.Base.Map.{
  Map, get, insert, Distinct, get-insert, get-remove, length-insert_new, length-insert_old,
  length-remove_le, length-remove_lt, length-retain_le, insert-Distinct, remove-Distinct,
  retain-Distinct,
}
use fips_native.Tree.Coordinate.{TreeCoordinate}
use fips_native.Cache.Entry.{
  CacheEntry, saturating_add, is_expired, idle_time, refresh, update, set_path_mtu,
}
use fips_native.Cache.Entry
use fips_native.Cache.CoordCache.{
  CoordCache, first_expired, most_idle, lru_key, victim, remove_key, evict_one, insert_entry,
  insert_coords, insert_with_path_mtu, insert_with_ttl, lookup, get_and_touch, remove_entry,
  purge_expired, clear,
}

pub record IsCoordCache (c : CoordCache) : Type 0 where
  pub distinct : Distinct c.entries
  pub bounded : length c.entries ≤ c.max_entries

first_expired-get :
    (now k : ℕ) (m : Map CacheEntry) → first_expired now m ≡ some k → is_some (get m k) ≡ true
unfolding first_expired get
first_expired-get now k [] h = cc
first_expired-get now k ((j, e) ∷ m) h = ground (arith, first_expired-get now k m)

-- The most idle key is the first candidate or a key of the rest.
most_idle-get :
    (now k idle : ℕ) (e : CacheEntry) (m : Map CacheEntry)
    → is_some (get ((k, e) ∷ m) (most_idle now k idle m)) ≡ true
unfolding most_idle get
most_idle-get now k idle e [] = ground arith
most_idle-get now k idle e ((j, f) ∷ m) =
    ground (arith, most_idle-get now j (idle_time f now) f m, most_idle-get now k idle e m)

none-is_some : (o : Option CacheEntry) → o ≡ none → is_some o ≢ true
none-is_some none e h = cc
none-is_some (some x) e h = cc

lru_key-get : (now k : ℕ) (m : Map CacheEntry) → lru_key now m ≡ some k → is_some (get m k) ≡ true
unfolding lru_key
lru_key-get now k [] h = cc
lru_key-get now k ((j, e) ∷ m) h =
    let same : most_idle now j (idle_time e now) m ≡ k = cc in
    rw (← same) (most_idle-get now j (idle_time e now) e m)

victim-get : (now k : ℕ) (m : Map CacheEntry) → victim now m ≡ some k → is_some (get m k) ≡ true
unfolding victim
victim-get now k m = elim (Option-cases (first_expired now m)) [
  | inl fresh ↦ rw (victim, fresh) (lru_key-get now k m)
  | inr (j, found) ↦ rw (victim, found) (λ h. first_expired-get now k m (found ∙ h))
]

victim_some : (now : ℕ) (x : ℕ × CacheEntry) (m : Map CacheEntry) → victim now (x ∷ m) ≢ none
unfolding victim lru_key
victim_some now (j, e) m = elim (Option-cases (first_expired now ((j, e) ∷ m))) [
  | inl fresh ↦ rw (victim, fresh) (λ h. cc)
  | inr (k, found) ↦ rw (victim, found) (λ h. cc)
]

-- Eviction makes room for one.
evict-bound :
    (now n : ℕ) (m : Map CacheEntry) → length m ≤ suc n → length (remove_key m (victim now m)) ≤ n
unfolding remove_key
evict-bound now n [] l = elim (Option-cases (victim now [])) [
  | inl e ↦ rw (e, remove_key) (omega arith)
  | inr (k, e) ↦ rw (e, remove_key) (omega (arith, length-remove_le {V = CacheEntry} [] k))
]
evict-bound now n (x ∷ m) l = elim (Option-cases (victim now (x ∷ m))) [
  | inl e ↦ absurd (victim_some now x m e)
  | inr (k, e) ↦
      rw (e, remove_key)
        (elim (Option-cases (get (x ∷ m) k)) [
          | inl missing ↦
              let there : is_some (get (x ∷ m) k) ≡ true = victim-get now k (x ∷ m) e in
              absurd (none-is_some (get (x ∷ m) k) missing there)
          | inr (v, there) ↦ omega (arith, length-remove_lt (x ∷ m) k v there)
        ])
]

remove_key-Distinct : (m : Map CacheEntry) (o : Option ℕ) → Distinct m → Distinct (remove_key m o)
unfolding remove_key
remove_key-Distinct m none d = d
remove_key-Distinct m (some k) d = remove-Distinct m k d

get-remove_key :
    (m : Map CacheEntry) (o : Option ℕ) (q : ℕ) → get m q ≡ none → get (remove_key m o) q ≡ none
unfolding remove_key
get-remove_key m none q h = h
get-remove_key m (some k) q h = ground (arith, get-remove m k q)

insert_new-IsCoordCache :
    (c : CoordCache) (addr now : ℕ) (e : CacheEntry)
    → 1 ≤ c.max_entries
    → IsCoordCache c
    → get c.entries addr ≡ none
    → let room = if leb c.max_entries (length c.entries) then evict_one c now else c in
      IsCoordCache (record room { entries = insert room.entries addr e })
unfolding evict_one
insert_new-IsCoordCache c addr now e pos v h =
    elim (Bool-cases (leb c.max_entries (length c.entries))) [
      | inr small ↦ rw small (record {
        distinct = insert-Distinct c.entries addr e v.distinct;
        bounded = rw (length-insert_new c.entries addr e h) (ground arith);
      })
      | inl full ↦
          let evicted = remove_key c.entries (victim now c.entries) in
          let fits : length evicted ≤ c.max_entries - 1 =
            evict-bound now (c.max_entries - 1) c.entries (omega (arith, v.bounded)) in
          let gone : get evicted addr ≡ none =
            get-remove_key c.entries (victim now c.entries) addr h in
          rw full (record {
            distinct =
                insert-Distinct evicted addr e
                  (remove_key-Distinct c.entries (victim now c.entries) v.distinct);
            bounded = rw (length-insert_new evicted addr e gone) (omega arith);
          })
    ]

insert_entry-IsCoordCache :
    (c : CoordCache) (addr : ℕ) (coords : TreeCoordinate) (now ttl : ℕ)
    (finish : CacheEntry → CacheEntry)
    → 1 ≤ c.max_entries
    → IsCoordCache c
    → IsCoordCache (insert_entry c addr coords now ttl finish)
unfolding insert_entry
insert_entry-IsCoordCache c addr coords now ttl finish pos v =
    elim (Option-cases (get c.entries addr)) [
      | inl new ↦
          rw (insert_entry, new)
            (insert_new-IsCoordCache c addr now (finish (Entry.new coords now ttl)) pos v new)
      | inr (e, old) ↦
          rw (insert_entry, old)
            (record {
              distinct =
                  insert-Distinct c.entries addr (finish (update e coords now ttl)) v.distinct;
              bounded =
                  rw (length-insert_old c.entries addr (finish (update e coords now ttl)) e old)
                    v.bounded;
            })
    ]

-- Every operation that changes a cache.
pub data Step (c : CoordCache) : CoordCache → Type 0 where
  inserted : (a : ℕ) (x : TreeCoordinate) (now : ℕ) → Step c (insert_coords c a x now)
  inserted_mtu :
      (a : ℕ) (x : TreeCoordinate) (now mtu : ℕ) → Step c (insert_with_path_mtu c a x now mtu)
  inserted_ttl : (a : ℕ) (x : TreeCoordinate) (now ttl : ℕ) → Step c (insert_with_ttl c a x now ttl)
  touched : (a now : ℕ) → Step c ((get_and_touch c a now).1)
  removed : (a : ℕ) → Step c (remove_entry c a)
  purged : (now : ℕ) → Step c ((purge_expired c now).1)
  cleared : Step c (clear c)
  ttl_set : (ttl : ℕ) → Step c (record c { default_ttl_ms = ttl })

get_and_touch-IsCoordCache :
    (c : CoordCache) (a now : ℕ) → IsCoordCache c → IsCoordCache ((get_and_touch c a now).1)
unfolding get_and_touch
get_and_touch-IsCoordCache c a now v = elim (Option-cases (get c.entries a)) [
  | inl none_ ↦ rw (get_and_touch, none_) v
  | inr (e, found) ↦
      rw (get_and_touch, found)
        (elim (Bool-cases (is_expired e now)) [
          | inl old ↦ rw old (record {
            distinct = remove-Distinct c.entries a v.distinct;
            bounded = omega (arith, length-remove_le c.entries a, v.bounded);
          })
          | inr live ↦ rw live (record {
            distinct = insert-Distinct c.entries a (refresh e now c.default_ttl_ms) v.distinct;
            bounded =
                rw (length-insert_old c.entries a (refresh e now c.default_ttl_ms) e found)
                  v.bounded;
          })
        ])
]

-- No operation lets a cache that is within its bound of at least one entry outgrow it, or gives
-- two entries to an address that had one.
pub Step-IsCoordCache :
    (c d : CoordCache) → 1 ≤ c.max_entries → Step c d → IsCoordCache c → IsCoordCache d
unfolding insert_coords insert_with_path_mtu insert_with_ttl purge_expired
Step-IsCoordCache c _ p (inserted a x now) v =
    insert_entry-IsCoordCache c a x now c.default_ttl_ms (λ e. e) p v
Step-IsCoordCache c _ p (inserted_mtu a x now mtu) v =
    insert_entry-IsCoordCache c a x now c.default_ttl_ms (set_path_mtu mtu) p v
Step-IsCoordCache c _ p (inserted_ttl a x now ttl) v =
    insert_entry-IsCoordCache c a x now ttl (λ e. e) p v
Step-IsCoordCache c _ p (touched a now) v = get_and_touch-IsCoordCache c a now v
Step-IsCoordCache c _ p (removed a) v = record {
  distinct = remove-Distinct c.entries a v.distinct;
  bounded = omega (arith, length-remove_le c.entries a, v.bounded);
}
Step-IsCoordCache c _ p (purged now) v = record {
  distinct = retain-Distinct (λ k e. not (is_expired e now)) c.entries v.distinct;
  bounded = omega (arith, length-retain_le (λ k e. not (is_expired e now)) c.entries, v.bounded);
}
Step-IsCoordCache c _ p cleared v = record { distinct = tt; bounded = omega arith }
Step-IsCoordCache c _ p (ttl_set t) v = record { distinct = v.distinct; bounded = v.bounded }

lookup-found :
    (c : CoordCache) (a later : ℕ) (e : CacheEntry)
    → lookup (record c { entries = insert c.entries a e }) a later
      ≡ (if is_expired e later then none else some e.coords)
unfolding lookup
lookup-found c a later e =
    let same : (a == a) ≡ true = ground arith in
    let found : get (insert c.entries a e) a ≡ some e = get-insert c.entries a a e ∙ rw same refl in
    rw (lookup, found) refl

-- What is put in under a time to live is found until that time has passed, whatever the cache
-- held, and is not found after it.
pub lookup-insert_with_ttl :
    (c : CoordCache) (a : ℕ) (x : TreeCoordinate) (now ttl later : ℕ)
    → lookup (insert_with_ttl c a x now ttl) a later
      ≡ (if ltb (saturating_add now ttl) later then none else some x)
unfolding insert_with_ttl insert_entry
lookup-insert_with_ttl c a x now ttl later = elim (Option-cases (get c.entries a)) [
  | inl new ↦
      let room = if leb c.max_entries (length c.entries) then evict_one c now else c in
      rw (insert_entry, new) (lookup-found room a later (Entry.new x now ttl))
  | inr (e, old) ↦ rw (insert_entry, old) (lookup-found c a later (update e x now ttl))
]
