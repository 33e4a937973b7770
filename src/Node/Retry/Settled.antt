-- ===== src/Node/Retry/Settled.antt =====
-- fips/src/node/retry.rs: a round of retries leaves no entry that is due.
use fips_native.Base.{
  ℕ, ◌+◌, ◌*◌, ◌%◌, ◌^◌, ◌≤◌, ◌<◌, ◌≡◌, ◌⊎◌, refl, inl, inr, arith, List, [], ◌∷◌, Bool, false, not,
  ◌&&◌, Option, some, ◌==◌, ltb, Bool-cases, Option-cases,
}
use native.Mathlib.Nat.{one-le-pow, mul-le-mul_left}
use fips_native.Base.Map.{Map, get, contains_key, get-insert, get-remove}
use fips_native.Config.{RetryConfig}
use fips_native.Node.Retry.{
  RetryState, RetryNode, delayed, counted, backoff_ms, base_interval_ms, max_backoff_ms,
  retry_again, set_pending, drop_pending, schedule_retry, attempt, attempt_all, due,
  process_pending_retries,
}
use fips_native.Node.Retry.Backoff.{backoff_ms_lem}

-- Retries are on, no interval is zero, and the times fit a u64.
pub record IsReady (retry : RetryConfig) (handshake_timeout_secs now : ℕ) : Type 0 where
  pub retries : 1 ≤ retry.max_retries
  pub base : 1 ≤ retry.base_interval_secs
  pub base_fits : retry.base_interval_secs * 1000 < 2 ^ 64
  pub cap : 1 ≤ retry.max_backoff_secs
  pub cap_fits : now + retry.max_backoff_secs * 1000 < 2 ^ 64
  pub timeout : 1 ≤ handshake_timeout_secs
  pub timeout_fits : now + handshake_timeout_secs * 1000 < 2 ^ 64

abbrev pub Ready : RetryNode → ℕ → Type 0
Ready n now = IsReady n.retry n.handshake_timeout_secs now

abbrev pub Quiet : RetryNode → ℕ → ℕ → Type 0
Quiet n now b = (t : RetryState) → get n.retry_pending b ≡ some t → now < t.retry_after_ms

later :
    (n : RetryNode) (now : ℕ) (s : RetryState)
    → Ready n now
    → now < (delayed n now s).retry_after_ms
unfolding delayed
later n now s r =
    let base_ms : base_interval_ms n ≡ n.retry.base_interval_secs * 1000 =
      omega (arith, r.base_fits) in
    let cap_ms : max_backoff_ms n ≡ n.retry.max_backoff_secs * 1000 = omega (arith, r.cap_fits) in
    let d = backoff_ms_lem s (base_interval_ms n) (max_backoff_ms n) (omega arith) in
    let p : 1 ≤ 2 ^ s.retry_count = one-le-pow s.retry_count 2 (omega arith) in
    let q : base_interval_ms n * 1 ≤ base_interval_ms n * 2 ^ s.retry_count =
      mul-le-mul_left (base_interval_ms n) p in
    let some_ : 1 ≤ base_interval_ms n = omega (arith, base_ms, r.base) in
    let more : 1 ≤ backoff_ms s (base_interval_ms n) (max_backoff_ms n) =
      rw d (omega (arith, cap_ms, r.cap, q, some_)) in
    let less : backoff_ms s (base_interval_ms n) (max_backoff_ms n)
        ≤ n.retry.max_backoff_secs * 1000 =
      rw d (omega (arith, cap_ms)) in
    omega (arith, more, less, r.cap_fits)

set_pending-Quiet :
    (n : RetryNode) (now a b : ℕ) (s : RetryState)
    → now < s.retry_after_ms
    → (a ≡ b) ⊎ Quiet n now b
    → Quiet (set_pending n a s) now b
set_pending-Quiet n now a b s l (inl e) t h = ground (arith, get-insert n.retry_pending a b s)
set_pending-Quiet n now a b s l (inr q) t h = ground (arith, get-insert n.retry_pending a b s, q t)

drop_pending-Quiet :
    (n : RetryNode) (now a b : ℕ) → (a ≡ b) ⊎ Quiet n now b → Quiet (drop_pending n a) now b
drop_pending-Quiet n now a b (inl e) t h = ground (arith, get-remove n.retry_pending a b)
drop_pending-Quiet n now a b (inr q) t h = ground (arith, get-remove n.retry_pending a b, q t)

abbrev pub Settled : RetryNode → ℕ → ℕ → Type 0
Settled n now b = Ready n now × Quiet n now b

retry_again-Settled :
    (n : RetryNode) (now a b : ℕ) (s : RetryState)
    → Ready n now
    → (a ≡ b) ⊎ Quiet n now b
    → Settled (retry_again n a now s) now b
unfolding retry_again
retry_again-Settled n now a b s r q =
    elim (Bool-cases (not s.reconnect && ltb n.retry.max_retries (counted s).retry_count)) [
      | inl e ↦ rw e (r, drop_pending-Quiet n now a b q)
      | inr e ↦
          rw e (
            r,
            set_pending-Quiet n now a b (delayed n now (counted s)) (later n now (counted s) r) q,
          )
    ]

module _ (from_npub : List ℕ → Option ℕ) (started : ℕ → Bool) where
  schedule_retry-retry_again :
      (n : RetryNode) (now a : ℕ) (s : RetryState)
      → Ready n now
      → contains_key n.peers a ≡ false
      → get n.retry_pending a ≡ some s
      → schedule_retry from_npub n a now ≡ retry_again n a now s
  unfolding schedule_retry
  schedule_retry-retry_again n now a s r c g =
      let some_ : 1 ≤ n.retry.max_retries = r.retries in
      let on : (n.retry.max_retries == 0) ≡ false = ground arith in rw (on, c, g) refl

  attempt-Settled :
      (n : RetryNode) (now a b : ℕ)
      → Ready n now
      → (a ≡ b) ⊎ Quiet n now b
      → Settled (attempt from_npub started n now a) now b
  unfolding attempt
  attempt-Settled n now a b r q = elim (Bool-cases (contains_key n.peers a)) [
    | inl c ↦ rw c (r, drop_pending-Quiet n now a b q)
    | inr c ↦ elim (Option-cases (get n.retry_pending a)) [
      | inl g ↦ rw (c, g) (r, λ t h. elim q [ inl e ↦ cc | inr q ↦ q t h ])
      | inr (s, g) ↦ elim (Bool-cases (started a)) [
        | inl o ↦
            let at = (now + (n.handshake_timeout_secs * 1000) % 2 ^ 64) % 2 ^ 64 in
            let l : now < at = omega (arith, r.timeout, r.timeout_fits) in
            rw (c, g, o) (r, set_pending-Quiet n now a b (record s { retry_after_ms = at }) l q)
        | inr o ↦
            rw (c, g, o, schedule_retry-retry_again n now a s r c g)
              (retry_again-Settled n now a b s r q)
      ]
    ]
  ]

  abbrev Holds : ℕ → List ℕ → Type 0
  Holds b [] = ⊥
  Holds b (a ∷ rest) = (a ≡ b) ⊎ Holds b rest

  attempt_all-Settled :
      (n : RetryNode) (now b : ℕ) (addrs : List ℕ)
      → Ready n now
      → Holds b addrs ⊎ Quiet n now b
      → Settled (attempt_all from_npub started n now addrs) now b
  unfolding attempt_all
  attempt_all-Settled n now b [] r (inl h) = absurd h
  attempt_all-Settled n now b [] r (inr q) = (r, q)
  attempt_all-Settled n now b (a ∷ rest) r (inl (inl e)) =
      let (r_, q) = attempt-Settled n now a b r (inl e) in
      attempt_all-Settled (attempt from_npub started n now a) now b rest r_ (inr q)
  attempt_all-Settled n now b (a ∷ rest) r (inl (inr h)) =
      let (r_, q) = attempt-Settled n now a a r (inl refl) in
      attempt_all-Settled (attempt from_npub started n now a) now b rest r_ (inl h)
  attempt_all-Settled n now b (a ∷ rest) r (inr q) =
      let (r_, q_) = attempt-Settled n now a b r (inr q) in
      attempt_all-Settled (attempt from_npub started n now a) now b rest r_ (inr q_)

  due_lem :
      (m : Map RetryState) (now b : ℕ) (t : RetryState)
      → get m b ≡ some t
      → Holds b (due from_npub now m) ⊎ (now < t.retry_after_ms)
  unfolding get due
  due_lem [] now b t h = cc
  due_lem ((a, s) ∷ m) now b t h = ground (arith, due_lem m now b t)

  -- With max_retries not 0, no interval zero and times that fit a u64, a round of retries leaves
  -- no entry due at the time of the round, whichever of its connections start.
  pub process_pending_retries-Settled :
      (n : RetryNode) (now b : ℕ) (t : RetryState)
      → Ready n now
      → get (process_pending_retries from_npub started n now).retry_pending b ≡ some t
      → now < t.retry_after_ms
  unfolding process_pending_retries
  process_pending_retries-Settled n now b t r h =
      let addrs = due from_npub now n.retry_pending in
      elim (Option-cases (get n.retry_pending b)) [
        | inl g ↦ (attempt_all-Settled n now b addrs r (inr (λ u k. cc))).1 t h
        | inr (s, g) ↦ elim (due_lem n.retry_pending now b s g) [
          | inl d ↦ (attempt_all-Settled n now b addrs r (inl d)).1 t h
          | inr l ↦ (attempt_all-Settled n now b addrs r (inr (λ u k. ground (arith, l)))).1 t h
        ]
      ]
