-- ===== src/Node/Retry/Steps.antt =====
-- fips/src/node/retry.rs: which entries are pending, over any run of a node.
use fips_native.Base.{
  ℕ, ◌+◌, ◌*◌, ◌%◌, ◌^◌, ◌≡◌, refl, inl, inr, arith, List, [], ◌∷◌, Bool, true, false, not, ◌&&◌,
  Option, some, is_some, ◌==◌, ltb, Bool-cases, Option-cases,
}
use fips_native.Base.Map.{Map, get, insert, remove, contains_key, get-insert, get-remove}
use fips_native.Config.{PeerConfig, RetryConfig}
use fips_native.Node.Retry.{
  RetryState, RetryNode, new, delayed, counted, retry_again, set_pending, drop_pending, find_config,
  schedule_retry, schedule_reconnect, attempt, attempt_all, due, process_pending_retries,
}

module _ (from_npub : List ℕ → Option ℕ) (pcs : List PeerConfig) where
  -- A node that starts, over these peers of the settings.
  abbrev pub start : RetryConfig → ℕ → RetryNode
  start retry timeout = record {
    config_peers = pcs;
    retry = retry;
    handshake_timeout_secs = timeout;
    peers = [];
    retry_pending = [];
  }

  -- The operations of retry.rs, `promote_connection`, `remove_active_peer` and `api_disconnect`.
  pub data Step (n : RetryNode) : RetryNode → Type 0 where
    failed : (a now : ℕ) → Step n (schedule_retry from_npub n a now)
    lost : (a now : ℕ) → Step n (schedule_reconnect from_npub n a now)
    tried :
        (started : ℕ → Bool) (now : ℕ) → Step n (process_pending_retries from_npub started n now)
    promoted : (a : ℕ) → Step n (drop_pending (record n { peers = insert n.peers a tt }) a)
    removed : (a : ℕ) → Step n (record n { peers = remove n.peers a })
    disconnected : (a : ℕ) → Step n (drop_pending (record n { peers = remove n.peers a }) a)

  pub data Reach (retry : RetryConfig) (timeout : ℕ) : RetryNode → Type 0 where
    at_start : Reach retry timeout (start retry timeout)
    next : (n m : RetryNode) → Reach retry timeout n → Step n m → Reach retry timeout m

  -- An entry is for the peer of the settings with its address, and is never given up.
  abbrev pub IsKept : ℕ → RetryState → Type 0
  IsKept a s = (find_config from_npub pcs a ≡ some s.peer_config) × (s.reconnect ≡ true)

  abbrev pub AllKept : Map RetryState → Type 0
  AllKept m = (a : ℕ) (s : RetryState) → get m a ≡ some s → IsKept a s

  insert-AllKept :
      (m : Map RetryState) (a : ℕ) (s : RetryState)
      → AllKept m
      → IsKept a s
      → AllKept (insert m a s)
  insert-AllKept m a s k g b t h = ground (arith, get-insert m a b s, k b t)

  remove-AllKept : (m : Map RetryState) (a : ℕ) → AllKept m → AllKept (remove m a)
  remove-AllKept m a k b t h = ground (arith, get-remove m a b, k b t)

  abbrev Kept : RetryNode → Type 0
  Kept n = (n.config_peers ≡ pcs) × AllKept n.retry_pending

  set_pending-Kept :
      (n : RetryNode) (a : ℕ) (s : RetryState) → Kept n → IsKept a s → Kept (set_pending n a s)
  set_pending-Kept n a s (same, k) g = (same, insert-AllKept n.retry_pending a s k g)

  drop_pending-Kept : (n : RetryNode) (a : ℕ) → Kept n → Kept (drop_pending n a)
  drop_pending-Kept n a (same, k) = (same, remove-AllKept n.retry_pending a k)

  retry_again-Kept :
      (n : RetryNode) (a now : ℕ) (s : RetryState)
      → Kept n
      → IsKept a s
      → Kept (retry_again n a now s)
  unfolding retry_again delayed
  retry_again-Kept n a now s k (f, r) =
      let stays : (not s.reconnect && ltb n.retry.max_retries (counted s).retry_count) ≡ false =
        rw r refl in
      rw stays (set_pending-Kept n a (delayed n now (counted s)) k (f, r))

  schedule_retry-Kept :
      (n : RetryNode) (a now : ℕ) → Kept n → Kept (schedule_retry from_npub n a now)
  unfolding schedule_retry delayed
  schedule_retry-Kept n a now (same, k) = elim (Bool-cases (n.retry.max_retries == 0)) [
    | inl z ↦ rw z (same, k)
    | inr z ↦ elim (Bool-cases (contains_key n.peers a)) [
      | inl c ↦ rw (z, c) (same, k)
      | inr c ↦ elim (Option-cases (get n.retry_pending a)) [
        | inr (s, g) ↦ rw (z, c, g) (retry_again-Kept n a now s (same, k) (k a s g))
        | inl g ↦ elim (Option-cases (find_config from_npub n.config_peers a)) [
          | inl f ↦ rw (z, c, g, f) (same, k)
          | inr (pc, f) ↦
              rw (z, c, g, f)
                (set_pending-Kept n a
                  (delayed n now (record (new pc) { retry_count = 1; reconnect = true })) (same, k)
                  (rw (← same) f, refl))
        ]
      ]
    ]
  ]

  schedule_reconnect-Kept :
      (n : RetryNode) (a now : ℕ) → Kept n → Kept (schedule_reconnect from_npub n a now)
  unfolding schedule_reconnect delayed
  schedule_reconnect-Kept n a now (same, k) =
      elim (Option-cases (find_config from_npub n.config_peers a)) [
        | inl f ↦ rw (schedule_reconnect, f) (same, k)
        | inr (pc, f) ↦ elim (Bool-cases pc.auto_reconnect) [
          | inr r ↦ rw (schedule_reconnect, f, r) (same, k)
          | inl r ↦ elim (Option-cases (get n.retry_pending a)) [
            | inr (s, g) ↦
                rw (schedule_reconnect, f, r, g)
                  (set_pending-Kept n a (delayed n now (counted (record s { reconnect = true })))
                    (same, k) ((k a s g).0, refl))
            | inl g ↦
                rw (schedule_reconnect, f, r, g)
                  (set_pending-Kept n a (delayed n now (record (new pc) { reconnect = true }))
                    (same, k) (rw (← same) f, refl))
          ]
        ]
      ]

  attempt-Kept :
      (started : ℕ → Bool) (n : RetryNode) (now a : ℕ)
      → Kept n
      → Kept (attempt from_npub started n now a)
  unfolding attempt
  attempt-Kept started n now a (same, k) = elim (Bool-cases (contains_key n.peers a)) [
    | inl c ↦ rw c (drop_pending-Kept n a (same, k))
    | inr c ↦ elim (Option-cases (get n.retry_pending a)) [
      | inl g ↦ rw (c, g) (same, k)
      | inr (s, g) ↦ elim (Bool-cases (started a)) [
        | inl o ↦
            let at = (now + (n.handshake_timeout_secs * 1000) % 2 ^ 64) % 2 ^ 64 in
            rw (c, g, o)
              (set_pending-Kept n a (record s { retry_after_ms = at }) (same, k) (k a s g))
        | inr o ↦ rw (c, g, o) (schedule_retry-Kept n a now (same, k))
      ]
    ]
  ]

  attempt_all-Kept :
      (started : ℕ → Bool) (n : RetryNode) (now : ℕ) (as_ : List ℕ)
      → Kept n
      → Kept (attempt_all from_npub started n now as_)
  unfolding attempt_all
  attempt_all-Kept started n now [] k = k
  attempt_all-Kept started n now (a ∷ rest) k =
      attempt_all-Kept started (attempt from_npub started n now a) now rest
        (attempt-Kept started n now a k)

  Step-Kept : (n m : RetryNode) → Step n m → Kept n → Kept m
  unfolding process_pending_retries
  Step-Kept n m (failed a now) k = schedule_retry-Kept n a now k
  Step-Kept n m (lost a now) k = schedule_reconnect-Kept n a now k
  Step-Kept n m (tried started now) k =
      attempt_all-Kept started n now (due from_npub now n.retry_pending) k
  Step-Kept n m (promoted a) k = (k.0, remove-AllKept n.retry_pending a k.1)
  Step-Kept n m (removed a) k = k
  Step-Kept n m (disconnected a) k = (k.0, remove-AllKept n.retry_pending a k.1)

  Reach-Kept : (retry : RetryConfig) (timeout : ℕ) (n : RetryNode) → Reach retry timeout n → Kept n
  unfolding get
  Reach-Kept retry timeout n at_start = (refl, λ a s h. cc)
  Reach-Kept retry timeout n (next before m r step) =
      Step-Kept before n step (Reach-Kept retry timeout before r)

  -- A pending entry that is kept survives a further failure.
  schedule_retry-pending :
      (n : RetryNode) (a now : ℕ) (s : RetryState)
      → get n.retry_pending a ≡ some s
      → s.reconnect ≡ true
      → is_some (get (schedule_retry from_npub n a now).retry_pending a) ≡ true
  unfolding schedule_retry retry_again
  schedule_retry-pending n a now s g r =
      let stays : (not s.reconnect && ltb n.retry.max_retries (counted s).retry_count) ≡ false =
        rw r refl in
      let same : (a == a) ≡ true = ground arith in
      elim (Bool-cases (n.retry.max_retries == 0)) [
        | inl z ↦ rw (z, g) refl
        | inr z ↦ elim (Bool-cases (contains_key n.peers a)) [
          | inl c ↦ rw (z, c, g) refl
          | inr c ↦
              rw (z, c, g, stays, get-insert n.retry_pending a a (delayed n now (counted s)), same)
                refl
        ]
      ]

  -- In every run of a node, an entry that is pending belongs to an auto-connect peer of the
  -- settings with its address, has reconnect set, and survives a further failure, so that
  -- max_retries never ends the attempts.
  pub Reach-pending :
      (retry : RetryConfig) (timeout : ℕ) (n : RetryNode) (a now : ℕ) (s : RetryState)
      → Reach retry timeout n
      → get n.retry_pending a ≡ some s
      → IsKept a s × (is_some (get (schedule_retry from_npub n a now).retry_pending a) ≡ true)
  Reach-pending retry timeout n a now s r g =
      let k : IsKept a s = (Reach-Kept retry timeout n r).1 a s g in
      (k, schedule_retry-pending n a now s g k.1)
