-- ===== src/Node/Retry/Kept.antt =====
-- fips/src/node/retry.rs: a peer of the settings is tried again for as long as it cannot be reached.
use fips_native.Base.{
  ℕ, suc, ◌+◌, ◌*◌, ◌%◌, ◌^◌, ◌≤◌, ◌<◌, ◌≡◌, ◌∙◌, refl, ap, min, arith, List, [], ◌∷◌, true, false,
  Option, none, some, ◌==◌, length,
}
use fips_native.Base.Map.{Map, get, insert, contains_key, get-insert}
use fips_native.Config.{PeerConfig}
use fips_native.Node.Retry.{
  RetryState, RetryNode, new, delayed, retry_again, base_interval_ms, max_backoff_ms, backoff_ms,
  find_config, schedule_retry,
}
use fips_native.Node.Retry.Backoff.{backoff_ms_lem}

module _ (from_npub : List ℕ → Option ℕ) where
  -- The attempts to reach `a` fail at these times, the last first.
  unfoldable pub fail_all : RetryNode → ℕ → List ℕ → RetryNode
  fail_all n a [] = n
  fail_all n a (now ∷ times) = schedule_retry from_npub (fail_all n a times) a now

  -- An entry after this many attempts, the last of them at `now`.
  abbrev entry : RetryNode → PeerConfig → ℕ → ℕ → RetryState
  entry n pc count now = delayed n now (record (new pc) { retry_count = count; reconnect = true })

  abbrev IsPending : RetryNode → RetryNode → ℕ → RetryState → Type 0
  IsPending n after a s =
      (m : Map RetryState) × (after ≡ record n { retry_pending = m }) × (get m a ≡ some s)

  pending-insert : (m : Map RetryState) (a : ℕ) (s : RetryState) → get (insert m a s) a ≡ some s
  pending-insert m a s =
      let same : (a == a) ≡ true = ground arith in get-insert m a a s ∙ rw same refl

  first :
      (n : RetryNode) (a now : ℕ) (pc : PeerConfig)
      → 1 ≤ n.retry.max_retries
      → contains_key n.peers a ≡ false
      → find_config from_npub n.config_peers a ≡ some pc
      → get n.retry_pending a ≡ none
      → IsPending n (schedule_retry from_npub n a now) a (entry n pc 1 now)
  unfolding schedule_retry
  first n a now pc h c f g =
      let more : (n.retry.max_retries == 0) ≡ false = ground arith in
      (
        insert n.retry_pending a (entry n pc 1 now),
        rw (more, c, g, f) refl,
        pending-insert n.retry_pending a (entry n pc 1 now),
      )

  again :
      (n : RetryNode) (a now then_ count : ℕ) (pc : PeerConfig) (m : Map RetryState)
      → 1 ≤ n.retry.max_retries
      → contains_key n.peers a ≡ false
      → get m a ≡ some (entry n pc count then_)
      → suc count < 2 ^ 32
      → IsPending n
          (schedule_retry from_npub (record n { retry_pending = m }) a now)
          a
          (entry n pc (suc count) now)
  unfolding schedule_retry retry_again delayed backoff_ms
  again n a now then_ count pc m h c g l =
      let more : (n.retry.max_retries == 0) ≡ false = ground arith in
      let one : (count + 1) % 2 ^ 32 ≡ suc count = omega arith in
      (
        insert m a (entry n pc (suc count) now),
        rw (more, c, g, one) refl,
        pending-insert m a (entry n pc (suc count) now),
      )

  fail-pending :
      (n : RetryNode) (a now : ℕ) (times : List ℕ) (pc : PeerConfig)
      → 1 ≤ n.retry.max_retries
      → contains_key n.peers a ≡ false
      → find_config from_npub n.config_peers a ≡ some pc
      → get n.retry_pending a ≡ none
      → length times + 1 < 2 ^ 32
      → IsPending n (fail_all n a (now ∷ times)) a (entry n pc (suc (length times)) now)
  unfolding fail_all
  fail-pending n a now [] pc h c f g l = first n a now pc h c f g
  fail-pending n a now (then_ ∷ times) pc h c f g l =
      let (m, e, found) = fail-pending n a then_ times pc h c f g (omega arith) in
      rw e (again n a now then_ (suc (length times)) pc m h c found (omega arith))

  -- A peer that is not connected and not pending, whose address an auto-connect entry of the
  -- settings names, is never abandoned if max_retries is not 0: after any number of failures
  -- below 2 ^ 32 its entry counts them all, reconnects, and is due min (base * 2 ^ count) max
  -- milliseconds after the last one, as long as these times fit a u64.
  pub schedule_retry-fail_all :
      (n : RetryNode) (a now : ℕ) (times : List ℕ) (pc : PeerConfig)
      → 1 ≤ n.retry.max_retries
      → contains_key n.peers a ≡ false
      → find_config from_npub n.config_peers a ≡ some pc
      → get n.retry_pending a ≡ none
      → length times + 1 < 2 ^ 32
      → n.retry.base_interval_secs * 1000 < 2 ^ 64
      → now + n.retry.max_backoff_secs * 1000 < 2 ^ 64
      → get (fail_all n a (now ∷ times)).retry_pending a
        ≡ some (record {
          peer_config = pc;
          retry_count = suc (length times);
          retry_after_ms =
              now
              + min
                  (n.retry.base_interval_secs * 1000 * 2 ^ suc (length times))
                  (n.retry.max_backoff_secs * 1000);
          reconnect = true;
        })
  unfolding delayed
  schedule_retry-fail_all n a now times pc h c f g l b k =
      let (m, e, found) = fail-pending n a now times pc h c f g l in
      let s : RetryState = record (new pc) { retry_count = suc (length times); reconnect = true } in
      let base : base_interval_ms n ≡ n.retry.base_interval_secs * 1000 = omega arith in
      let cap : max_backoff_ms n ≡ n.retry.max_backoff_secs * 1000 = omega arith in
      let d = backoff_ms_lem s (base_interval_ms n) (max_backoff_ms n) (omega arith) in
      let at : (now + backoff_ms s (base_interval_ms n) (max_backoff_ms n)) % 2 ^ 64
          ≡ now
            + min (n.retry.base_interval_secs * 1000 * 2 ^ suc (length times))
                (n.retry.max_backoff_secs * 1000) =
        rw (d, base, cap) (omega arith) in
      rw e (found ∙ ap (λ t. some (record s { retry_after_ms = t })) at)
