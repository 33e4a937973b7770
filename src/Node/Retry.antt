-- ===== src/Node/Retry.antt =====
-- fips/src/node/retry.rs: when connections to auto-connect peers are tried again. A node is the
-- part of its state that these operations read or change. `PeerIdentity::from_npub`, on top of
-- third-party crates, is the parameter `from_npub`: the address that an npub names, if it is one.
pub mod Backoff
pub mod Kept
pub mod Settled
pub mod Steps
use fips_native.Base.{
  ℕ, ◌+◌, ◌-◌, ◌*◌, ◌%◌, ◌^◌, min, List, [], ◌∷◌, Bool, true, false, not, Option, none, some, ltb,
  leb, ◌==◌, if◌then◌else◌, ◌&&◌,
}
use fips_native.Base.Map.{Map, get, insert, remove, contains_key}
use fips_native.Config.{PeerConfig, RetryConfig, is_auto_connect}
use fips_native.Node.DiscoveryRateLimit.{saturating_mul}

pub record RetryState : Type 0 where
  pub peer_config : PeerConfig
  pub retry_count : ℕ
  pub retry_after_ms : ℕ
  pub reconnect : Bool

pub record RetryNode : Type 0 where
  pub config_peers : List PeerConfig
  pub retry : RetryConfig
  pub handshake_timeout_secs : ℕ
  pub peers : Map (Unit {0})
  pub retry_pending : Map RetryState

abbrev pub new : PeerConfig → RetryState
new pc = record { peer_config = pc; retry_count = 0; retry_after_ms = 0; reconnect = false }

-- `checked_shl` is none from 64 places on.
abbrev pub multiplier : ℕ → ℕ
multiplier count = if ltb count 64 then 2 ^ count else 2 ^ 64 - 1

unfoldable pub backoff_ms : RetryState → ℕ → ℕ → ℕ
backoff_ms s base_interval_ms max_backoff_ms =
    min (saturating_mul base_interval_ms (multiplier s.retry_count)) max_backoff_ms

-- The two intervals of the settings in milliseconds.
abbrev pub base_interval_ms : RetryNode → ℕ
base_interval_ms n = (n.retry.base_interval_secs * 1000) % 2 ^ 64

abbrev pub max_backoff_ms : RetryNode → ℕ
max_backoff_ms n = (n.retry.max_backoff_secs * 1000) % 2 ^ 64

-- The entry with the next attempt put off by its backoff.
unfoldable pub delayed : RetryNode → ℕ → RetryState → RetryState
delayed n now s = record s {
  retry_after_ms = (now + backoff_ms s (base_interval_ms n) (max_backoff_ms n)) % 2 ^ 64;
}

abbrev pub set_pending : RetryNode → ℕ → RetryState → RetryNode
set_pending n a s = record n { retry_pending = insert n.retry_pending a s }

abbrev pub drop_pending : RetryNode → ℕ → RetryNode
drop_pending n a = record n { retry_pending = remove n.retry_pending a }

abbrev pub counted : RetryState → RetryState
counted s = record s { retry_count = (s.retry_count + 1) % 2 ^ 32 }

-- The branch of `schedule_retry` for an entry that is there.
unfoldable pub retry_again : RetryNode → ℕ → ℕ → RetryState → RetryNode
retry_again n a now s =
    if not s.reconnect && ltb n.retry.max_retries (counted s).retry_count
    then drop_pending n a
    else set_pending n a (delayed n now (counted s))

module _ (from_npub : List ℕ → Option ℕ) where
  abbrev pub names : PeerConfig → ℕ → Bool
  names pc a = elim (from_npub pc.npub) [ none ↦ false | some b ↦ b == a ]

  -- The first of `auto_connect_peers` with this address.
  unfoldable pub find_config : List PeerConfig → ℕ → Option PeerConfig
  find_config [] a = none
  find_config (pc ∷ pcs) a = if is_auto_connect pc && names pc a then some pc else find_config pcs a

  unfoldable pub schedule_retry : RetryNode → ℕ → ℕ → RetryNode
  unfolding retry_again find_config
  schedule_retry n a now =
      if n.retry.max_retries == 0
      then n
      else (if contains_key n.peers a then n else elim (get n.retry_pending a) [
        | some s ↦ retry_again n a now s
        | none ↦ elim (find_config n.config_peers a) [
          | none ↦ n
          | some pc ↦
              set_pending n a
                (delayed n now (record (new pc) { retry_count = 1; reconnect = true }))
        ]
      ])

  unfoldable pub schedule_reconnect : RetryNode → ℕ → ℕ → RetryNode
  unfolding find_config
  schedule_reconnect n a now = elim (find_config n.config_peers a) [
    | none ↦ n
    | some pc ↦ if not pc.auto_reconnect then n else elim (get n.retry_pending a) [
      | some s ↦ set_pending n a (delayed n now (counted (record s { reconnect = true })))
      | none ↦ set_pending n a (delayed n now (record (new pc) { reconnect = true }))
    ]
  ]

  unfoldable pub due : ℕ → Map RetryState → List ℕ
  due now [] = []
  due now ((a, s) ∷ m) = if leb s.retry_after_ms now then a ∷ due now m else due now m

  -- The attempt for one due address; `started` says whether `initiate_peer_connection` returns Ok.
  unfoldable pub attempt : (ℕ → Bool) → RetryNode → ℕ → ℕ → RetryNode
  unfolding schedule_retry
  attempt started n now a =
      if contains_key n.peers a then drop_pending n a else elim (get n.retry_pending a) [
        | none ↦ n
        | some s ↦
            if started a
            then set_pending n a (record s {
              retry_after_ms = (now + (n.handshake_timeout_secs * 1000) % 2 ^ 64) % 2 ^ 64;
            })
            else schedule_retry n a now
      ]

  unfoldable pub attempt_all : (ℕ → Bool) → RetryNode → ℕ → List ℕ → RetryNode
  unfolding attempt
  attempt_all started n now [] = n
  attempt_all started n now (a ∷ rest) = attempt_all started (attempt started n now a) now rest

  unfoldable pub process_pending_retries : (ℕ → Bool) → RetryNode → ℕ → RetryNode
  unfolding due attempt_all
  process_pending_retries started n now = attempt_all started n now (due now n.retry_pending)
