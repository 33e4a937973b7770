-- ===== src/Tests/Node.antt =====
-- Limits, headers and frames on concrete inputs; the ciphers are those of a toy AEAD.
use fips_native.Base.{
  ℕ, ◌+◌, ◌*◌, ◌^◌, ◌<◌, is_some, ◌≡◌, refl, arith, List, [], ◌∷◌, ◌++◌, Bool, true, Option, none,
  some, ltb, min, drop, length, replicate,
}
use fips_native.Node.RoutingErrorRateLimit.Laws.{answers, permits, answers-permits}
use fips_native.Node.RoutingErrorRateLimit
use fips_native.Node.DiscoveryRateLimit.{DiscoveryBackoff, is_suppressed, record_success}
use fips_native.Node.DiscoveryRateLimit
use fips_native.Node.DiscoveryRateLimit.Backoff.{fail, is_suppressed-fail}
use fips_native.Node.DiscoveryRateLimit.Forward.{forwards, forwards-permits}
use fips_native.Base.Map.{get, insert}
use fips_native.Node.Wire.{
  parse_encrypted, parse_msg1, parse_msg2, build_established_header, build_encrypted,
}
use fips_native.Node.Wire.Laws.{parse-build_encrypted}
use fips_native.Noise.Replay
use fips_native.Peer.Active.{with_session}
use fips_native.Peer.Active.Rekey.{set_pending_session}
use fips_native.Node.EncryptedFrame.{Node, Peer, index_key}
use fips_native.Config.{ConnectPolicy, PeerConfig, RetryConfig}
use fips_native.Node.Retry.{
  RetryNode, RetryState, find_config, schedule_retry, process_pending_retries, set_pending,
}
use fips_native.Node.Retry.Kept.{fail_all, schedule_retry-fail_all}
use fips_native.Node.Retry.Steps.{Step, Reach, IsKept, Reach-pending}
use fips_native.Node.Retry.Settled.{Ready, process_pending_retries-Settled}
use fips_native.Tests.Noise.{toy_session}

answers-permits_example :
    answers (RoutingErrorRateLimit.with_interval 100) ((3, 5) ∷ (3, 90) ∷ (3, 105) ∷ [])
    ≡ permits 100 [] ((3, 5) ∷ (3, 90) ∷ (3, 105) ∷ [])
answers-permits_example =
    answers-permits 100 0 ((3, 5) ∷ (3, 90) ∷ (3, 105) ∷ []) (omega arith)
      (omega arith, (omega arith, (omega arith, tt)))

forwards-permits_example :
    forwards (DiscoveryRateLimit.with_interval 2000) ((3, 5) ∷ (4, 90) ∷ (3, 2005) ∷ [])
    ≡ permits 2000 [] ((3, 5) ∷ (4, 90) ∷ (3, 2005) ∷ [])
forwards-permits_example =
    forwards-permits 2000 0 ((3, 5) ∷ (4, 90) ∷ (3, 2005) ∷ []) (omega arith)
      (omega arith, (omega arith, (omega arith, tt)))

abbrev toy_backoff : DiscoveryBackoff
toy_backoff = DiscoveryRateLimit.with_params 30 300

is_suppressed-fail_example :
    is_suppressed (fail (record_success toy_backoff 8) 8 (100 ∷ 40 ∷ [])) 8 150
    ≡ ltb 150 (100 + min 60 300)
is_suppressed-fail_example =
    is_suppressed-fail toy_backoff 8 100 (40 ∷ []) 150 (omega arith) (omega arith)

parse-build_encrypted_example :
    let header = build_established_header 6 7 1 20 in
    let packet = build_encrypted header (replicate 16 9) in
    (parse_encrypted packet
      ≡ some (record {
        flags = 1;
        payload_len = 20;
        receiver_idx = 6;
        counter = 7;
        header_bytes = header;
      }))
    × (drop 16 packet ≡ replicate 16 9)
    × (parse_msg1 packet ≡ none)
    × (parse_msg2 packet ≡ none)
parse-build_encrypted_example =
    parse-build_encrypted 6 7 1 20 (replicate 16 9) (omega arith) (omega arith) (omega arith)
      (omega arith)

-- The sender has cut over, the receiver has not: its new session is still pending.
abbrev sender : Peer ℕ ℕ
sender = record (with_session toy_session 11 21 1 [] 0 0) { current_k_bit = true }

abbrev receiver : Peer ℕ ℕ
receiver = set_pending_session (with_session toy_session 20 10 1 [] 0 0) toy_session 21 11

abbrev toy_node : Node ℕ ℕ
toy_node = record { peers = (5, receiver) ∷ []; peers_by_index = (index_key 1 21, 5) ∷ [] }

abbrev toy_npub : List ℕ → Option ℕ
toy_npub [] = none
toy_npub (b ∷ bytes) = some b

abbrev toy_config : PeerConfig
toy_config = record {
  npub = 7 ∷ [];
  alias = none;
  addresses = [];
  connect_policy = ConnectPolicy.auto_connect;
  auto_reconnect = true;
}

abbrev toy_retry : RetryConfig
toy_retry = record { max_retries = 1; base_interval_secs = 5; max_backoff_secs = 300 }

abbrev retry_node : RetryNode
retry_node = record {
  config_peers = toy_config ∷ [];
  retry = toy_retry;
  handshake_timeout_secs = 30;
  peers = [];
  retry_pending = [];
}

abbrev retry_entry : ℕ → ℕ → RetryState
retry_entry count at = record {
  peer_config = toy_config;
  retry_count = count;
  retry_after_ms = at;
  reconnect = true;
}

toy_config-found : find_config toy_npub (toy_config ∷ []) 7 ≡ some toy_config
unfolding find_config fips_native.Config.is_auto_connect
toy_config-found = refl

schedule_retry-fail_all_example :
    get (fail_all toy_npub retry_node 7 (900 ∷ 400 ∷ [])).retry_pending 7
    ≡ some (retry_entry 2 (900 + min (5 * 1000 * 2 ^ 2) (300 * 1000)))
unfolding get
schedule_retry-fail_all_example =
    schedule_retry-fail_all toy_npub retry_node 7 900 (400 ∷ []) toy_config (omega arith) refl
      toy_config-found refl (omega arith) (omega arith) (omega arith)

abbrev failed_node : RetryNode
failed_node = schedule_retry toy_npub retry_node 7 400

failed_node-pending : get failed_node.retry_pending 7 ≡ some (retry_entry 1 10400)
unfolding fail_all get
failed_node-pending =
    schedule_retry-fail_all toy_npub retry_node 7 400 [] toy_config (omega arith) refl
      toy_config-found refl (omega arith) (omega arith) (omega arith)

Reach-pending_example :
    IsKept toy_npub (toy_config ∷ []) 7 (retry_entry 1 10400)
    × (is_some (get (schedule_retry toy_npub failed_node 7 900).retry_pending 7) ≡ true)
Reach-pending_example =
    Reach-pending toy_npub (toy_config ∷ []) toy_retry 30 failed_node 7 900 (retry_entry 1 10400)
      (Reach.next retry_node failed_node Reach.at_start (Step.failed 7 400)) failed_node-pending

toy-Ready : Ready retry_node 20000
toy-Ready = record {
  retries = omega arith;
  base = omega arith;
  base_fits = omega arith;
  cap = omega arith;
  cap_fits = omega arith;
  timeout = omega arith;
  timeout_fits = omega arith;
}

abbrev due_node : RetryNode
due_node = set_pending retry_node 7 (retry_entry 1 10400)

due_node-tried :
    get (process_pending_retries toy_npub (λ a. true) due_node 20000).retry_pending 7
    ≡ some (retry_entry 1 50000)
unfolding process_pending_retries get insert
due_node-tried = refl

process_pending_retries-Settled_example : 20000 < (retry_entry 1 50000).retry_after_ms
process_pending_retries-Settled_example =
    process_pending_retries-Settled toy_npub (λ a. true) due_node 20000 7 (retry_entry 1 50000)
      toy-Ready due_node-tried
