-- ===== src/Config.antt =====
-- fips/src/config: the peers that a node knows and the settings that the modelled parts read.
-- Texts are byte strings; reading the settings from YAML is not modelled.
use fips_native.Base.{ℕ, List, Bool, true, false, Option}

pub data ConnectPolicy : Type 0 where
  auto_connect on_demand manual : ConnectPolicy

pub record PeerAddress : Type 0 where
  pub transport : List ℕ
  pub addr : List ℕ
  pub priority : ℕ

pub record PeerConfig : Type 0 where
  pub npub : List ℕ
  pub alias : Option (List ℕ)
  pub addresses : List PeerAddress
  pub connect_policy : ConnectPolicy
  pub auto_reconnect : Bool

unfoldable pub is_auto_connect : PeerConfig → Bool
is_auto_connect pc = elim pc.connect_policy [ ConnectPolicy.auto_connect ↦ true | _ ↦ false ]

pub record RetryConfig : Type 0 where
  pub max_retries : ℕ
  pub base_interval_secs : ℕ
  pub max_backoff_secs : ℕ
