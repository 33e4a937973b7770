-- ===== src/Protocol/SessionFlags.antt =====
-- fips/src/protocol/session.rs: `SessionFlags`.
use Prim.Native.Nat.{bit_and, bit_or}
use fips_native.Base.{ℕ, ◌<◌, ◌≡◌, refl, arith, Bool, true, false, not, ◌==◌, if◌then◌else◌}

pub record SessionFlags : Type 0 where
  pub request_ack : Bool
  pub bidirectional : Bool

-- `byte & mask != 0`.
abbrev has : ℕ → ℕ → Bool
has byte mask = not (bit_and byte mask == 0)

-- `flags |= mask` where the flag is set.
abbrev put : Bool → ℕ → ℕ → ℕ
put b mask flags = if b then bit_or flags mask else flags

unfoldable pub to_byte : SessionFlags → ℕ
to_byte f = put f.bidirectional 2 (put f.request_ack 1 0)

unfoldable pub from_byte : ℕ → SessionFlags
from_byte byte = record { request_ack = has byte 1; bidirectional = has byte 2 }

fields_read :
    (b0 b1 : Bool)
    → let f : SessionFlags = record { request_ack = b0; bidirectional = b1 } in
      (from_byte (to_byte f) ≡ f) × (to_byte f < 4)
unfolding to_byte from_byte
fields_read true true = (refl, omega arith)
fields_read true false = (refl, omega arith)
fields_read false true = (refl, omega arith)
fields_read false false = (refl, omega arith)

-- A byte of flags reads back as the flags, and uses the 2 lowest bits only.
pub from_byte-to_byte_session_flags :
    (f : SessionFlags) → (from_byte (to_byte f) ≡ f) × (to_byte f < 4)
from_byte-to_byte_session_flags f = fields_read f.request_ack f.bidirectional
