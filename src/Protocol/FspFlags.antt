-- ===== src/Protocol/FspFlags.antt =====
-- fips/src/protocol/session.rs: `FspFlags`.
use Prim.Native.Nat.{bit_and, bit_or}
use fips_native.Base.{ℕ, ◌<◌, ◌≡◌, refl, arith, Bool, true, false, not, ◌==◌, if◌then◌else◌}

pub record FspFlags : Type 0 where
  pub coords_present : Bool
  pub key_epoch : Bool
  pub unencrypted : Bool

-- `byte & mask != 0`.
abbrev has : ℕ → ℕ → Bool
has byte mask = not (bit_and byte mask == 0)

-- `flags |= mask` where the flag is set.
abbrev put : Bool → ℕ → ℕ → ℕ
put b mask flags = if b then bit_or flags mask else flags

unfoldable pub to_byte : FspFlags → ℕ
to_byte f = put f.unencrypted 4 (put f.key_epoch 2 (put f.coords_present 1 0))

unfoldable pub from_byte : ℕ → FspFlags
from_byte byte = record {
  coords_present = has byte 1;
  key_epoch = has byte 2;
  unencrypted = has byte 4;
}

fields_read :
    (b0 b1 b2 : Bool)
    → let f : FspFlags = record { coords_present = b0; key_epoch = b1; unencrypted = b2 } in
      (from_byte (to_byte f) ≡ f) × (to_byte f < 8)
unfolding to_byte from_byte
fields_read true true true = (refl, omega arith)
fields_read true true false = (refl, omega arith)
fields_read true false true = (refl, omega arith)
fields_read true false false = (refl, omega arith)
fields_read false true true = (refl, omega arith)
fields_read false true false = (refl, omega arith)
fields_read false false true = (refl, omega arith)
fields_read false false false = (refl, omega arith)

-- A byte of flags reads back as the flags, and uses the 3 lowest bits only.
from_byte-to_byte_fsp_flags : (f : FspFlags) → (from_byte (to_byte f) ≡ f) × (to_byte f < 8)
from_byte-to_byte_fsp_flags f = fields_read f.coords_present f.key_epoch f.unencrypted
