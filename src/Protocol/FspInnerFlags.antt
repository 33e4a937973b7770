-- ===== src/Protocol/FspInnerFlags.antt =====
-- fips/src/protocol/session.rs: `FspInnerFlags`.
use Prim.Native.Nat.{bit_and, bit_or}
use fips_native.Base.{ℕ, ◌<◌, ◌≡◌, refl, arith, Bool, true, false, not, ◌==◌, if◌then◌else◌}

pub record FspInnerFlags : Type 0 where
  pub spin_bit : Bool

-- `byte & mask != 0`.
abbrev has : ℕ → ℕ → Bool
has byte mask = not (bit_and byte mask == 0)

-- `flags |= mask` where the flag is set.
abbrev put : Bool → ℕ → ℕ → ℕ
put b mask flags = if b then bit_or flags mask else flags

unfoldable pub to_byte : FspInnerFlags → ℕ
to_byte f = put f.spin_bit 1 0

unfoldable pub from_byte : ℕ → FspInnerFlags
from_byte byte = record { spin_bit = has byte 1 }

fields_read :
    (b0 : Bool)
    → let f : FspInnerFlags = record { spin_bit = b0 } in
      (from_byte (to_byte f) ≡ f) × (to_byte f < 2)
unfolding to_byte from_byte
fields_read true = (refl, omega arith)
fields_read false = (refl, omega arith)

-- A byte of flags reads back as the flags, and uses the 1 lowest bit only.
from_byte-to_byte_fsp_inner_flags :
    (f : FspInnerFlags) → (from_byte (to_byte f) ≡ f) × (to_byte f < 2)
from_byte-to_byte_fsp_inner_flags f = fields_read f.spin_bit
