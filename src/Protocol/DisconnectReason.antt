-- ===== src/Protocol/DisconnectReason.antt =====
-- fips/src/protocol/link.rs: `DisconnectReason`.
use fips_native.Base.{ℕ, ◌≡◌, ◌↔◌, arith, Option, none, some, ◌==◌, if◌then◌else◌}

pub data DisconnectReason : Type 0 where
  shutdown restart protocol_error transport_failure resource_exhaustion security_violation
        configuration_change timeout other :
      DisconnectReason

unfoldable pub to_byte : DisconnectReason → ℕ
to_byte shutdown = 0x00
to_byte restart = 0x01
to_byte protocol_error = 0x02
to_byte transport_failure = 0x03
to_byte resource_exhaustion = 0x04
to_byte security_violation = 0x05
to_byte configuration_change = 0x06
to_byte timeout = 0x07
to_byte other = 0xFF

unfoldable pub from_byte : ℕ → Option DisconnectReason
from_byte b =
    if b == 0x00
    then some shutdown
    else (if b == 0x01
        then some restart
        else (if b == 0x02
            then some protocol_error
            else (if b == 0x03
                then some transport_failure
                else (if b == 0x04
                    then some resource_exhaustion
                    else (if b == 0x05
                        then some security_violation
                        else (if b == 0x06
                            then some configuration_change
                            else (if b == 0x07
                                then some timeout
                                else (if b == 0xFF then some other else none))))))))

-- A byte reads as a disconnect reason exactly when it is the byte of that reason.
pub reason_iff : (b : ℕ) (t : DisconnectReason) → (from_byte b ≡ some t) ↔ (to_byte t ≡ b)
unfolding from_byte to_byte
reason_iff b shutdown = (λ h. ground arith, λ h. ground arith)
reason_iff b restart = (λ h. ground arith, λ h. ground arith)
reason_iff b protocol_error = (λ h. ground arith, λ h. ground arith)
reason_iff b transport_failure = (λ h. ground arith, λ h. ground arith)
reason_iff b resource_exhaustion = (λ h. ground arith, λ h. ground arith)
reason_iff b security_violation = (λ h. ground arith, λ h. ground arith)
reason_iff b configuration_change = (λ h. ground arith, λ h. ground arith)
reason_iff b timeout = (λ h. ground arith, λ h. ground arith)
reason_iff b other = (λ h. ground arith, λ h. ground arith)
