-- ===== src/Protocol/SessionMessage.antt =====
-- fips/src/protocol/session.rs: `SessionMessageType`.
use fips_native.Base.{ℕ, ◌≡◌, ◌↔◌, arith, Option, none, some, ◌==◌, if◌then◌else◌}

pub data SessionMessageType : Type 0 where
  session_setup session_ack data_packet sender_report receiver_report path_mtu_notification
        coords_warmup coords_required path_broken mtu_exceeded :
      SessionMessageType

unfoldable pub to_byte : SessionMessageType → ℕ
to_byte session_setup = 0x00
to_byte session_ack = 0x01
to_byte data_packet = 0x10
to_byte sender_report = 0x11
to_byte receiver_report = 0x12
to_byte path_mtu_notification = 0x13
to_byte coords_warmup = 0x14
to_byte coords_required = 0x20
to_byte path_broken = 0x21
to_byte mtu_exceeded = 0x22

unfoldable pub from_byte : ℕ → Option SessionMessageType
from_byte b =
    if b == 0x00
    then some session_setup
    else (if b == 0x01
        then some session_ack
        else (if b == 0x10
            then some data_packet
            else (if b == 0x11
                then some sender_report
                else (if b == 0x12
                    then some receiver_report
                    else (if b == 0x13
                        then some path_mtu_notification
                        else (if b == 0x14
                            then some coords_warmup
                            else (if b == 0x20
                                then some coords_required
                                else (if b == 0x21
                                    then some path_broken
                                    else (if b == 0x22 then some mtu_exceeded else none)))))))))

-- A byte reads as a session message type exactly when it is the byte of that type.
pub session_type_iff : (b : ℕ) (t : SessionMessageType) → (from_byte b ≡ some t) ↔ (to_byte t ≡ b)
unfolding from_byte to_byte
session_type_iff b session_setup = (λ h. ground arith, λ h. ground arith)
session_type_iff b session_ack = (λ h. ground arith, λ h. ground arith)
session_type_iff b data_packet = (λ h. ground arith, λ h. ground arith)
session_type_iff b sender_report = (λ h. ground arith, λ h. ground arith)
session_type_iff b receiver_report = (λ h. ground arith, λ h. ground arith)
session_type_iff b path_mtu_notification = (λ h. ground arith, λ h. ground arith)
session_type_iff b coords_warmup = (λ h. ground arith, λ h. ground arith)
session_type_iff b coords_required = (λ h. ground arith, λ h. ground arith)
session_type_iff b path_broken = (λ h. ground arith, λ h. ground arith)
session_type_iff b mtu_exceeded = (λ h. ground arith, λ h. ground arith)
