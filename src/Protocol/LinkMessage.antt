-- ===== src/Protocol/LinkMessage.antt =====
-- fips/src/protocol/link.rs: `LinkMessageType`.
use fips_native.Base.{ℕ, ◌≡◌, ◌↔◌, arith, Option, none, some, ◌==◌, if◌then◌else◌}

pub data LinkMessageType : Type 0 where
  session_datagram sender_report receiver_report tree_announce filter_announce lookup_request
        lookup_response disconnect heartbeat :
      LinkMessageType

unfoldable pub to_byte : LinkMessageType → ℕ
to_byte session_datagram = 0x00
to_byte sender_report = 0x01
to_byte receiver_report = 0x02
to_byte tree_announce = 0x10
to_byte filter_announce = 0x20
to_byte lookup_request = 0x30
to_byte lookup_response = 0x31
to_byte disconnect = 0x50
to_byte heartbeat = 0x51

unfoldable pub from_byte : ℕ → Option LinkMessageType
from_byte b =
    if b == 0x00
    then some session_datagram
    else (if b == 0x01
        then some sender_report
        else (if b == 0x02
            then some receiver_report
            else (if b == 0x10
                then some tree_announce
                else (if b == 0x20
                    then some filter_announce
                    else (if b == 0x30
                        then some lookup_request
                        else (if b == 0x31
                            then some lookup_response
                            else (if b == 0x50
                                then some disconnect
                                else (if b == 0x51 then some heartbeat else none))))))))

-- A byte reads as a link message type exactly when it is the byte of that type.
pub link_type_iff : (b : ℕ) (t : LinkMessageType) → (from_byte b ≡ some t) ↔ (to_byte t ≡ b)
unfolding from_byte to_byte
link_type_iff b session_datagram = (λ h. ground arith, λ h. ground arith)
link_type_iff b sender_report = (λ h. ground arith, λ h. ground arith)
link_type_iff b receiver_report = (λ h. ground arith, λ h. ground arith)
link_type_iff b tree_announce = (λ h. ground arith, λ h. ground arith)
link_type_iff b filter_announce = (λ h. ground arith, λ h. ground arith)
link_type_iff b lookup_request = (λ h. ground arith, λ h. ground arith)
link_type_iff b lookup_response = (λ h. ground arith, λ h. ground arith)
link_type_iff b disconnect = (λ h. ground arith, λ h. ground arith)
link_type_iff b heartbeat = (λ h. ground arith, λ h. ground arith)
