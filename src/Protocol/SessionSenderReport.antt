-- ===== src/Protocol/SessionSenderReport.antt =====
-- fips/src/protocol/session.rs: `SessionSenderReport`.
use fips_native.Base.{
  ℕ, ◌^◌, ◌<◌, ◌≡◌, ◌≢◌, inl, inr, arith, List, [], ◌++◌, refl, ltb, if◌then◌else◌, length, drop,
  le→ltb, Bool-cases, ltb-false→le, replicate,
}
use fips_native.Codec.Bytes.{le_bytes, length_uint, length_addr}
use fips_native.Codec.Reader.{
  message_too_short, Outcome, ok, err, panic, Reader, ◌>>=◌, ◌>>◌, pure, result, bytes, u8, uint,
  rest, bytes_written, uint_written,
}
use fips_native.Codec.Safety.{Safe, bytes-Takes, uint-Takes, pure-Safe, Safe-bind, result-ne-panic}

pub record SessionSenderReport : Type 0 where
  pub interval_start_counter : ℕ
  pub interval_end_counter : ℕ
  pub interval_start_timestamp : ℕ
  pub interval_end_timestamp : ℕ
  pub interval_bytes_sent : ℕ
  pub cumulative_packets_sent : ℕ
  pub cumulative_bytes_sent : ℕ

-- The ranges of the field types.
pub record IsSessionSenderReport (m : SessionSenderReport) : Type 0 where
  pub interval_start_counter : m.interval_start_counter < 256 ^ 8
  pub interval_end_counter : m.interval_end_counter < 256 ^ 8
  pub interval_start_timestamp : m.interval_start_timestamp < 256 ^ 4
  pub interval_end_timestamp : m.interval_end_timestamp < 256 ^ 4
  pub interval_bytes_sent : m.interval_bytes_sent < 256 ^ 4
  pub cumulative_packets_sent : m.cumulative_packets_sent < 256 ^ 8
  pub cumulative_bytes_sent : m.cumulative_bytes_sent < 256 ^ 8

unfoldable pub encode : SessionSenderReport → List ℕ
encode m =
    replicate 2 0
    ++ (le_bytes 8 m.interval_start_counter
        ++ (le_bytes 8 m.interval_end_counter
            ++ (le_bytes 4 m.interval_start_timestamp
                ++ (le_bytes 4 m.interval_end_timestamp
                    ++ (le_bytes 4 m.interval_bytes_sent
                        ++ (le_bytes 8 m.cumulative_packets_sent
                            ++ (le_bytes 8 m.cumulative_bytes_sent ++ [])))))))

body : Reader SessionSenderReport
body = do
  bytes 2
  interval_start_counter ← uint 8
  interval_end_counter ← uint 8
  interval_start_timestamp ← uint 4
  interval_end_timestamp ← uint 4
  interval_bytes_sent ← uint 4
  cumulative_packets_sent ← uint 8
  cumulative_bytes_sent ← uint 8
  pure (record {
    interval_start_counter = interval_start_counter;
    interval_end_counter = interval_end_counter;
    interval_start_timestamp = interval_start_timestamp;
    interval_end_timestamp = interval_end_timestamp;
    interval_bytes_sent = interval_bytes_sent;
    cumulative_packets_sent = cumulative_packets_sent;
    cumulative_bytes_sent = cumulative_bytes_sent;
  })

unfoldable pub decode : List ℕ → Outcome SessionSenderReport
unfolding body
decode payload =
    if ltb (length payload) 46
    then err (message_too_short 46 (length payload))
    else result (body payload)

-- `decode` gives back what `encode` wrote, behind the bytes that the dispatcher strips.
decode-encode_session_sender_report :
    (m : SessionSenderReport) → IsSessionSenderReport m → decode (encode m) ≡ ok m
unfolding decode encode u8 rest
decode-encode_session_sender_report m v =
    rw (le→ltb (length (drop 0 (encode m))) 46 (omega (arith, length_uint, length_addr))) (
      simp (
        ◌>>=◌,
        bytes_written 2 (replicate 2 0) refl,
        uint_written 8 m.interval_start_counter v.interval_start_counter,
        uint_written 8 m.interval_end_counter v.interval_end_counter,
        uint_written 4 m.interval_start_timestamp v.interval_start_timestamp,
        uint_written 4 m.interval_end_timestamp v.interval_end_timestamp,
        uint_written 4 m.interval_bytes_sent v.interval_bytes_sent,
        uint_written 8 m.cumulative_packets_sent v.cumulative_packets_sent,
        uint_written 8 m.cumulative_bytes_sent v.cumulative_bytes_sent,
      ))

body-Safe : Safe 46 body
unfolding body
body-Safe = Safe-bind 2 44 (bytes 2) _ (bytes-Takes 2) λ _.
    Safe-bind 8 36 (uint 8) _ (uint-Takes 8) λ interval_start_counter.
      Safe-bind 8 28 (uint 8) _ (uint-Takes 8) λ interval_end_counter.
        Safe-bind 4 24 (uint 4) _ (uint-Takes 4) λ interval_start_timestamp.
          Safe-bind 4 20 (uint 4) _ (uint-Takes 4) λ interval_end_timestamp.
            Safe-bind 4 16 (uint 4) _ (uint-Takes 4) λ interval_bytes_sent.
              Safe-bind 8 8 (uint 8) _ (uint-Takes 8) λ cumulative_packets_sent.
                Safe-bind 8 0 (uint 8) _ (uint-Takes 8) λ cumulative_bytes_sent. pure-Safe _

-- `decode` panics on no input.
decode_session_sender_report-ne-panic : (p : List ℕ) → decode p ≢ panic
unfolding decode
decode_session_sender_report-ne-panic p = elim (Bool-cases (ltb (length p) 46)) [
  | inl short ↦ rw short (λ e. cc)
  | inr enough ↦
      rw enough
        (result-ne-panic (body p) (body-Safe p (omega (arith, ltb-false→le (length p) 46 enough))))
]
