-- ===== src/Protocol/ReceiverReport.antt =====
-- fips/src/mmp/report.rs: the link-layer `ReceiverReport`.
-- `owd_trend`, an i32, is its bit pattern.
use fips_native.Base.{
  ℕ, ◌^◌, ◌<◌, ◌≡◌, ◌≢◌, inl, inr, arith, List, [], ◌∷◌, ◌++◌, refl, ltb, if◌then◌else◌, length,
  drop, le→ltb, Bool-cases, ltb-false→le, replicate,
}
use fips_native.Codec.Bytes.{le_bytes, length_uint, length_addr}
use fips_native.Codec.Reader.{
  message_too_short, Outcome, ok, err, panic, Reader, ◌>>=◌, ◌>>◌, pure, result, bytes, u8, uint,
  rest, bytes_written, uint_written,
}
use fips_native.Codec.Safety.{Safe, bytes-Takes, uint-Takes, pure-Safe, Safe-bind, result-ne-panic}

pub record ReceiverReport : Type 0 where
  pub highest_counter : ℕ
  pub cumulative_packets_recv : ℕ
  pub cumulative_bytes_recv : ℕ
  pub timestamp_echo : ℕ
  pub dwell_time : ℕ
  pub max_burst_loss : ℕ
  pub mean_burst_loss : ℕ
  pub jitter : ℕ
  pub ecn_ce_count : ℕ
  pub owd_trend : ℕ
  pub burst_loss_count : ℕ
  pub cumulative_reorder_count : ℕ
  pub interval_packets_recv : ℕ
  pub interval_bytes_recv : ℕ

-- The ranges of the field types.
pub record IsReceiverReport (m : ReceiverReport) : Type 0 where
  pub highest_counter : m.highest_counter < 256 ^ 8
  pub cumulative_packets_recv : m.cumulative_packets_recv < 256 ^ 8
  pub cumulative_bytes_recv : m.cumulative_bytes_recv < 256 ^ 8
  pub timestamp_echo : m.timestamp_echo < 256 ^ 4
  pub dwell_time : m.dwell_time < 256 ^ 2
  pub max_burst_loss : m.max_burst_loss < 256 ^ 2
  pub mean_burst_loss : m.mean_burst_loss < 256 ^ 2
  pub jitter : m.jitter < 256 ^ 4
  pub ecn_ce_count : m.ecn_ce_count < 256 ^ 4
  pub owd_trend : m.owd_trend < 256 ^ 4
  pub burst_loss_count : m.burst_loss_count < 256 ^ 4
  pub cumulative_reorder_count : m.cumulative_reorder_count < 256 ^ 4
  pub interval_packets_recv : m.interval_packets_recv < 256 ^ 4
  pub interval_bytes_recv : m.interval_bytes_recv < 256 ^ 4

unfoldable pub encode : ReceiverReport → List ℕ
encode m =
    0x02
    ∷ (replicate 3 0
        ++ (le_bytes 8 m.highest_counter
            ++ (le_bytes 8 m.cumulative_packets_recv
                ++ (le_bytes 8 m.cumulative_bytes_recv
                    ++ (le_bytes 4 m.timestamp_echo
                        ++ (le_bytes 2 m.dwell_time
                            ++ (le_bytes 2 m.max_burst_loss
                                ++ (le_bytes 2 m.mean_burst_loss
                                    ++ (replicate 2 0
                                        ++ (le_bytes 4 m.jitter
                                            ++ (le_bytes 4 m.ecn_ce_count
                                                ++ (le_bytes 4 m.owd_trend
                                                    ++ (le_bytes 4 m.burst_loss_count
                                                        ++ (le_bytes 4 m.cumulative_reorder_count
                                                            ++ (le_bytes 4 m.interval_packets_recv
                                                            ++ (le_bytes 4 m.interval_bytes_recv
                                                            ++ []))))))))))))))))

body : Reader ReceiverReport
body = do
  bytes 3
  highest_counter ← uint 8
  cumulative_packets_recv ← uint 8
  cumulative_bytes_recv ← uint 8
  timestamp_echo ← uint 4
  dwell_time ← uint 2
  max_burst_loss ← uint 2
  mean_burst_loss ← uint 2
  bytes 2
  jitter ← uint 4
  ecn_ce_count ← uint 4
  owd_trend ← uint 4
  burst_loss_count ← uint 4
  cumulative_reorder_count ← uint 4
  interval_packets_recv ← uint 4
  interval_bytes_recv ← uint 4
  pure (record {
    highest_counter = highest_counter;
    cumulative_packets_recv = cumulative_packets_recv;
    cumulative_bytes_recv = cumulative_bytes_recv;
    timestamp_echo = timestamp_echo;
    dwell_time = dwell_time;
    max_burst_loss = max_burst_loss;
    mean_burst_loss = mean_burst_loss;
    jitter = jitter;
    ecn_ce_count = ecn_ce_count;
    owd_trend = owd_trend;
    burst_loss_count = burst_loss_count;
    cumulative_reorder_count = cumulative_reorder_count;
    interval_packets_recv = interval_packets_recv;
    interval_bytes_recv = interval_bytes_recv;
  })

unfoldable pub decode : List ℕ → Outcome ReceiverReport
unfolding body
decode payload =
    if ltb (length payload) 67
    then err (message_too_short 67 (length payload))
    else result (body payload)

-- A receiver report with fields in range is decoded back, less its type byte.
pub decode-encode_receiver_report :
    (m : ReceiverReport) → IsReceiverReport m → decode (drop 1 (encode m)) ≡ ok m
unfolding decode encode u8 rest
decode-encode_receiver_report m v =
    rw (le→ltb (length (drop 1 (encode m))) 67 (omega (arith, length_uint, length_addr))) (
      simp (
        ◌>>=◌,
        bytes_written 3 (replicate 3 0) refl,
        uint_written 8 m.highest_counter v.highest_counter,
        uint_written 8 m.cumulative_packets_recv v.cumulative_packets_recv,
        uint_written 8 m.cumulative_bytes_recv v.cumulative_bytes_recv,
        uint_written 4 m.timestamp_echo v.timestamp_echo,
        uint_written 2 m.dwell_time v.dwell_time,
        uint_written 2 m.max_burst_loss v.max_burst_loss,
        uint_written 2 m.mean_burst_loss v.mean_burst_loss,
        bytes_written 2 (replicate 2 0) refl,
        uint_written 4 m.jitter v.jitter,
        uint_written 4 m.ecn_ce_count v.ecn_ce_count,
        uint_written 4 m.owd_trend v.owd_trend,
        uint_written 4 m.burst_loss_count v.burst_loss_count,
        uint_written 4 m.cumulative_reorder_count v.cumulative_reorder_count,
        uint_written 4 m.interval_packets_recv v.interval_packets_recv,
        uint_written 4 m.interval_bytes_recv v.interval_bytes_recv,
      ))

body-Safe : Safe 67 body
unfolding body
body-Safe = Safe-bind 3 64 (bytes 3) _ (bytes-Takes 3) λ _.
    Safe-bind 8 56 (uint 8) _ (uint-Takes 8) λ highest_counter.
      Safe-bind 8 48 (uint 8) _ (uint-Takes 8) λ cumulative_packets_recv.
        Safe-bind 8 40 (uint 8) _ (uint-Takes 8) λ cumulative_bytes_recv.
          Safe-bind 4 36 (uint 4) _ (uint-Takes 4) λ timestamp_echo.
            Safe-bind 2 34 (uint 2) _ (uint-Takes 2) λ dwell_time.
              Safe-bind 2 32 (uint 2) _ (uint-Takes 2) λ max_burst_loss.
                Safe-bind 2 30 (uint 2) _ (uint-Takes 2) λ mean_burst_loss.
                  Safe-bind 2 28 (bytes 2) _ (bytes-Takes 2) λ _.
                    Safe-bind 4 24 (uint 4) _ (uint-Takes 4) λ jitter.
                      Safe-bind 4 20 (uint 4) _ (uint-Takes 4) λ ecn_ce_count.
                        Safe-bind 4 16 (uint 4) _ (uint-Takes 4) λ owd_trend.
                          Safe-bind 4 12 (uint 4) _ (uint-Takes 4) λ burst_loss_count.
                            Safe-bind 4 8 (uint 4) _ (uint-Takes 4) λ cumulative_reorder_count.
                              Safe-bind 4 4 (uint 4) _ (uint-Takes 4) λ interval_packets_recv.
                                Safe-bind 4 0 (uint 4) _ (uint-Takes 4)
                                  λ interval_bytes_recv. pure-Safe _

-- `decode` panics on no input.
decode_receiver_report-ne-panic : (p : List ℕ) → decode p ≢ panic
unfolding decode
decode_receiver_report-ne-panic p = elim (Bool-cases (ltb (length p) 67)) [
  | inl short ↦ rw short (λ e. cc)
  | inr enough ↦
      rw enough
        (result-ne-panic (body p) (body-Safe p (omega (arith, ltb-false→le (length p) 67 enough))))
]
