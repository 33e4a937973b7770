-- ===== src/Tests/Protocol.antt =====
-- Messages with small addresses, and truncated ones.
use fips_native.Base.{
  ℕ, ◌≡◌, refl, arith, List, [], ◌∷◌, true, false, Option, none, some, drop, replicate, length,
  length-replicate,
}
use fips_native.Codec.Reader.{ok, err, invalid_signature}
use fips_native.Codec.Signature.{SignatureApi, IsSignatureApi}
use fips_native.Tree.Coordinate.{TreeCoordinate, addr_only}
use fips_native.Bloom.Filter
use fips_native.Bloom.Filter.Bits.{new-IsBloomFilter}
use fips_native.Protocol.FilterAnnounce
use fips_native.Protocol.FilterAnnounce.{IsV1, decode-encode_filter_announce, decode-IsV1}
use fips_native.Protocol.Coords.{IsWireCoordinate, without_meta}
use fips_native.Protocol.TreeAnnounce
use fips_native.Protocol.TreeAnnounce.{TreeAnnounce}
use fips_native.Protocol.TreeAnnounce.Laws.{decode-encode_tree_announce}
use fips_native.Protocol.Datagram.{SessionDatagram}
use fips_native.Protocol.LookupRequest
use fips_native.Protocol.LookupRequest.{
  LookupRequest, decode-encode_lookup_request, decode_lookup_request-ne-panic,
}
use fips_native.Protocol.LookupResponse.{LookupResponse}
use fips_native.Protocol.SessionSetup
use fips_native.Protocol.SessionSetup.{
  SessionSetup, decode-encode_session_setup, decode_session_setup-ne-panic,
}
use fips_native.Protocol.SessionAck.{SessionAck}
use fips_native.Protocol.SessionMsg3.{SessionMsg3}
use fips_native.Protocol.ReceiverReport.{ReceiverReport}
use fips_native.Protocol.SenderReport.{SenderReport}
use fips_native.Protocol.PathBroken.{PathBroken}

-- Signatures that are numbers, behind which 63 zeros are written.
abbrev toy_signatures : SignatureApi
toy_signatures = record { Signature = ℕ; from_slice = first; as_ref = λ s. s ∷ replicate 63 0 }
  where
    first : List ℕ → Option ℕ
    first [] = none
    first (x ∷ xs) = some x

toy_signatures-IsSignatureApi : IsSignatureApi toy_signatures
toy_signatures-IsSignatureApi = record { length_as_ref = λ s. refl; from_slice-as_ref = λ s. refl }

abbrev path : TreeCoordinate
path = record { first = addr_only 5; rest = addr_only 1 ∷ [] }

path-IsWireCoordinate : IsWireCoordinate path
path-IsWireCoordinate = record { count = omega arith; addrs = (omega arith, (omega arith, tt)) }

abbrev datagram_sample : SessionDatagram
datagram_sample = record {
  src_addr = 5;
  dest_addr = 7;
  ttl = 64;
  path_mtu = 1400;
  payload = 1 ∷ 2 ∷ [];
}

abbrev lookup_request_sample : LookupRequest
lookup_request_sample = record {
  request_id = 99;
  target = 7;
  origin = 5;
  origin_coords = path;
  ttl = 8;
  min_mtu = 0;
}

decode-encode_lookup_request_example :
    LookupRequest.decode (drop 1 (LookupRequest.encode lookup_request_sample))
    ≡ ok (record lookup_request_sample { origin_coords = without_meta path })
decode-encode_lookup_request_example = decode-encode_lookup_request lookup_request_sample (record {
  request_id = omega arith;
  target = omega arith;
  origin = omega arith;
  min_mtu = omega arith;
  coords = path-IsWireCoordinate;
})

abbrev session_setup_sample : SessionSetup
session_setup_sample = record {
  src_coords = path;
  dest_coords = path;
  flags = record { request_ack = true; bidirectional = false };
  handshake_payload = 1 ∷ 2 ∷ [];
}

decode-encode_session_setup_example :
    SessionSetup.decode (drop 4 (SessionSetup.encode session_setup_sample))
    ≡ ok (record session_setup_sample {
      src_coords = without_meta path;
      dest_coords = without_meta path;
    })
decode-encode_session_setup_example =
    decode-encode_session_setup session_setup_sample
      (record { src = path-IsWireCoordinate; dest = path-IsWireCoordinate; payload = omega arith })

abbrev session_ack_sample : SessionAck
session_ack_sample = record {
  src_coords = path;
  dest_coords = path;
  flags = 0;
  handshake_payload = 1 ∷ 2 ∷ [];
}

abbrev session_msg3_sample : SessionMsg3
session_msg3_sample = record { flags = 0; handshake_payload = 1 ∷ 2 ∷ [] }

abbrev sender_report_sample : SenderReport
sender_report_sample = record {
  interval_start_counter = 1;
  interval_end_counter = 2;
  interval_start_timestamp = 3;
  interval_end_timestamp = 4;
  interval_bytes_sent = 5;
  cumulative_packets_sent = 6;
  cumulative_bytes_sent = 7;
}

abbrev receiver_report_sample : ReceiverReport
receiver_report_sample = record {
  highest_counter = 1;
  cumulative_packets_recv = 2;
  cumulative_bytes_recv = 3;
  timestamp_echo = 4;
  dwell_time = 5;
  max_burst_loss = 6;
  mean_burst_loss = 7;
  jitter = 8;
  ecn_ce_count = 9;
  owd_trend = 10;
  burst_loss_count = 11;
  cumulative_reorder_count = 12;
  interval_packets_recv = 13;
  interval_bytes_recv = 14;
}

abbrev lookup_response_sample : LookupResponse ℕ
lookup_response_sample = record {
  request_id = 99;
  target = 7;
  path_mtu = 1400;
  target_coords = path;
  proof = 8;
}

abbrev tree_announce_sample : TreeAnnounce ℕ
tree_announce_sample = record {
  declaration = record {
    node_addr = 5;
    parent_id = 1;
    sequence = 3;
    timestamp = 100;
    signature = some 8;
  };
  ancestry = path;
}

decode-encode_tree_announce_example :
    ((g : ℕ)
      → some 8 ≡ some g
      → (b : List ℕ) × (TreeAnnounce.encode toy_signatures tree_announce_sample ≡ ok b)
        × (TreeAnnounce.decode toy_signatures (drop 1 b) ≡ ok tree_announce_sample))
    × (◌≡◌ {A = Option ℕ} (some 8) none
        → TreeAnnounce.encode toy_signatures tree_announce_sample ≡ err invalid_signature)
decode-encode_tree_announce_example =
    decode-encode_tree_announce toy_signatures toy_signatures-IsSignatureApi tree_announce_sample
      (record {
        declaration = record {
          node = omega arith;
          parent = omega arith;
          sequence = omega arith;
          timestamp = omega arith;
        };
        owner = refl;
        ancestry = (
          record { node_addr = omega arith; sequence = omega arith; timestamp = omega arith },
          (record { node_addr = omega arith; sequence = omega arith; timestamp = omega arith }, tt),
        );
        count = omega arith;
      })

abbrev path_broken_sample : PathBroken
path_broken_sample = record { dest_addr = 5; reporter = 7; last_known_coords = some path }

new_filter-long : length Filter.new.bits ≡ 1024
unfolding Filter.new
new_filter-long = length-replicate {A = ℕ} 1024 0

decode-encode_filter_announce_example :
    (packet : List ℕ) × (FilterAnnounce.encode (FilterAnnounce.new Filter.new 500) ≡ ok packet)
    × (FilterAnnounce.decode (drop 1 packet) ≡ ok (FilterAnnounce.new Filter.new 500))
decode-encode_filter_announce_example =
    decode-encode_filter_announce Filter.new 500 new-IsBloomFilter new_filter-long (omega arith)

announced :
    (packet : List ℕ) × (FilterAnnounce.encode (FilterAnnounce.new Filter.new 700) ≡ ok packet)
    × (FilterAnnounce.decode (drop 1 packet) ≡ ok (FilterAnnounce.new Filter.new 700))
announced =
    decode-encode_filter_announce Filter.new 700 new-IsBloomFilter new_filter-long (omega arith)

decode-IsV1_example : IsV1 (FilterAnnounce.new Filter.new 700)
decode-IsV1_example =
    decode-IsV1 (drop 1 announced.0) (FilterAnnounce.new Filter.new 700) announced.2
