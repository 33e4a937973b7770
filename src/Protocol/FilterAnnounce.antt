-- ===== src/Protocol/FilterAnnounce.antt =====
-- fips/src/protocol/filter.rs: `FilterAnnounce`. `BloomFilter::from_slice` is `from_bytes`.
use fips_native.Base.{
  ℕ, ◌+◌, ◌*◌, ◌%◌, ◌^◌, ◌<◌, ◌≡◌, ◌∙◌, sym, refl, inl, inr, arith, List, ◌∷◌, ◌++◌, Bool, true,
  false, ◌&&◌, ◌==◌, ltb, if◌then◌else◌, length, drop, le→ltb, Bool-cases, length-append,
}
use mathlib.Core.Path.{subst}
use fips_native.Codec.Bytes.{le_bytes, length_uint}
use fips_native.Codec.Reader.{
  message_too_short, malformed, Outcome, ok, err, panic, Reader, ◌>>=◌, pure, u8, uint,
  uint_written,
}
use fips_native.Bloom.Filter.{BloomFilter, BloomResult, from_bytes, v1_size_class}
use fips_native.Bloom.Filter.Bits.{IsBloomFilter}
use fips_native.Protocol.LinkMessage.{to_byte, filter_announce}

pub record FilterAnnounce : Type 0 where
  pub filter : BloomFilter
  pub sequence : ℕ
  pub hash_count : ℕ
  pub size_class : ℕ

abbrev pub with_size_class : BloomFilter → ℕ → ℕ → FilterAnnounce
with_size_class filter sequence size_class = record {
  filter = filter;
  sequence = sequence;
  hash_count = filter.hash_count;
  size_class = size_class;
}

abbrev pub new : BloomFilter → ℕ → FilterAnnounce
new filter sequence = with_size_class filter sequence v1_size_class

-- A shift of a u64 takes its distance modulo 64.
abbrev pub filter_size_bytes : FilterAnnounce → ℕ
filter_size_bytes m = (512 * 2 ^ (m.size_class % 64)) % 2 ^ 64

unfoldable pub is_valid : FilterAnnounce → Bool
is_valid m = (length m.filter.bits == filter_size_bytes m) && (m.filter.hash_count == m.hash_count)

abbrev pub is_v1_compliant : FilterAnnounce → Bool
is_v1_compliant m = m.size_class == v1_size_class

abbrev pub min_payload_size : ℕ
min_payload_size = 10

abbrev pub max_size_class : ℕ
max_size_class = 3

unfoldable pub encode : FilterAnnounce → Outcome (List ℕ)
unfolding is_valid
encode m =
    if is_valid m
    then ok (
        to_byte filter_announce
        ∷ (le_bytes 8 m.sequence ++ (m.hash_count ∷ m.size_class ∷ m.filter.bits)))
    else err (malformed "filter size does not match size_class")

header : Reader (ℕ × ℕ × ℕ)
header = do
  sequence ← uint 8
  hash_count ← u8
  size_class ← u8
  pure (sequence, hash_count, size_class)

unfoldable pub with_filter : ℕ → ℕ → ℕ → BloomResult BloomFilter → Outcome FilterAnnounce
with_filter sequence hash_count size_class (BloomResult.ok filter) = ok (record {
  filter = filter;
  sequence = sequence;
  hash_count = hash_count;
  size_class = size_class;
})
with_filter sequence hash_count size_class (BloomResult.err e) =
    err (malformed "invalid bloom filter: {e}")

-- What `decode` does behind the header, which leaves the bytes `bits` of `total`.
unfoldable pub decode_filter : ℕ → ℕ → ℕ → ℕ → List ℕ → Outcome FilterAnnounce
unfolding with_filter
decode_filter total sequence hash_count size_class bits =
    if ltb max_size_class size_class
    then err (malformed "invalid size_class: {size_class} (max {})")
    else (if size_class == v1_size_class
        then (if length bits == 512 * 2 ^ size_class
            then with_filter sequence hash_count size_class (from_bytes bits hash_count)
            else err (message_too_short (min_payload_size + 512 * 2 ^ size_class) total))
        else err (malformed "unsupported size_class: {size_class} (v1 requires {})"))

unfoldable pub behind_header : ℕ → Outcome ((ℕ × ℕ × ℕ) × List ℕ) → Outcome FilterAnnounce
unfolding decode_filter
behind_header total (ok ((sequence, hash_count, size_class), bits)) =
    decode_filter total sequence hash_count size_class bits
behind_header total (err e) = err e
behind_header total panic = panic

unfoldable pub decode : List ℕ → Outcome FilterAnnounce
unfolding header behind_header
decode payload =
    if ltb (length payload) min_payload_size
    then err (message_too_short min_payload_size (length payload))
    else behind_header (length payload) (header payload)

-- An announcement of this version whose filter the operations of `BloomFilter` take.
pub record IsV1 (m : FilterAnnounce) : Type 0 where
  pub valid : is_valid m ≡ true
  pub v1 : is_v1_compliant m ≡ true
  pub filter : IsBloomFilter m.filter

made-IsV1 :
    (sequence hash_count : ℕ) (bits : List ℕ)
    → 0 < hash_count
    → length bits ≡ 1024
    → IsV1 (record {
      filter = record { bits = bits; num_bits = length bits * 8; hash_count = hash_count };
      sequence = sequence;
      hash_count = hash_count;
      size_class = 1;
    })
unfolding is_valid
made-IsV1 sequence hash_count bits some_ l =
    let same : (hash_count == hash_count) ≡ true = ground arith in
    record {
      valid = rw (l, same) refl;
      v1 = refl;
      filter = record { size = refl; some_bits = omega (arith, l); some_hash = some_ };
    }

from_bytes_lem :
    (bits : List ℕ) (hash_count : ℕ)
    → 0 < hash_count
    → length bits ≡ 1024
    → from_bytes bits hash_count
      ≡ BloomResult.ok (record { bits = bits; num_bits = length bits * 8; hash_count = hash_count })
unfolding from_bytes
from_bytes_lem bits hash_count some_ l =
    let more : (hash_count == 0) ≡ false = ground arith in rw (more, l) refl

header_written :
    (sequence hash_count size_class : ℕ) (bits : List ℕ)
    → sequence < 256 ^ 8
    → header (le_bytes 8 sequence ++ (hash_count ∷ size_class ∷ bits))
      ≡ ok ((sequence, hash_count, size_class), bits)
unfolding header u8
header_written sequence hash_count size_class bits h = simp (◌>>=◌, uint_written 8 sequence h)

-- An announcement of a well-formed filter of 1024 bytes, with a sequence in range, is encoded,
-- and decoded back, less its type byte.
pub decode-encode_filter_announce :
    (f : BloomFilter) (sequence : ℕ)
    → IsBloomFilter f
    → length f.bits ≡ 1024
    → sequence < 256 ^ 8
    → (packet : List ℕ) × (encode (new f sequence) ≡ ok packet)
      × (decode (drop 1 packet) ≡ ok (new f sequence))
unfolding encode is_valid decode header behind_header decode_filter with_filter u8
decode-encode_filter_announce f sequence v l h =
    let payload = le_bytes 8 sequence ++ (f.hash_count ∷ 1 ∷ f.bits) in
    let same : (f.hash_count == f.hash_count) ≡ true = ground arith in
    let long : ltb (length payload) min_payload_size ≡ false = le→ltb (length payload) 10 (
      omega
        (arith, length-append (le_bytes 8 sequence) (f.hash_count ∷ 1 ∷ f.bits), length_uint)) in
    (
      to_byte filter_announce ∷ payload,
      rw (l, same) refl,
      rw
          (
            long,
            header_written sequence f.hash_count 1 f.bits h,
            l,
            from_bytes_lem f.bits f.hash_count v.some_hash l,
            ← v.size,
          )
          refl,
    )

decode_filter-IsV1 :
    (total sequence hash_count size_class : ℕ) (bits : List ℕ) (m : FilterAnnounce)
    → decode_filter total sequence hash_count size_class bits ≡ ok m
    → IsV1 m
unfolding decode_filter with_filter from_bytes
decode_filter-IsV1 total sequence hash_count size_class bits m h =
    elim (Bool-cases (size_class == 1)) [
      | inl one ↦
          let c : size_class ≡ 1 = ground arith in
          elim (Bool-cases (length bits == 1024)) [
            | inl long ↦
                let l : length bits ≡ 1024 = ground arith in
                elim (Bool-cases (hash_count == 0)) [
                  | inl z ↦
                      let k : decode_filter total sequence hash_count size_class bits
                          ≡ err (malformed "invalid bloom filter: {e}") =
                        rw (c, l, z) refl in
                      absurd cc
                  | inr z ↦
                      let some_ : 0 < hash_count = ground arith in
                      let f : BloomFilter = record {
                        bits = bits;
                        num_bits = length bits * 8;
                        hash_count = hash_count;
                      } in
                      let k : decode_filter total sequence hash_count size_class bits
                          ≡ ok (with_size_class f sequence 1) =
                        rw (c, l, z) refl in
                      let e : with_size_class f sequence 1 ≡ m = cc in
                      subst IsV1 e (made-IsV1 sequence hash_count bits some_ l)
                ]
            | inr short ↦
                let k : decode_filter total sequence hash_count size_class bits
                    ≡ err (message_too_short 1034 total) =
                  rw (c, short) refl in
                absurd cc
          ]
      | inr other ↦ elim (Bool-cases (ltb 3 size_class)) [
        | inl over ↦
            let k : decode_filter total sequence hash_count size_class bits
                ≡ err (malformed "invalid size_class: {size_class} (max {})") =
              rw over refl in
            absurd cc
        | inr under ↦
            let k : decode_filter total sequence hash_count size_class bits
                ≡ err (malformed "unsupported size_class: {size_class} (v1 requires {})") =
              rw (under, other) refl in
            absurd cc
      ]
    ]

behind_header-IsV1 :
    (total : ℕ) (o : Outcome ((ℕ × ℕ × ℕ) × List ℕ)) (m : FilterAnnounce)
    → behind_header total o ≡ ok m
    → IsV1 m
unfolding behind_header
behind_header-IsV1 total (ok ((sequence, hash_count, size_class), bits)) m h =
    decode_filter-IsV1 total sequence hash_count size_class bits m h
behind_header-IsV1 total (err e) m h = absurd cc
behind_header-IsV1 total panic m h = absurd cc

-- Whatever bytes a peer sends, an announcement that decode accepts is valid, of this version,
-- and holds a well-formed filter, as the operations on filters need it.
pub decode-IsV1 : (payload : List ℕ) (m : FilterAnnounce) → decode payload ≡ ok m → IsV1 m
unfolding decode
decode-IsV1 payload m h = elim (Bool-cases (ltb (length payload) min_payload_size)) [
  | inl short ↦
      let k : decode payload ≡ err (message_too_short min_payload_size (length payload)) =
        rw short refl in
      absurd cc
  | inr long ↦
      let k : decode payload ≡ behind_header (length payload) (header payload) = rw long refl in
      behind_header-IsV1 (length payload) (header payload) m (sym k ∙ h)
]
