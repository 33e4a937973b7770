-- ===== src/Noise/Handshake/Messages/Agreement.antt =====
-- fips/src/noise/handshake.rs: both sides of an IK handshake end with sessions that fit together.
use fips_native.Base.{
  ℕ, ◌≡◌, refl, ap, sym, ◌∙◌, arith, List, [], ◌∷◌, ◌++◌, true, none, some, ◌==◌, length, take,
  drop, append_assoc, length-append, length-take, length-drop,
}
use mathlib.Core.Path.{ap₂}
use fips_native.Noise.Session.{NoiseSession, initiator, responder, from_handshake}
use fips_native.Noise.Handshake.{
  CryptoApi, initial, message1_done, complete, protocol_name_ik, SymmetricState, done, initialize,
  mix_hash, mix_key, decrypt_and_hash, split, HandshakeState, normalize_for_premessage,
  new_initiator, new_responder, set_local_epoch, ecdh,
}
use fips_native.Noise.Handshake.Symmetric.{
  IsCryptoApi, ecdh_comm, mix_key-Ready, decrypt-encrypt_and_hash,
}
use fips_native.Noise.Handshake.Messages.Shared.{
  front, back, sized_met, epoch_met, ecdh_parity, Fit,
}
use fips_native.Noise.Handshake.Messages.{
  epoch_written, epoch_read, static_written, static_parsed, static_read, ephemeral_parsed,
  ephemeral_parsed_2, write_message_1, read_message_1, write_message_2, read_message_2,
  into_session,
}

-- A whole handshake: what each side writes the other reads, and the sessions at the end fit.
abbrev pub IkAgreement :
    (api : CryptoApi) (ki kr ei er : api.Keypair) (rs : api.PublicKey) (epoch_i epoch_r : List ℕ)
    → Type 0
IkAgreement api ki kr ei er rs epoch_i epoch_r =
    (m1 : List ℕ) × (m2 : List ℕ) × (i1 : HandshakeState api) × (i2 : HandshakeState api)
    × (r1 : HandshakeState api) × (r2 : HandshakeState api) × (a : NoiseSession api.PublicKey)
    × (b : NoiseSession api.PublicKey) × (write_message_1 api
          (set_local_epoch api (new_initiator api ki rs) epoch_i) ei
        ≡ (done m1, i1))
    × (read_message_1 api (set_local_epoch api (new_responder api kr) epoch_r) m1 ≡ (done tt, r1))
    × (write_message_2 api r1 er ≡ (done m2, r2))
    × (read_message_2 api i1 m2 ≡ (done tt, i2))
    × (into_session api i2 ≡ done a)
    × (into_session api r2 ≡ done b)
    × Fit api a b
    × (a.remote_static ≡ rs)
    × (b.remote_static ≡ api.public_key ki)
    × (i2.remote_epoch ≡ some epoch_r)
    × (r2.remote_epoch ≡ some epoch_i)

module _ (api : CryptoApi) (law : IsCryptoApi api) where
  -- The initiator's state behind message 1, and the responder's.
  abbrev sent_1 :
      api.Keypair → api.PublicKey → api.Keypair → List ℕ → SymmetricState → HandshakeState api
  sent_1 ki rs ei epoch z = record (set_local_epoch api (new_initiator api ki rs) epoch) {
    ephemeral_keypair = some ei;
    symmetric = z;
    progress = message1_done;
  }

  abbrev read_1 :
      api.Keypair
      → api.PublicKey
      → api.PublicKey
      → List ℕ
      → List ℕ
      → SymmetricState
      → HandshakeState api
  read_1 kr re rs epoch theirs z = record (set_local_epoch api (new_responder api kr) epoch) {
    remote_ephemeral = some re;
    remote_static = some rs;
    remote_epoch = some theirs;
    symmetric = z;
    progress = message1_done;
  }

  module _ (ki kr ei er : api.Keypair) (rs : api.PublicKey) (epoch_i epoch_r : List ℕ)
      (known : drop 1 (api.serialize rs) ≡ drop 1 (api.serialize (api.public_key kr)))
      (length_i : length epoch_i ≡ 8) (length_r : length epoch_r ≡ 8) where
    message_1 :
        (m : List ℕ) × (z : SymmetricState) × (write_message_1 api
            (set_local_epoch api (new_initiator api ki rs) epoch_i)
            ei
          ≡ (done m, sent_1 ki rs ei epoch_i z))
        × (read_message_1 api (set_local_epoch api (new_responder api kr) epoch_r) m
            ≡ (done tt, read_1 kr (api.public_key ei) (api.public_key ki) epoch_r epoch_i z))
    unfolding write_message_1 read_message_1 new_initiator new_responder normalize_for_premessage
    message_1 =
        let e_pub = api.serialize (api.public_key ei) in
        let s_pub = api.serialize (api.public_key ki) in
        let y0 = mix_hash api (initialize api protocol_name_ik) (normalize_for_premessage api rs) in
        let premessage : normalize_for_premessage api (api.public_key kr)
            ≡ normalize_for_premessage api rs =
          ap (λ t. 2 ∷ t) (sym known) in
        let y1 = mix_key api (mix_hash api y0 e_pub) (ecdh api ei rs) in
        let (b1, z1, enc1, dec1, len1, moved1) =
          decrypt-encrypt_and_hash api law y1 s_pub
            (mix_key-Ready api law (mix_hash api y0 e_pub) (ecdh api ei rs))
            (omega (arith, law.length_serialize (api.public_key ki))) in
        let y2 = mix_key api z1 (ecdh api ki rs) in
        let (b2, z2, enc2, dec2, len2, moved2) =
          decrypt-encrypt_and_hash api law y2 epoch_i (mix_key-Ready api law z1 (ecdh api ki rs))
            (omega arith) in
        let n : length e_pub ≡ 33 = law.length_serialize (api.public_key ei) in
        let n1 : length b1 ≡ 49 = omega (arith, law.length_serialize (api.public_key ki)) in
        let n2 : length b2 ≡ 24 = omega arith in
        let whole : (length ((e_pub ++ b1) ++ b2) == 106) ≡ true =
          ground (arith, length-append (e_pub ++ b1) b2, length-append e_pub b1, n, n1, n2) in
        let part0 : take 33 ((e_pub ++ b1) ++ b2) ≡ e_pub =
          ap (take 33) (append_assoc e_pub b1 b2) ∙ front 33 e_pub (b1 ++ b2) n in
        let part1 : take 49 (drop 33 ((e_pub ++ b1) ++ b2)) ≡ b1 =
          ap (λ t. take 49 (drop 33 t)) (append_assoc e_pub b1 b2)
          ∙ ap (take 49) (back 33 e_pub (b1 ++ b2) n)
          ∙ front 49 b1 b2 n1 in
        let part2 : drop 82 ((e_pub ++ b1) ++ b2) ≡ b2 =
          back 82 (e_pub ++ b1) b2 (omega (arith, length-append e_pub b1)) in
        let m = (e_pub ++ b1) ++ b2 in
        let i0 = new_initiator api ki rs in
        let parsed : HandshakeState api =
          record (read_1 kr (api.public_key ei) (api.public_key ki) epoch_r epoch_i y2) {
            progress = initial;
            remote_epoch = none;
          } in
        let r0 = set_local_epoch api (new_responder api kr) epoch_r in
        let same1 : mix_key api (mix_hash api r0.symmetric (take 33 m))
              (ecdh api kr (api.public_key ei))
            ≡ y1 =
          ap (λ t. mix_key api (mix_hash api r0.symmetric (take 33 m)) t)
            (ecdh_parity api law ei kr rs known)
          ∙ ap (λ t. mix_key api (mix_hash api r0.symmetric t) (ecdh api ei rs)) part0
          ∙ ap
              (λ t.
                mix_key api (mix_hash api (mix_hash api (initialize api protocol_name_ik) t) e_pub)
                  (ecdh api ei rs))
              premessage in
        (
          (e_pub ++ b1) ++ b2,
          z2,
          ap
                (static_written api
                  (set_local_epoch api (record i0 { ephemeral_keypair = some ei }) epoch_i) rs
                  epoch_i e_pub)
                enc1
              ∙ ap
                  (epoch_written api (record (sent_1 ki rs ei epoch_i y2) { progress = initial })
                    (e_pub ++ b1) message1_done)
                  enc2,
          sized_met api r0 106 _ _ whole
              ∙ ap (ephemeral_parsed api r0 m)
                  (ap api.from_slice part0 ∙ law.from_slice-serialize (api.public_key ei))
              ∙ ap (static_read api (record r0 { remote_ephemeral = some (api.public_key ei) }) m)
                  (ap₂ (decrypt_and_hash api) same1 part1 ∙ dec1)
              ∙ ap
                  (static_parsed api (record r0 { remote_ephemeral = some (api.public_key ei) }) m
                    z1)
                  (law.from_slice-serialize (api.public_key ki))
              ∙ ap (epoch_read api parsed message1_done) (
                  ap₂ (decrypt_and_hash api)
                    (ap (mix_key api z1) (ecdh_parity api law ki kr rs known)) part2
                  ∙ dec2)
              ∙ epoch_met api parsed message1_done epoch_i z2 length_i,
        )

    -- The initiator's state behind message 2, and the responder's.
    abbrev read_2 : SymmetricState → SymmetricState → HandshakeState api
    read_2 z w = record (sent_1 ki rs ei epoch_i z) {
      remote_ephemeral = some (api.public_key er);
      remote_epoch = some epoch_r;
      symmetric = w;
      progress = complete;
    }

    abbrev sent_2 : SymmetricState → SymmetricState → HandshakeState api
    sent_2 z w = record (read_1 kr (api.public_key ei) (api.public_key ki) epoch_r epoch_i z) {
      ephemeral_keypair = some er;
      symmetric = w;
      progress = complete;
    }

    message_2 :
        (z : SymmetricState)
        → (m : List ℕ) × (w : SymmetricState) × (write_message_2 api
              (read_1 kr (api.public_key ei) (api.public_key ki) epoch_r epoch_i z)
              er
            ≡ (done m, sent_2 z w))
          × (read_message_2 api (sent_1 ki rs ei epoch_i z) m ≡ (done tt, read_2 z w))
    unfolding write_message_2 read_message_2 new_initiator new_responder
    message_2 z =
        let e_pub = api.serialize (api.public_key er) in
        let i1 = sent_1 ki rs ei epoch_i z in
        let y3 = mix_key api (mix_hash api z e_pub) (ecdh api er (api.public_key ei)) in
        let y4 = mix_key api y3 (ecdh api kr (api.public_key ei)) in
        let (b, w, enc, dec, len, moved) =
          decrypt-encrypt_and_hash api law y4 epoch_r
            (mix_key-Ready api law y3 (ecdh api kr (api.public_key ei))) (omega arith) in
        let n : length e_pub ≡ 33 = law.length_serialize (api.public_key er) in
        let whole : (length (e_pub ++ b) == 57) ≡ true =
          ground (arith, length-append e_pub b, n, len, length_r) in
        let part0 = front 33 e_pub b n in
        let part1 = back 33 e_pub b n in
        let m = e_pub ++ b in
        let parsed : HandshakeState api = record (read_2 z y4) {
          progress = message1_done;
          remote_epoch = none;
        } in
        let same : mix_key api
              (mix_key api (mix_hash api z (take 33 m)) (ecdh api ei (api.public_key er)))
              (ecdh api ei rs)
            ≡ y4 =
          ap
            (λ t.
              mix_key api (mix_key api (mix_hash api z t) (ecdh api ei (api.public_key er)))
                (ecdh api ei rs))
            part0
          ∙ ap (λ t. mix_key api (mix_key api (mix_hash api z e_pub) t) (ecdh api ei rs))
              (ecdh_comm api law ei er)
          ∙ ap (mix_key api y3) (sym (ecdh_parity api law ei kr rs known)) in
        (
          m,
          w,
          ap (epoch_written api (record (sent_2 z y4) { progress = message1_done }) e_pub complete)
              enc,
          sized_met api i1 57 _ _ whole
              ∙ ap (ephemeral_parsed_2 api i1 m)
                  (ap api.from_slice part0 ∙ law.from_slice-serialize (api.public_key er))
              ∙ ap (epoch_read api parsed complete) (ap₂ (decrypt_and_hash api) same part1 ∙ dec)
              ∙ epoch_met api parsed complete epoch_r w length_r,
        )

    -- An IK handshake of honest sides with epochs of 8 bytes, whose initiator knows the
    -- responder's key but for its parity, goes through: each message that one side writes the
    -- other reads, and at the end both have sessions with the same hash, each sending with the
    -- cipher that the other receives with, under keys of 32 bytes, and each has the other's
    -- static key and epoch.
    pub ik_agreement : IkAgreement api ki kr ei er rs epoch_i epoch_r
    unfolding new_initiator new_responder into_session split from_handshake
    ik_agreement =
        let (m1, z, w1, d1) = message_1 in
        let (m2, w, w2, d2) = message_2 z in
        let (c1, c2) = split api w in
        let size = law.length_hkdf w.ck [] in
        (
          m1,
          m2,
          sent_1 ki rs ei epoch_i z,
          read_2 z w,
          read_1 kr (api.public_key ei) (api.public_key ki) epoch_r epoch_i z,
          sent_2 z w,
          from_handshake initiator c1 c2 w.h rs,
          from_handshake responder c2 c1 w.h (api.public_key ki),
          w1,
          d1,
          w2,
          d2,
          refl,
          refl,
          record {
            sends = refl;
            receives = refl;
            long = omega (arith, length-take 32 (api.hkdf w.ck []), size);
            long_back = omega (arith, length-drop 32 (api.hkdf w.ck []), size);
            same_hash = refl;
          },
          refl,
          refl,
          refl,
          refl,
        )
