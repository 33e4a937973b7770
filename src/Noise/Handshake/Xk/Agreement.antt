-- ===== src/Noise/Handshake/Xk/Agreement.antt =====
-- fips/src/noise/handshake.rs: both sides of an XK handshake end with sessions that fit together.
use mathlib.Core.Path.{ap₂}
use fips_native.Base.{
  ℕ, ◌≡◌, refl, ap, sym, ◌∙◌, arith, List, [], ◌∷◌, ◌++◌, true, none, some, ◌==◌, length, take,
  drop, append-nil, length-append, length-take, length-drop,
}
use fips_native.Noise.Session.{NoiseSession, initiator, responder, from_handshake}
use fips_native.Noise.Handshake.{
  CryptoApi, message1_done, message2_done, complete, protocol_name_xk, SymmetricState, done,
  initialize, mix_hash, mix_key, decrypt_and_hash, split, HandshakeState, normalize_for_premessage,
  new_xk_initiator, new_xk_responder, set_local_epoch, ecdh,
}
use fips_native.Noise.Handshake.Symmetric.{
  IsCryptoApi, Ready, ecdh_comm, mix_key-Ready, mix_key_next-Ready, decrypt-encrypt_and_hash,
}
use fips_native.Noise.Handshake.Messages.{epoch_written, epoch_read, into_session}
use fips_native.Noise.Handshake.Messages.Shared.{
  front, back, sized_met, epoch_met, ecdh_parity, Fit,
}
use fips_native.Noise.Handshake.Xk.{
  ephemeral_parsed, ephemeral_parsed_2, static_written, static_parsed, static_read,
  write_xk_message_1, read_xk_message_1, write_xk_message_2, read_xk_message_2, write_xk_message_3,
  read_xk_message_3,
}

-- A whole handshake: what each side writes the other reads, and the sessions at the end fit.
abbrev pub XkAgreement :
    (api : CryptoApi) (ki kr ei er : api.Keypair) (rs : api.PublicKey) (epoch_i epoch_r : List ℕ)
    → Type 0
XkAgreement api ki kr ei er rs epoch_i epoch_r =
    (m1 : List ℕ) × (m2 : List ℕ) × (m3 : List ℕ) × (i1 : HandshakeState api) × (i2 : HandshakeState
      api)
    × (i3 : HandshakeState api) × (r1 : HandshakeState api) × (r2 : HandshakeState api)
    × (r3 : HandshakeState api) × (a : NoiseSession api.PublicKey) × (b : NoiseSession
        api.PublicKey)
    × (write_xk_message_1 api (set_local_epoch api (new_xk_initiator api ki rs) epoch_i) ei
        ≡ (done m1, i1))
    × (read_xk_message_1 api (set_local_epoch api (new_xk_responder api kr) epoch_r) m1
        ≡ (done tt, r1))
    × (write_xk_message_2 api r1 er ≡ (done m2, r2))
    × (read_xk_message_2 api i1 m2 ≡ (done tt, i2))
    × (write_xk_message_3 api i2 ≡ (done m3, i3))
    × (read_xk_message_3 api r2 m3 ≡ (done tt, r3))
    × (into_session api i3 ≡ done a)
    × (into_session api r3 ≡ done b)
    × Fit api a b
    × (a.remote_static ≡ rs)
    × (b.remote_static ≡ api.public_key ki)
    × (i3.remote_epoch ≡ some epoch_r)
    × (r3.remote_epoch ≡ some epoch_i)

module _ (api : CryptoApi) (law : IsCryptoApi api) where
  module _ (ki kr ei er : api.Keypair) (rs : api.PublicKey) (epoch_i epoch_r : List ℕ)
      (known : drop 1 (api.serialize rs) ≡ drop 1 (api.serialize (api.public_key kr)))
      (length_i : length epoch_i ≡ 8) (length_r : length epoch_r ≡ 8) where
    -- The states behind each message.
    abbrev fresh_i : HandshakeState api
    fresh_i = set_local_epoch api (new_xk_initiator api ki rs) epoch_i

    abbrev fresh_r : HandshakeState api
    fresh_r = set_local_epoch api (new_xk_responder api kr) epoch_r

    abbrev first : SymmetricState
    first =
        mix_key api
          (mix_hash api
            (mix_hash api (initialize api protocol_name_xk) (normalize_for_premessage api rs))
            (api.serialize (api.public_key ei)))
          (ecdh api ei rs)

    abbrev sent_1 : HandshakeState api
    sent_1 = record fresh_i {
      ephemeral_keypair = some ei;
      symmetric = first;
      progress = message1_done;
    }

    abbrev read_1 : HandshakeState api
    read_1 = record fresh_r {
      remote_ephemeral = some (api.public_key ei);
      symmetric = first;
      progress = message1_done;
    }

    abbrev sent_2 : SymmetricState → HandshakeState api
    sent_2 z = record read_1 {
      ephemeral_keypair = some er;
      symmetric = z;
      progress = message2_done;
    }

    abbrev read_2 : SymmetricState → HandshakeState api
    read_2 z = record sent_1 {
      remote_ephemeral = some (api.public_key er);
      remote_epoch = some epoch_r;
      symmetric = z;
      progress = message2_done;
    }

    abbrev sent_3 : SymmetricState → SymmetricState → HandshakeState api
    sent_3 z w = record (read_2 z) { symmetric = w; progress = complete }

    abbrev read_3 : SymmetricState → SymmetricState → HandshakeState api
    read_3 z w = record (sent_2 z) {
      remote_static = some (api.public_key ki);
      remote_epoch = some epoch_i;
      symmetric = w;
      progress = complete;
    }

    message_1 :
        (write_xk_message_1 api fresh_i ei ≡ (done (api.serialize (api.public_key ei)), sent_1))
        × (read_xk_message_1 api fresh_r (api.serialize (api.public_key ei)) ≡ (done tt, read_1))
    unfolding write_xk_message_1 read_xk_message_1 new_xk_initiator new_xk_responder
        normalize_for_premessage
    message_1 =
        let e_pub = api.serialize (api.public_key ei) in
        let n : length e_pub ≡ 33 = law.length_serialize (api.public_key ei) in
        let whole : (length e_pub == 33) ≡ true = ground (arith, n) in
        let part : take 33 e_pub ≡ e_pub =
          ap (take 33) (sym (append-nil e_pub)) ∙ front 33 e_pub [] n in
        let same : mix_key api (mix_hash api fresh_r.symmetric (take 33 e_pub))
              (ecdh api kr (api.public_key ei))
            ≡ first =
          ap (λ t. mix_key api (mix_hash api fresh_r.symmetric (take 33 e_pub)) t)
            (ecdh_parity api law ei kr rs known)
          ∙ ap (λ t. mix_key api (mix_hash api fresh_r.symmetric t) (ecdh api ei rs)) part
          ∙ ap
              (λ t.
                mix_key api
                  (mix_hash api (mix_hash api (initialize api protocol_name_xk) (2 ∷ t)) e_pub)
                  (ecdh api ei rs))
              (sym known) in
        (
          refl,
          sized_met api fresh_r 33 _ _ whole
              ∙ ap (ephemeral_parsed api fresh_r e_pub)
                  (ap api.from_slice part ∙ law.from_slice-serialize (api.public_key ei))
              ∙ ap (λ y. (done tt, record read_1 { symmetric = y })) same,
        )

    message_2 :
        (m : List ℕ) × (z : SymmetricState) × (write_xk_message_2 api read_1 er
          ≡ (done m, sent_2 z))
        × (read_xk_message_2 api sent_1 m ≡ (done tt, read_2 z))
        × Ready z.cipher
    unfolding write_xk_message_2 read_xk_message_2 new_xk_initiator new_xk_responder
    message_2 =
        let e_pub = api.serialize (api.public_key er) in
        let h = mix_hash api first e_pub in
        let y = mix_key api h (ecdh api er (api.public_key ei)) in
        let (b, z, enc, dec, len, moved) =
          decrypt-encrypt_and_hash api law y epoch_r
            (mix_key-Ready api law h (ecdh api er (api.public_key ei))) (omega arith) in
        let n : length e_pub ≡ 33 = law.length_serialize (api.public_key er) in
        let whole : (length (e_pub ++ b) == 57) ≡ true =
          ground (arith, length-append e_pub b, n, len, length_r) in
        let part0 = front 33 e_pub b n in
        let part1 = back 33 e_pub b n in
        let m = e_pub ++ b in
        let parsed : HandshakeState api = record (read_2 y) {
          progress = message1_done;
          remote_epoch = none;
        } in
        let same : mix_key api (mix_hash api first (take 33 m)) (ecdh api ei (api.public_key er))
            ≡ y =
          ap (λ t. mix_key api (mix_hash api first t) (ecdh api ei (api.public_key er))) part0
          ∙ ap (mix_key api h) (ecdh_comm api law ei er) in
        (
          m,
          z,
          ap
              (epoch_written api (record (sent_2 y) { progress = message1_done }) e_pub
                message2_done)
              enc,
          sized_met api sent_1 57 _ _ whole
              ∙ ap (ephemeral_parsed_2 api sent_1 m)
                  (ap api.from_slice part0 ∙ law.from_slice-serialize (api.public_key er))
              ∙ ap (epoch_read api parsed message2_done)
                  (ap₂ (decrypt_and_hash api) same part1 ∙ dec)
              ∙ epoch_met api parsed message2_done epoch_r z length_r,
          mix_key_next-Ready api law h (ecdh api er (api.public_key ei)) z.cipher moved,
        )

    message_3 :
        (z : SymmetricState)
        → Ready z.cipher
        → (m : List ℕ) × (w : SymmetricState) × (write_xk_message_3 api (read_2 z)
            ≡ (done m, sent_3 z w))
          × (read_xk_message_3 api (sent_2 z) m ≡ (done tt, read_3 z w))
    unfolding write_xk_message_3 read_xk_message_3 new_xk_initiator new_xk_responder
    message_3 z ready =
        let s_pub = api.serialize (api.public_key ki) in
        let n : length s_pub ≡ 33 = law.length_serialize (api.public_key ki) in
        let (b1, z1, enc1, dec1, len1, moved1) =
          decrypt-encrypt_and_hash api law z s_pub ready (omega (arith, n)) in
        let y = mix_key api z1 (ecdh api ki (api.public_key er)) in
        let (b2, w, enc2, dec2, len2, moved2) =
          decrypt-encrypt_and_hash api law y epoch_i
            (mix_key-Ready api law z1 (ecdh api ki (api.public_key er))) (omega arith) in
        let n1 : length b1 ≡ 49 = omega (arith, n, len1) in
        let whole : (length (b1 ++ b2) == 73) ≡ true =
          ground (arith, length-append b1 b2, n1, len2, length_i) in
        let part0 = front 49 b1 b2 n1 in
        let part1 = back 49 b1 b2 n1 in
        let m = b1 ++ b2 in
        let parsed : HandshakeState api = record (read_3 z y) {
          progress = message2_done;
          remote_epoch = none;
        } in
        (
          m,
          w,
          ap (static_written api (read_2 z) (api.public_key er) epoch_i) enc1
              ∙ ap (epoch_written api (record (read_2 z) { symmetric = y }) b1 complete) enc2,
          sized_met api (sent_2 z) 73 _ _ whole
              ∙ ap (static_read api (sent_2 z) m) (ap (decrypt_and_hash api z) part0 ∙ dec1)
              ∙ ap (static_parsed api (sent_2 z) m z1)
                  (law.from_slice-serialize (api.public_key ki))
              ∙ ap (epoch_read api parsed complete) (
                  ap₂ (decrypt_and_hash api) (ap (mix_key api z1) (ecdh_comm api law er ki)) part1
                  ∙ dec2)
              ∙ epoch_met api parsed complete epoch_i w length_i,
        )

    -- An XK handshake of honest sides with epochs of 8 bytes, whose initiator knows the
    -- responder's key but for its parity, goes through: each of the three messages that one side
    -- writes the other reads, and at the end both have sessions with the same hash, each sending
    -- with the cipher that the other receives with, under keys of 32 bytes, and each has the
    -- other's static key and epoch.
    pub xk_agreement : XkAgreement api ki kr ei er rs epoch_i epoch_r
    unfolding new_xk_initiator new_xk_responder into_session split from_handshake
    xk_agreement =
        let (w1, d1) = message_1 in
        let (m2, z, w2, d2, ready) = message_2 in
        let (m3, w, w3, d3) = message_3 z ready in
        let (c1, c2) = split api w in
        let size = law.length_hkdf w.ck [] in
        (
          api.serialize (api.public_key ei),
          m2,
          m3,
          sent_1,
          read_2 z,
          sent_3 z w,
          read_1,
          sent_2 z,
          read_3 z w,
          from_handshake initiator c1 c2 w.h rs,
          from_handshake responder c2 c1 w.h (api.public_key ki),
          w1,
          d1,
          w2,
          d2,
          w3,
          d3,
          refl,
          refl,
          record {
            sends = refl;
            receives = refl;
            long = omega (arith, length-take 32 (api.hkdf w.ck []), size);
            long_back = omega (arith, length-drop 32 (api.hkdf w.ck []), size);
            same_hash = refl;
          },
          refl,
          refl,
          refl,
          refl,
        )
