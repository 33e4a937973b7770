-- ===== src/Noise/Handshake/Xk.antt =====
-- fips/src/noise/handshake.rs: the three messages of the pattern XK.
pub mod Agreement
use fips_native.Base.{ℕ, ◌+◌, List, [], ◌∷◌, ◌++◌, Option, none, some, take, drop}
use fips_native.Noise.Cipher.{NoiseResult, ok, err, invalid_public_key}
use fips_native.Noise.Session.{initiator, responder}
use fips_native.Noise.Handshake.{
  CryptoApi, initial, message1_done, message2_done, complete, SymmetricState, done, fails, panic,
  mix_hash, mix_key, encrypt_and_hash, decrypt_and_hash, HandshakeState, ecdh,
}
use fips_native.Noise.Handshake.Messages.{Step, checked, sized, write_epoch, read_epoch}

module _ (api : CryptoApi) where
  unfoldable pub write_xk_message_1 : HandshakeState api → api.Keypair → Step api (List ℕ)
  write_xk_message_1 s e = checked api s initiator initial (elim s.remote_static [
    | none ↦ (panic, s)
    | some rs ↦
        let e_pub = api.serialize (api.public_key e) in
        (
          done e_pub,
          record s {
            ephemeral_keypair = some e;
            symmetric = mix_key api (mix_hash api s.symmetric e_pub) (ecdh api e rs);
            progress = message1_done;
          },
        )
  ])

  abbrev pub ephemeral_parsed :
      HandshakeState api → List ℕ → Option api.PublicKey → Step api (Unit {0})
  ephemeral_parsed s message none = (fails invalid_public_key, s)
  ephemeral_parsed s message (some re) = (
    done tt,
    record s {
      remote_ephemeral = some re;
      symmetric =
          mix_key api (mix_hash api s.symmetric (take 33 message)) (ecdh api s.static_keypair re);
      progress = message1_done;
    },
  )

  unfoldable pub read_xk_message_1 : HandshakeState api → List ℕ → Step api (Unit {0})
  read_xk_message_1 s message =
      checked api s responder initial
        (sized api s 33 message (ephemeral_parsed s message (api.from_slice (take 33 message))))

  unfoldable pub write_xk_message_2 : HandshakeState api → api.Keypair → Step api (List ℕ)
  write_xk_message_2 s e = checked api s responder message1_done (elim s.remote_ephemeral [
    | none ↦ (panic, s)
    | some re ↦ elim s.local_epoch [
      | none ↦ (panic, s)
      | some epoch ↦
          let e_pub = api.serialize (api.public_key e) in
          write_epoch api
            (record s {
              ephemeral_keypair = some e;
              symmetric = mix_key api (mix_hash api s.symmetric e_pub) (ecdh api e re);
            })
            e_pub epoch message2_done
    ]
  ])

  abbrev pub ephemeral_parsed_2 :
      HandshakeState api → List ℕ → Option api.PublicKey → Step api (Unit {0})
  ephemeral_parsed_2 s message none = (fails invalid_public_key, s)
  ephemeral_parsed_2 s message (some re) =
      let hashed = mix_hash api s.symmetric (take 33 message) in
      let t : HandshakeState api = record s { remote_ephemeral = some re; symmetric = hashed } in
      elim s.ephemeral_keypair [
        | none ↦ (panic, t)
        | some e ↦
            read_epoch api (record t { symmetric = mix_key api hashed (ecdh api e re) })
              (drop 33 message) message2_done
      ]

  unfoldable pub read_xk_message_2 : HandshakeState api → List ℕ → Step api (Unit {0})
  read_xk_message_2 s message =
      checked api s initiator message1_done
        (sized api s 57 message (ephemeral_parsed_2 s message (api.from_slice (take 33 message))))

  abbrev pub static_written :
      HandshakeState api → api.PublicKey → List ℕ → NoiseResult × SymmetricState → Step api (List ℕ)
  static_written s re epoch (err e, z) = (fails e, record s { symmetric = z })
  static_written s re epoch (ok b, z) =
      write_epoch api (record s { symmetric = mix_key api z (ecdh api s.static_keypair re) }) b
        epoch complete

  unfoldable pub write_xk_message_3 : HandshakeState api → Step api (List ℕ)
  write_xk_message_3 s = checked api s initiator message2_done (elim s.remote_ephemeral [
    | none ↦ (panic, s)
    | some re ↦ elim s.local_epoch [
      | none ↦ (panic, s)
      | some epoch ↦
          static_written s re epoch
            (encrypt_and_hash api s.symmetric (api.serialize (api.public_key s.static_keypair)))
    ]
  ])

  abbrev pub static_parsed :
      HandshakeState api → List ℕ → SymmetricState → Option api.PublicKey → Step api (Unit {0})
  static_parsed s message z none = (fails invalid_public_key, record s { symmetric = z })
  static_parsed s message z (some rs) =
      let t : HandshakeState api = record s { remote_static = some rs; symmetric = z } in
      elim s.ephemeral_keypair [
        | none ↦ (panic, t)
        | some e ↦
            read_epoch api (record t { symmetric = mix_key api z (ecdh api e rs) })
              (drop 49 message) complete
      ]

  abbrev pub static_read :
      HandshakeState api → List ℕ → NoiseResult × SymmetricState → Step api (Unit {0})
  static_read s message (err e, z) = (fails e, record s { symmetric = z })
  static_read s message (ok b, z) = static_parsed s message z (api.from_slice b)

  unfoldable pub read_xk_message_3 : HandshakeState api → List ℕ → Step api (Unit {0})
  read_xk_message_3 s message = checked api s responder message2_done (
      sized api s 73 message
        (static_read s message (decrypt_and_hash api s.symmetric (take 49 message))))
