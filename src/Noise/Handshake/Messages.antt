-- ===== src/Noise/Handshake/Messages.antt =====
-- fips/src/noise/handshake.rs: the messages of the patterns IK and XK. Every operation gives its
-- result and the state it leaves, also behind an error.
pub mod Shared
pub mod Agreement
use fips_native.Base.{
  ℕ, ◌+◌, List, [], ◌∷◌, ◌++◌, Bool, true, false, Option, none, some, ◌==◌, if◌then◌else◌, length,
  take, drop,
}
use fips_native.Noise.Cipher.{
  NoiseError, NoiseResult, ok, err, wrong_state, message_too_short, invalid_public_key,
  handshake_not_complete, CipherState,
}
use fips_native.Noise.Session.{NoiseSession, HandshakeRole, initiator, responder, from_handshake}
use fips_native.Noise.Handshake.{
  CryptoApi, HandshakeProgress, initial, message1_done, message2_done, complete, progress_text,
  role_text, same_role, progress_rank, SymmetricState, Outcome, done, fails, panic, mix_hash,
  mix_key, encrypt_and_hash, decrypt_and_hash, split, HandshakeState, ecdh,
}

module _ (api : CryptoApi) where
  abbrev pub Step : Type 0 → Type 0
  Step A = Outcome A × HandshakeState api

  -- The two checks that every message begins with.
  abbrev pub checked :
      {A : Type 0} → HandshakeState api → HandshakeRole → HandshakeProgress → Step A → Step A
  checked s role progress go =
      if same_role s.role role
      then if progress_rank s.progress == progress_rank progress
        then go
        else (fails (wrong_state (progress_text progress) (progress_text s.progress)), s)
      else (fails (wrong_state (role_text role) (role_text s.role)), s)

  abbrev pub sized : {A : Type 0} → HandshakeState api → ℕ → List ℕ → Step A → Step A
  sized s size message go =
      if length message == size then go else (fails (message_too_short size (length message)), s)

  -- The encrypted epoch at a message's end, and the progress behind it.
  abbrev pub epoch_written :
      HandshakeState api → List ℕ → HandshakeProgress → NoiseResult × SymmetricState → Step (List ℕ)
  epoch_written s message progress (err e, y) = (fails e, record s { symmetric = y })
  epoch_written s message progress (ok b, y) =
      (done (message ++ b), record s { symmetric = y; progress = progress })

  abbrev pub write_epoch : HandshakeState api → List ℕ → List ℕ → HandshakeProgress → Step (List ℕ)
  write_epoch s message epoch progress =
      epoch_written s message progress (encrypt_and_hash api s.symmetric epoch)

  -- `copy_from_slice` into 8 bytes.
  abbrev pub epoch_read :
      HandshakeState api → HandshakeProgress → NoiseResult × SymmetricState → Step (Unit {0})
  epoch_read s progress (err e, y) = (fails e, record s { symmetric = y })
  epoch_read s progress (ok epoch, y) =
      if length epoch == 8
      then (done tt, record s { symmetric = y; remote_epoch = some epoch; progress = progress })
      else (panic, record s { symmetric = y })

  abbrev pub read_epoch : HandshakeState api → List ℕ → HandshakeProgress → Step (Unit {0})
  read_epoch s encrypted progress =
      epoch_read s progress (decrypt_and_hash api s.symmetric encrypted)

  -- Message 1 of IK behind the encrypted static key.
  abbrev pub static_written :
      HandshakeState api
      → api.PublicKey
      → List ℕ
      → List ℕ
      → NoiseResult × SymmetricState
      → Step (List ℕ)
  static_written s rs epoch e_pub (err e, z) = (fails e, record s { symmetric = z })
  static_written s rs epoch e_pub (ok b, z) =
      write_epoch (record s { symmetric = mix_key api z (ecdh api s.static_keypair rs) })
        (e_pub ++ b) epoch message1_done

  unfoldable pub write_message_1 : HandshakeState api → api.Keypair → Step (List ℕ)
  write_message_1 s e = checked s initiator initial (elim s.remote_static [
    | none ↦ (panic, s)
    | some rs ↦ elim s.local_epoch [
      | none ↦ (panic, s)
      | some epoch ↦
          let e_pub = api.serialize (api.public_key e) in
          let y = mix_key api (mix_hash api s.symmetric e_pub) (ecdh api e rs) in
          static_written (record s { ephemeral_keypair = some e }) rs epoch e_pub
            (encrypt_and_hash api y (api.serialize (api.public_key s.static_keypair)))
    ]
  ])

  abbrev pub static_parsed :
      HandshakeState api → List ℕ → SymmetricState → Option api.PublicKey → Step (Unit {0})
  static_parsed s message z none = (fails invalid_public_key, record s { symmetric = z })
  static_parsed s message z (some rs) =
      read_epoch
        (record s {
          remote_static = some rs;
          symmetric = mix_key api z (ecdh api s.static_keypair rs);
        })
        (drop 82 message) message1_done

  abbrev pub static_read :
      HandshakeState api → List ℕ → NoiseResult × SymmetricState → Step (Unit {0})
  static_read s message (err e, z) = (fails e, record s { symmetric = z })
  static_read s message (ok b, z) = static_parsed s message z (api.from_slice b)

  abbrev pub ephemeral_parsed : HandshakeState api → List ℕ → Option api.PublicKey → Step (Unit {0})
  ephemeral_parsed s message none = (fails invalid_public_key, s)
  ephemeral_parsed s message (some re) =
      static_read (record s { remote_ephemeral = some re }) message
        (decrypt_and_hash api
          (mix_key api (mix_hash api s.symmetric (take 33 message)) (ecdh api s.static_keypair re))
          (take 49 (drop 33 message)))

  unfoldable pub read_message_1 : HandshakeState api → List ℕ → Step (Unit {0})
  read_message_1 s message =
      checked s responder initial
        (sized s 106 message (ephemeral_parsed s message (api.from_slice (take 33 message))))

  unfoldable pub write_message_2 : HandshakeState api → api.Keypair → Step (List ℕ)
  write_message_2 s e = checked s responder message1_done (elim s.remote_ephemeral [
    | none ↦ (panic, s)
    | some re ↦ elim s.local_epoch [
      | none ↦ (panic, s)
      | some epoch ↦
          let e_pub = api.serialize (api.public_key e) in
          let y = mix_key api (mix_hash api s.symmetric e_pub) (ecdh api e re) in
          write_epoch
            (record s {
              ephemeral_keypair = some e;
              symmetric = mix_key api y (ecdh api s.static_keypair re);
            })
            e_pub epoch complete
    ]
  ])

  abbrev pub ephemeral_parsed_2 :
      HandshakeState api → List ℕ → Option api.PublicKey → Step (Unit {0})
  ephemeral_parsed_2 s message none = (fails invalid_public_key, s)
  ephemeral_parsed_2 s message (some re) =
      let hashed = mix_hash api s.symmetric (take 33 message) in
      let t : HandshakeState api = record s { remote_ephemeral = some re; symmetric = hashed } in
      elim s.ephemeral_keypair [
        | none ↦ (panic, t)
        | some e ↦
            let y = mix_key api hashed (ecdh api e re) in
            elim s.remote_static [
              | none ↦ (panic, record t { symmetric = y })
              | some rs ↦
                  read_epoch (record t { symmetric = mix_key api y (ecdh api e rs) })
                    (drop 33 message) complete
            ]
      ]

  unfoldable pub read_message_2 : HandshakeState api → List ℕ → Step (Unit {0})
  read_message_2 s message =
      checked s initiator message1_done
        (sized s 57 message (ephemeral_parsed_2 s message (api.from_slice (take 33 message))))

  unfoldable pub into_session : HandshakeState api → Outcome (NoiseSession api.PublicKey)
  into_session s =
      if progress_rank s.progress == 3
      then elim s.remote_static [
        | none ↦ panic
        | some rs ↦
            let (c1, c2) = split api s.symmetric in
            elim s.role [
              | initiator ↦ done (from_handshake initiator c1 c2 s.symmetric.h rs)
              | responder ↦ done (from_handshake responder c2 c1 s.symmetric.h rs)
            ]
      ]
      else fails handshake_not_complete
