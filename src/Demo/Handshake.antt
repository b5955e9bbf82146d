-- ===== src/Demo/Handshake.antt =====
-- presidium-demo/src/session.rs and store.rs: the prekey material and the handshake drivers. What the
-- node is asked to send is the result of a driver's step.
pub mod Establish
use presidium.Base.{
  ℕ, ◌≡◌, Bool, true, false, Option, none, some, String, List, [], ◌∷◌, Result, ok, err, ◌>>=◌,
  ok_or, map_err, length, ◌==◌, if◌then◌else◌,
}
use presidium.Crypto.Constants.{Bytes}
use presidium.Crypto.Primitives.{Primitives, Signatures, Kem, Json}
use presidium.Crypto.Identity.{
  IdentityKeyPair, IdentityPublicKey, HybridKemPublicKey, HybridKemPrivateKey, HybridSignature,
  SignedPreKey, PreKeyBundle, generate_kem,
}
use presidium.Crypto.Identity.Prekeys.{new_bundle, verify_bundle}
use presidium.Crypto.Pqxdh.{PqxdhOutput, PqxdhPrekeyMessage, pqxdh_initiator, pqxdh_responder}
use presidium.Demo.Envelopes.{
  AnyError, AnyResult, crypto, serde, bail, context, panic, NetworkEnvelope, Hash, sync_envelope,
}
use presidium.Demo.Session.{
  ChatSession, with_context, build_initiator_session, build_responder_session,
}

pub record PrekeyMaterial : Type 0 where
  pub key_id : ℕ
  pub public_key : HybridKemPublicKey
  pub private_classical : Bytes
  pub private_pq : Bytes
  pub signature : HybridSignature
  pub timestamp : ℕ

-- `PrekeyMaterial::private_key`, which panics on a stored seed of another size than 64.
unfoldable pub private_key : PrekeyMaterial → AnyResult HybridKemPrivateKey
private_key material =
    if length material.private_pq == 64
    then ok (record { classical = material.private_classical; pq = material.private_pq })
    else err (panic "stored pq seed has the canonical size")

unfoldable pub signed_prekey : PrekeyMaterial → SignedPreKey
signed_prekey material = record {
  key_id = material.key_id;
  public_key = material.public_key;
  signature = material.signature;
  timestamp = material.timestamp;
}

abbrev pub marker_prekey : ℕ
marker_prekey = 2

pub record InitiatorHandshake : Type 0 where
  pub identity : IdentityKeyPair
  pub device_id : Bytes
  pub peer_identity : Option IdentityPublicKey
  pub pending : Option PqxdhOutput

pub record ResponderHandshake : Type 0 where
  pub identity : IdentityKeyPair
  pub prekey : PrekeyMaterial
  pub peer_identity : Option IdentityPublicKey

-- The random bytes of a step: of the ephemeral key, and of each leg.
pub record Draws : Type 0 where
  pub classical_secret : Bytes
  pub pq_seed : Option Bytes
  pub leg : ℕ → Bytes

module _ ⦃p : Primitives⦄ ⦃s : Signatures⦄ ⦃k : Kem⦄ where
  unfoldable pub to_bundle : PrekeyMaterial → IdentityKeyPair → AnyResult PreKeyBundle
  to_bundle material identity = map_err crypto (new_bundle identity (signed_prekey material) [])

  -- `send_prekey` up to the state it keeps: the peer's identity and the output, with the message.
  unfoldable pub start_session :
      InitiatorHandshake → Draws → PreKeyBundle → InitiatorHandshake × AnyResult PqxdhPrekeyMessage
  start_session hs draws bundle = elim (verify_bundle bundle) [
    | err e ↦ (hs, err (context "verify peer bundle" (crypto e)))
    | ok _ ↦
        let known : InitiatorHandshake = record hs { peer_identity = some bundle.identity_key } in
        elim (generate_kem draws.classical_secret draws.pq_seed) [
          | err e ↦ (known, err (crypto e))
          | ok (_, ephemeral) ↦
              elim (pqxdh_initiator draws.leg
                (record { identity = hs.identity; ephemeral = ephemeral; peer_bundle = bundle })) [
                  | err e ↦ (known, err (context "pqxdh initiator" (crypto e)))
                  | ok (output, message) ↦ (record known { pending = some output }, ok message)
                ]
        ]
  ]

  -- `InitiatorHandshake::send_prekey`: the envelope that is sent.
  unfoldable pub send_prekey :
      ⦃hash : Hash⦄
      → ⦃json : Json HybridSignature⦄ → ⦃message_json : Json PqxdhPrekeyMessage⦄
      → InitiatorHandshake
      → Draws
      → ℕ
      → PreKeyBundle
      → InitiatorHandshake × AnyResult NetworkEnvelope
  unfolding start_session
  send_prekey ⦃message_json = message_json⦄ hs draws now bundle =
      let (hs', started) = start_session hs draws bundle in
      (
        hs',
        do
          message ← started
          body ← map_err serde (message_json.to_vec message)
          sync_envelope hs.identity hs.device_id now marker_prekey body,
      )

module _ ⦃p : Primitives⦄ ⦃k : Kem⦄ where
  -- `ResponderHandshake::on_prekey` on a parsed message.
  unfoldable pub answer_prekey :
      ResponderHandshake → Bytes → PqxdhPrekeyMessage → Bytes → AnyResult (Bytes × ChatSession)
  answer_prekey hs our_ratchet message conversation_id = do
    prekey ← private_key hs.prekey
    output ← with_context crypto "pqxdh responder" (
        pqxdh_responder
          (record {
            identity = hs.identity;
            signed_prekey = prekey;
            signed_prekey_id = hs.prekey.key_id;
            one_time_prekey = none;
            one_time_prekey_id = none;
          })
          message)
    build_responder_session our_ratchet conversation_id output message.identity_public

  -- `ResponderHandshake::on_prekey`, with the ratchet key that it draws.
  unfoldable pub on_prekey :
      ⦃message_json : Json PqxdhPrekeyMessage⦄
      → ResponderHandshake
      → Bytes
      → Bytes
      → Bytes
      → ResponderHandshake × AnyResult (Bytes × ChatSession)
  unfolding answer_prekey
  on_prekey ⦃message_json⦄ hs our_ratchet body conversation_id =
      elim (message_json.from_slice body) [
        | err e ↦ (hs, err (context "parse prekey message" (serde e)))
        | ok message ↦ (
          record hs { peer_identity = some message.identity_public },
          answer_prekey hs our_ratchet message conversation_id,
        )
      ]

module _ ⦃p : Primitives⦄ where
  -- `InitiatorHandshake::establish`, with the ratchet key that it draws. The output is taken first.
  unfoldable pub establish :
      InitiatorHandshake → Bytes → Bytes → InitiatorHandshake × AnyResult ChatSession
  establish hs our_ratchet ratchet_public = (
    record hs { pending = none },
    do
      output ← ok_or hs.pending (bail "no pqxdh output")
      peer_identity ← ok_or hs.peer_identity (bail "no peer identity")
      peer_public ←
          (if length ratchet_public == 32
            then ok ratchet_public
            else err (bail "ratchet public must be 32 bytes"))
      build_initiator_session our_ratchet hs.device_id output peer_identity peer_public,
  )
