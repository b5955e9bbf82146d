-- ===== src/Demo/Handshake/Establish.antt =====
-- presidium-demo/src/session.rs: a handshake from the bundle to both sessions.
use presidium.Base.{sym, ap, ℕ, ◌≡◌, refl, Bool, true, false, none, some, [], ok, length, arith}
use presidium.Crypto.Constants.{Bytes}
use presidium.Crypto.Primitives.{
  Primitives, PrimitiveLaws, Signatures, SignatureLaws, Kem, KemLaws, Json, JsonLaws,
}
use presidium.Crypto.Ratchet.{DoubleRatchet}
use presidium.Crypto.Ratchet.Messages.{dh_ratchet}
use presidium.Crypto.Keys.Sessions.{session_agreement}
use presidium.Crypto.Identity.{
  IdentityKeyPair, IdentityPublicKey, HybridKemPrivateKey, PreKeyBundle, public, public_key,
  generate_kem,
}
use presidium.Crypto.Identity.Prekeys.{verify_bundle}
use presidium.Crypto.Keys.{SessionKeys, new_session, to_ratchet}
use presidium.Crypto.Pqxdh.{PqxdhOutput, PqxdhPrekeyMessage, pqxdh_initiator, pqxdh_responder}
use presidium.Crypto.Pqxdh.Legs.{held}
use presidium.Crypto.Pqxdh.Agreement.{pqxdh_responder-pqxdh_initiator}
use presidium.Demo.Session.{ChatSession, build_initiator_session, build_responder_session}
use presidium.Demo.Handshake.{
  PrekeyMaterial, InitiatorHandshake, ResponderHandshake, Draws, private_key, signed_prekey,
  to_bundle, start_session, answer_prekey, on_prekey, establish,
}

abbrev pub ephemeral_of : Bytes → Bytes → HybridKemPrivateKey
ephemeral_of classical_secret pq_seed = record { classical = classical_secret; pq = pq_seed }

abbrev pub private_of : PrekeyMaterial → HybridKemPrivateKey
private_of material = record { classical = material.private_classical; pq = material.private_pq }

abbrev chat_of :
    Bytes → IdentityPublicKey → Bool → DoubleRatchet → SessionKeys IdentityPublicKey → ChatSession
chat_of conversation peer is_initiator ratchet keys = record {
  conversation_id = conversation;
  peer_identity = peer;
  is_initiator = is_initiator;
  ratchet = ratchet;
  session_keys = keys;
}

abbrev pub initiator_of : IdentityKeyPair → Bytes → InitiatorHandshake
initiator_of identity device = record {
  identity = identity;
  device_id = device;
  peer_identity = none;
  pending = none;
}

abbrev pub responder_of : IdentityKeyPair → PrekeyMaterial → ResponderHandshake
responder_of identity material = record {
  identity = identity;
  prekey = material;
  peer_identity = none;
}

abbrev pub draws_of : Bytes → Bytes → (ℕ → Bytes) → Draws
draws_of secret seed leg = record { classical_secret = secret; pq_seed = some seed; leg = leg }

abbrev started_of : InitiatorHandshake → IdentityPublicKey → PqxdhOutput → InitiatorHandshake
started_of hs peer output = record hs { peer_identity = some peer; pending = some output }

module _ ⦃p : Primitives⦄ ⦃s : Signatures⦄ ⦃k : Kem⦄ ⦃message_json : Json PqxdhPrekeyMessage⦄
    (laws : PrimitiveLaws p) (sig_laws : SignatureLaws s) (kem_laws : KemLaws k)
    (json_laws : JsonLaws message_json) where
  start_lem :
      (alice : IdentityKeyPair) (device secret seed : Bytes) (leg : ℕ → Bytes)
      (bundle : PreKeyBundle) (output : PqxdhOutput) (message : PqxdhPrekeyMessage)
      → verify_bundle bundle ≡ ok tt
      → pqxdh_initiator leg
          (record { identity = alice; ephemeral = ephemeral_of secret seed; peer_bundle = bundle })
        ≡ ok (output, message)
      → start_session (initiator_of alice device) (draws_of secret seed leg) bundle
        ≡ (started_of (initiator_of alice device) bundle.identity_key output, ok message)
  unfolding start_session generate_kem
  start_lem alice device secret seed leg bundle output message verified started =
      rw (start_session, verified, started)

  answer_lem :
      (bob : IdentityKeyPair) (material : PrekeyMaterial) (b conversation : Bytes)
      (output : PqxdhOutput) (message : PqxdhPrekeyMessage) (keys : SessionKeys IdentityPublicKey)
      (ratchet : DoubleRatchet)
      → length material.private_pq ≡ 64
      → pqxdh_responder (held bob (private_of material) material.key_id none) message ≡ ok output
      → new_session false output.shared_secret message.identity_public ≡ ok keys
      → to_ratchet keys b none ≡ ok ratchet
      → on_prekey (responder_of bob material) b (json_laws.text message) conversation ≡ (
        record (responder_of bob material) { peer_identity = some message.identity_public },
        ok (p.x25519_public b, chat_of conversation message.identity_public false ratchet keys),
      )
  unfolding on_prekey answer_prekey private_key build_responder_session
  answer_lem bob material b conversation output message keys ratchet sized answered made rebuilt =
      ground (arith, sized, json_laws.from_slice_text message, answered, made, rebuilt)

  establish_lem :
      (hs : InitiatorHandshake) (a key : Bytes) (output : PqxdhOutput) (peer : IdentityPublicKey)
      (keys : SessionKeys IdentityPublicKey) (ratchet : DoubleRatchet)
      → hs.pending ≡ some output
      → hs.peer_identity ≡ some peer
      → length key ≡ 32
      → new_session true output.shared_secret peer ≡ ok keys
      → to_ratchet keys a (some key) ≡ ok ratchet
      → (establish hs a key).1 ≡ ok (chat_of hs.device_id peer true ratchet keys)
  unfolding establish build_initiator_session
  establish_lem hs a key output peer keys ratchet pending known width made rebuilt =
      ground (arith, pending, known, width, made, rebuilt)

  -- A handshake in which nothing is lost: the responder's bundle is accepted by the initiator, whose
  -- prekey message the responder answers with a session and a ratchet key of 32 bytes, and this key
  -- establishes the initiator's session. Each session knows the other side's identity, both have the
  -- same session root key, and once the responder has taken the initiator's ratchet key the chain
  -- that it receives on is the one that the initiator sends on.
  pub establish-on_prekey :
      (alice bob : IdentityKeyPair) (material : PrekeyMaterial)
      (secret seed a b device conversation : Bytes) (leg : ℕ → Bytes)
      → length material.private_pq ≡ 64
      → material.public_key ≡ public_key (private_of material)
      → length (p.x25519_public b) ≡ 32
      → (bundle : PreKeyBundle) × (alice' : InitiatorHandshake) × (message : PqxdhPrekeyMessage)
        × (bob' : ResponderHandshake) × (alice_chat bob_chat : ChatSession)
        × (ratcheted : DoubleRatchet) × (to_bundle material bob ≡ ok bundle)
        × (start_session
              (record {
                identity = alice;
                device_id = device;
                peer_identity = none;
                pending = none;
              })
              (record { classical_secret = secret; pq_seed = some seed; leg = leg })
              bundle
            ≡ (alice', ok message))
        × (on_prekey
              (record { identity = bob; prekey = material; peer_identity = none })
              b
              (json_laws.text message)
              conversation
            ≡ (bob', ok (p.x25519_public b, bob_chat)))
        × ((establish alice' a (p.x25519_public b)).1 ≡ ok alice_chat)
        × (alice_chat.peer_identity ≡ public bob)
        × (bob_chat.peer_identity ≡ public alice)
        × (alice_chat.session_keys.root_key ≡ bob_chat.session_keys.root_key)
        × (dh_ratchet bob_chat.ratchet (p.x25519_public a) ≡ (ratcheted, ok tt))
        × (ratcheted.receiving_chain.chain_key ≡ alice_chat.ratchet.sending_chain.chain_key)
  unfolding to_bundle signed_prekey
  establish-on_prekey alice bob material secret seed a b device conversation leg sized keyed width =
      let (bundle, output, message, made, started, answered, _, _, from_alice, from_bob, verified) =
        pqxdh_responder-pqxdh_initiator laws sig_laws kem_laws leg alice bob
          (ephemeral_of secret seed) (private_of material) none [] (signed_prekey material) keyed in
      let (
        keys_a, keys_b, ratchet_a, ratchet_b, ratcheted, made_a, made_b, same, made_ra, made_rb,
        taken, _, chain, _,
      ) =
        session_agreement laws output.shared_secret a b message.identity_public
          bundle.identity_key in
      let hs : InitiatorHandshake = initiator_of alice device in
      (
        bundle,
        started_of hs bundle.identity_key output,
        message,
        record (responder_of bob material) { peer_identity = some message.identity_public },
        chat_of device bundle.identity_key true ratchet_a keys_a,
        chat_of conversation message.identity_public false ratchet_b keys_b,
        ratcheted,
        rw made,
        start_lem alice device secret seed leg bundle output message verified started,
        answer_lem bob material b conversation output message keys_b ratchet_b sized answered made_b
            made_rb,
        establish_lem (started_of hs bundle.identity_key output) a (p.x25519_public b) output
            bundle.identity_key keys_a ratchet_a refl refl width made_a made_ra,
        from_bob,
        from_alice,
        sym (ap (λ (keys : SessionKeys IdentityPublicKey). keys.root_key) same),
        taken,
        chain,
      )
