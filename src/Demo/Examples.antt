-- ===== src/Demo/Examples.antt =====
-- The theorems on session.rs of the demo at a concrete session.
use presidium.Base.{ℕ, ◌+◌, ◌*◌, ◌%◌, ◌≡◌, refl, true, false, ok, err, [], ◌∷◌, arith, replicate}
use presidium.Crypto.Constants.{Bytes}
use presidium.Crypto.Error.{ratchet_error}
use presidium.Crypto.Samples.{sample, sample_laws, sum}
use presidium.Crypto.Samples.Schemes.{sample_signatures, sample-SignatureLaws}
use presidium.Crypto.Samples.Texts.{
  header_json, header_json_laws, signature_json, signature_json_laws,
}
use presidium.Crypto.Ratchet.{DoubleRatchet, RatchetMessageHeader, RootKey}
use presidium.Crypto.Ratchet.Handshake.{initiator, init_lem}
use presidium.Crypto.Identity.{IdentityKeyPair, public, verify_hybrid}
use presidium.Demo.Envelopes.{
  AnyError, crypto, context, NetworkEnvelope, Hash, signed_bytes, kind_direct,
  build_signed_envelope, verify_envelope, parse_header, verify_envelope-build_signed_envelope,
}
use presidium.Demo.Session.{ChatSession, chat_decrypt}
use presidium.Demo.Handshake.{
  PrekeyMaterial, InitiatorHandshake, ResponderHandshake, to_bundle, start_session, on_prekey,
  establish,
}
use presidium.Demo.Handshake.Establish.{initiator_of, responder_of, draws_of, establish-on_prekey}
use presidium.Crypto.Ratchet.Messages.{dh_ratchet}
use presidium.Crypto.Identity.{PreKeyBundle, public_key}
use presidium.Crypto.Pqxdh.{PqxdhPrekeyMessage}
use presidium.Crypto.Samples.Schemes.{sample_kem, sample_kem_laws}
use presidium.Crypto.Samples.Prekeys.{prekey_json, prekey_json-JsonLaws}
use presidium.Crypto.Ratchet.Handshake.{responder, init_as_responder_lem}
use presidium.Demo.Session.{chat_encrypt}
use presidium.Demo.Session.FirstMessage.{chat_decrypt-chat_encrypt}
use presidium.Demo.Session.Replies.{send_all, chat_decrypt_unsigned, chat_decrypt_reply}

instance abbrev hash : Hash
hash = record { sha256 = λ bytes. sum bytes ∷ [] }

abbrev identity : IdentityKeyPair
identity = record { classical = 20 ∷ []; pq = record { key = 21 ∷ [] } }

abbrev alice : IdentityKeyPair
alice = record { classical = 10 ∷ []; pq = record { key = 11 ∷ [] } }

abbrev header : RatchetMessageHeader
header = record { dh_public_key = 9 ∷ []; message_number = 0; previous_message_number = 0 }

verify_envelope-build_signed_envelope_example :
    (envelope : NetworkEnvelope) × (build_signed_envelope identity
        (1 ∷ [])
        1700
        kind_direct
        (2 ∷ [])
        (7 ∷ 8 ∷ [])
        header
      ≡ ok envelope)
    × (verify_envelope (public identity) envelope ≡ ok true)
    × (parse_header envelope.nonce ≡ ok header)
    × (envelope.encrypted_payload ≡ 7 ∷ 8 ∷ [])
verify_envelope-build_signed_envelope_example =
    verify_envelope-build_signed_envelope sample-SignatureLaws signature_json_laws header_json_laws
      identity (1 ∷ []) 1700 kind_direct (2 ∷ []) (7 ∷ 8 ∷ []) header

abbrev root : RootKey
root = record { key = 66 ∷ [] }

abbrev session : ChatSession
session = record {
  conversation_id = 2 ∷ [];
  peer_identity = public identity;
  is_initiator = true;
  ratchet = initiator sample_laws "s" root (5 ∷ []) (9 ∷ []) [];
  session_keys = record {
    is_initiator = true;
    root_key = 66 ∷ [];
    sending_chain = [];
    receiving_chain = [];
    peer_identity = public identity;
    message_count = 0;
  };
}

-- An envelope with the header, and a signature of it and of the payload, or another one.
abbrev envelope : Bytes → NetworkEnvelope
envelope signature = record {
  kind = kind_direct;
  conversation_id = 2 ∷ [];
  sender_device_id = 1 ∷ [];
  timestamp = 1700;
  encrypted_payload = 7 ∷ 8 ∷ [];
  mac = 15 ∷ [];
  protocol_version = 1;
  nonce = 0 ∷ 0 ∷ 9 ∷ [];
  signature = signature;
}

abbrev signature : Bytes
signature = 1 ∷ ((3 * 20 + 24) % 256) ∷ replicate 4627 ((21 + 24) % 256)

chat_decrypt_unsigned_example :
    (e : AnyError) × (chat_decrypt session (envelope (0 ∷ [])) ≡ (session, err e))
unfolding verify_envelope verify_hybrid
chat_decrypt_unsigned_example =
    chat_decrypt_unsigned session (envelope (0 ∷ [])) (λ e. ground (arith, e))

-- The greeting is sent before the reply comes.
abbrev greeted : ChatSession
greeted = send_all alice (1 ∷ []) ((1600, 104 ∷ 105 ∷ []) ∷ []) session

chat_decrypt_reply_example : chat_decrypt greeted (envelope signature) ≡ (
  greeted,
  err (context "ratchet decrypt" (crypto (ratchet_error "No receiving chain established"))),
)
unfolding verify_envelope verify_hybrid parse_header public signed_bytes
chat_decrypt_reply_example =
    chat_decrypt_reply sample_laws "s" root (5 ∷ []) (9 ∷ []) [] session alice (1 ∷ [])
      ((1600, 104 ∷ 105 ∷ []) ∷ []) (envelope signature) header
      (init_lem sample_laws "s" root (5 ∷ []) (9 ∷ []) []) refl refl refl

abbrev material : PrekeyMaterial
material = record {
  key_id = 1;
  public_key = public_key (record { classical = 30 ∷ []; pq = replicate 64 31 });
  private_classical = 30 ∷ [];
  private_pq = replicate 64 31;
  signature = record { classical = []; pq = [] };
  timestamp = 1700;
}

abbrev bob_ratchet : Bytes
bob_ratchet = replicate 32 9

abbrev leg : ℕ → Bytes
leg n = n ∷ []

establish-on_prekey_example :
    (bundle : PreKeyBundle) × (alice' : InitiatorHandshake) × (message : PqxdhPrekeyMessage)
    × (bob' : ResponderHandshake) × (alice_chat bob_chat : ChatSession)
    × (ratcheted : DoubleRatchet) × (to_bundle material identity ≡ ok bundle)
    × (start_session (initiator_of alice (1 ∷ [])) (draws_of (50 ∷ []) (51 ∷ []) leg) bundle
        ≡ (alice', ok message))
    × (on_prekey
          (responder_of identity material)
          bob_ratchet
          (prekey_json-JsonLaws.text message)
          (1 ∷ [])
        ≡ (bob', ok (bob_ratchet, bob_chat)))
    × ((establish alice' (5 ∷ []) bob_ratchet).1 ≡ ok alice_chat)
    × (alice_chat.peer_identity ≡ public identity)
    × (bob_chat.peer_identity ≡ public alice)
    × (alice_chat.session_keys.root_key ≡ bob_chat.session_keys.root_key)
    × (dh_ratchet bob_chat.ratchet (5 ∷ []) ≡ (ratcheted, ok tt))
    × (ratcheted.receiving_chain.chain_key ≡ alice_chat.ratchet.sending_chain.chain_key)
establish-on_prekey_example =
    establish-on_prekey sample_laws sample-SignatureLaws sample_kem_laws prekey_json-JsonLaws alice
      identity material (50 ∷ []) (51 ∷ []) (5 ∷ []) bob_ratchet (1 ∷ []) (1 ∷ []) leg refl refl
      refl

abbrev responding : ChatSession
responding = record session { is_initiator = false; ratchet = responder "s" root bob_ratchet [] }

abbrev initiating : ChatSession
initiating = record session { ratchet = initiator sample_laws "s" root (5 ∷ []) bob_ratchet [] }

chat_decrypt-chat_encrypt_example :
    (alice' bob' : ChatSession) × (envelope : NetworkEnvelope) × (chat_encrypt initiating identity
        (1 ∷ [])
        1700
        (104 ∷ 105 ∷ [])
      ≡ (alice', ok envelope))
    × (chat_decrypt responding envelope ≡ (bob', ok (104 ∷ 105 ∷ [])))
chat_decrypt-chat_encrypt_example =
    chat_decrypt-chat_encrypt sample_laws sample-SignatureLaws signature_json_laws header_json_laws
      initiating responding identity "s" "s" root (5 ∷ []) bob_ratchet [] [] (1 ∷ [])
      (104 ∷ 105 ∷ []) 1700 (init_lem sample_laws "s" root (5 ∷ []) bob_ratchet [])
      (init_as_responder_lem "s" root bob_ratchet []) refl (omega arith)
