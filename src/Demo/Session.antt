-- ===== src/Demo/Session.antt =====
-- presidium-demo/src/session.rs: an established chat session. The peer's ratchet is advanced by the
-- key of an envelope's header.
pub mod Replies
pub mod Kept
pub mod FirstMessage
use presidium.Base.{
  ℕ, ◌≡◌, refl, Bool, true, false, not, ◌&&◌, Option, none, some, String, List, [], ◌∷◌, Result, ok,
  err, ◌>>=◌, map_err, bytes_eq, if◌then◌else◌,
}
use presidium.Crypto.Constants.{Bytes}
use presidium.Crypto.Primitives.{Primitives, Signatures, Json}
use presidium.Crypto.Ratchet.{RatchetMessageHeader, DoubleRatchet}
use presidium.Crypto.Ratchet.Messages.{encrypt, decrypt, dh_ratchet}
use presidium.Crypto.Keys.{SessionKeys, new_session, to_ratchet}
use presidium.Crypto.Identity.{IdentityKeyPair, IdentityPublicKey, HybridSignature, try_into}
use presidium.Crypto.Pqxdh.{PqxdhOutput, PqxdhResponderKeys, PqxdhPrekeyMessage, pqxdh_responder}
use presidium.Demo.Envelopes.{
  AnyError, AnyResult, crypto, serde, bail, context, NetworkEnvelope, Hash, kind_direct,
  build_signed_envelope, parse_header, verify_envelope,
}

pub record ChatSession : Type 0 where
  pub conversation_id : Bytes
  pub peer_identity : IdentityPublicKey
  pub is_initiator : Bool
  pub ratchet : DoubleRatchet
  pub session_keys : SessionKeys IdentityPublicKey

-- `Result::context`.
abbrev pub with_context {ℓ κ} :
    {E : Type κ} {A : Type ℓ} → (E → AnyError) → String → Result E A → Result AnyError A
with_context f text r = map_err (λ e. context text (f e)) r

abbrev pub with_ratchet : ChatSession → DoubleRatchet → ChatSession
with_ratchet session ratchet = record session { ratchet = ratchet }

-- `a.or(b)`.
abbrev or_else : Option Bytes → Option Bytes → Option Bytes
or_else none b = b
or_else (some a) b = some a

-- `known.as_ref().map(..) != Some(..)`.
abbrev is_known : Option Bytes → Bytes → Bool
is_known none key = false
is_known (some k) key = bytes_eq k key

module _ ⦃p : Primitives⦄ ⦃s : Signatures⦄ ⦃hash : Hash⦄ ⦃header_json : Json RatchetMessageHeader⦄
    ⦃json : Json HybridSignature⦄ where
  -- `ChatSession::encrypt`.
  unfoldable pub chat_encrypt :
      ChatSession → IdentityKeyPair → Bytes → ℕ → Bytes → ChatSession × AnyResult NetworkEnvelope
  chat_encrypt session identity device_id now plaintext =
      let (ratchet, sealed) = encrypt session.ratchet plaintext in
      (
        with_ratchet session ratchet,
        do
          (ciphertext, header) ← with_context crypto "ratchet encrypt" sealed
          build_signed_envelope identity device_id now kind_direct session.conversation_id
              ciphertext header,
      )

  -- The advance of `ChatSession::decrypt`: only for a key that is not the one known.
  unfoldable pub advance_ratchet : DoubleRatchet → Bytes → DoubleRatchet × AnyResult Unit
  advance_ratchet ratchet key =
      if is_known
        (or_else ratchet.receiving_chain.their_ratchet_public
          ratchet.sending_chain.their_ratchet_public)
        key
      then (ratchet, ok tt)
      else let (ratchet', result) = dh_ratchet ratchet key in
        (ratchet', with_context crypto "dh ratchet" result)

  -- `ChatSession::decrypt` from its first check of the ratchet on.
  unfoldable pub open_payload :
      DoubleRatchet → Bytes → RatchetMessageHeader → DoubleRatchet × AnyResult Bytes
  unfolding advance_ratchet
  open_payload ratchet payload header =
      let (ratchet', result) = advance_ratchet ratchet header.dh_public_key in
      elim result [
        | err e ↦ (ratchet', err e)
        | ok _ ↦
            let (ratchet'', opened) = decrypt ratchet' payload header in
            (ratchet'', with_context crypto "ratchet decrypt" opened)
      ]

  -- `ChatSession::decrypt`.
  unfoldable pub chat_decrypt : ChatSession → NetworkEnvelope → ChatSession × AnyResult Bytes
  unfolding open_payload
  chat_decrypt session envelope = elim (parse_header envelope.nonce) [
    | err e ↦ (session, err e)
    | ok header ↦ elim (verify_envelope session.peer_identity envelope) [
      | err e ↦ (session, err e)
      | ok false ↦ (session, err (bail "signature verification failed"))
      | ok true ↦
          let (ratchet, opened) = open_payload session.ratchet envelope.encrypted_payload header in
          (with_ratchet session ratchet, opened)
    ]
  ]

module _ ⦃p : Primitives⦄ where
  -- `build_initiator_session`, with the ratchet key that it draws.
  unfoldable pub build_initiator_session :
      Bytes → Bytes → PqxdhOutput → IdentityPublicKey → Bytes → AnyResult ChatSession
  build_initiator_session our_ratchet device_id output peer_identity peer_ratchet_public = do
    keys ← with_context crypto "session keys" (new_session true output.shared_secret peer_identity)
    ratchet ←
        with_context crypto "initiator ratchet"
          (to_ratchet keys our_ratchet (some peer_ratchet_public))
    ok (record {
      conversation_id = device_id;
      peer_identity = peer_identity;
      is_initiator = true;
      ratchet = ratchet;
      session_keys = keys;
    })

  -- The end of `ResponderHandshake::on_prekey`: the session and the ratchet key to send back.
  unfoldable pub build_responder_session :
      Bytes → Bytes → PqxdhOutput → IdentityPublicKey → AnyResult (Bytes × ChatSession)
  build_responder_session our_ratchet conversation_id output peer_identity = do
    keys ← with_context crypto "session keys" (new_session false output.shared_secret peer_identity)
    ratchet ← with_context crypto "responder ratchet" (to_ratchet keys our_ratchet none)
    ok (
      p.x25519_public our_ratchet,
      record {
        conversation_id = conversation_id;
        peer_identity = peer_identity;
        is_initiator = false;
        ratchet = ratchet;
        session_keys = keys;
      },
    )
