-- ===== src/Demo/Session/FirstMessage.antt =====
-- presidium-demo/src/session.rs: the first message of an initiator.
use presidium.Base.{ℕ, ◌≡◌, ◌≤◌, refl, true, some, none, String, ok, length, arith, ap, ◌∙◌}
use presidium.Crypto.Constants.{Bytes}
use presidium.Crypto.Error.{CryptoResult}
use presidium.Crypto.Primitives.{
  Primitives, PrimitiveLaws, Signatures, SignatureLaws, Json, JsonLaws, aead_limit,
}
use presidium.Crypto.Ratchet.{
  RootKey, RatchetMessageHeader, DoubleRatchet, init, init_as_responder, find_skipped,
}
use presidium.Crypto.Ratchet.Messages.{encrypt, decrypt, dh_ratchet, header_of, with_sending}
use presidium.Crypto.Ratchet.Stream.{chain_at, message_key_at, sealed, open_message-sealed}
use presidium.Crypto.Ratchet.Delivery.{encrypt_lem, decrypt_ahead}
use presidium.Crypto.Ratchet.Handshake.{
  initiator, responder, init_lem, init_as_responder_lem, dh_ratchet_receiving, chain_after,
}
use presidium.Crypto.Ratchet.Session.{answered}
use presidium.Crypto.Identity.{IdentityKeyPair, HybridSignature, public}
use presidium.Demo.Envelopes.{
  NetworkEnvelope, Hash, kind_direct, build_signed_envelope, parse_header, verify_envelope,
  verify_envelope-build_signed_envelope,
}
use presidium.Demo.Session.{
  ChatSession, with_ratchet, chat_encrypt, chat_decrypt, open_payload, advance_ratchet,
}

module _ ⦃p : Primitives⦄ ⦃s : Signatures⦄ ⦃hash : Hash⦄ ⦃header_json : Json RatchetMessageHeader⦄
    ⦃json : Json HybridSignature⦄ where
  chat_encrypt_lem :
      (session : ChatSession) (identity : IdentityKeyPair) (device_id plaintext ciphertext : Bytes)
      (now : ℕ) (ratchet : DoubleRatchet) (header : RatchetMessageHeader)
      (envelope : NetworkEnvelope)
      → encrypt session.ratchet plaintext ≡ (ratchet, ok (ciphertext, header))
      → build_signed_envelope identity device_id now kind_direct session.conversation_id ciphertext
          header
        ≡ ok envelope
      → chat_encrypt session identity device_id now plaintext
        ≡ (with_ratchet session ratchet, ok envelope)
  unfolding chat_encrypt
  chat_encrypt_lem session identity device_id plaintext ciphertext now ratchet header envelope e
        built =
      rw (chat_encrypt, e, built)

  chat_decrypt_lem :
      (session : ChatSession) (envelope : NetworkEnvelope) (header : RatchetMessageHeader)
      (ratchet : DoubleRatchet) (plaintext : Bytes)
      → parse_header envelope.nonce ≡ ok header
      → verify_envelope session.peer_identity envelope ≡ ok true
      → open_payload session.ratchet envelope.encrypted_payload header ≡ (ratchet, ok plaintext)
      → chat_decrypt session envelope ≡ (with_ratchet session ratchet, ok plaintext)
  unfolding chat_decrypt
  chat_decrypt_lem session envelope header ratchet plaintext parsed verified opened =
      rw (chat_decrypt, parsed, verified, opened)

  -- A responder that has taken no ratchet key yet takes the one of the header.
  open_payload_lem :
      (r r' r'' : DoubleRatchet) (payload plaintext : Bytes) (header : RatchetMessageHeader)
      → r.receiving_chain.their_ratchet_public ≡ none
      → r.sending_chain.their_ratchet_public ≡ none
      → dh_ratchet r header.dh_public_key ≡ (r', ok tt)
      → decrypt r' payload header ≡ (r'', ok plaintext)
      → open_payload r payload header ≡ (r'', ok plaintext)
  unfolding open_payload advance_ratchet
  open_payload_lem r r' r'' payload plaintext header h h' taken opened =
      ground (arith, h, h', taken, opened)

  module _ (laws : PrimitiveLaws p) (sig_laws : SignatureLaws s) (json_laws : JsonLaws json)
      (header_laws : JsonLaws header_json) where
    start_of : RootKey → Bytes → Bytes → Bytes
    start_of root a b = chain_after laws root (p.diffie_hellman a (p.x25519_public b))

    first_cipher : String → RootKey → Bytes → Bytes → Bytes → Bytes → Bytes
    first_cipher sid root a b ad plaintext =
        sealed laws header_laws (message_key_at laws (start_of root a b) 0)
          (header_of (initiator laws sid root a (p.x25519_public b) ad) 0) plaintext

    decrypt_first :
        (sid sid' : String) (root : RootKey) (a b ad ad' plaintext : Bytes)
        → length plaintext ≤ aead_limit
        → (decrypt
            (answered laws sid' root a b ad')
            (first_cipher sid root a b ad plaintext)
            (header_of (initiator laws sid root a (p.x25519_public b) ad) 0)).1
          ≡ ok plaintext
    unfolding find_skipped header_of first_cipher start_of
    decrypt_first sid sid' root a b ad ad' plaintext fits =
        let header : RatchetMessageHeader =
          header_of (initiator laws sid root a (p.x25519_public b) ad) 0 in
        ap (λ (z : DoubleRatchet × CryptoResult Bytes). z.1)
          (decrypt_ahead laws header_laws (answered laws sid' root a b ad') (start_of root a b) 0
            header (first_cipher sid root a b ad plaintext)
            (ap (λ (dh : Bytes). some (chain_at laws (chain_after laws root dh) 0))
              (laws.dh_comm b a))
            refl (omega arith) (omega arith) (omega arith))
        ∙ open_message-sealed laws header_laws (message_key_at laws (start_of root a b) 0) header
            plaintext fits

    -- The first message that an initiator's session encrypts is decrypted by the session of the
    -- responder, which takes the ratchet key of its header: the sessions are as `init` and
    -- `init_as_responder` make them from one root key, and the responder knows the initiator's identity.
    pub chat_decrypt-chat_encrypt :
        (alice bob : ChatSession) (identity : IdentityKeyPair) (sid sid' : String) (root : RootKey)
        (a b ad ad' device_id plaintext : Bytes) (now : ℕ)
        → init sid root a (p.x25519_public b) ad ≡ ok alice.ratchet
        → init_as_responder sid' root b ad' ≡ ok bob.ratchet
        → bob.peer_identity ≡ public identity
        → length plaintext ≤ aead_limit
        → (alice' bob' : ChatSession) × (envelope : NetworkEnvelope) × (chat_encrypt alice identity
              device_id now plaintext
            ≡ (alice', ok envelope))
          × (chat_decrypt bob envelope ≡ (bob', ok plaintext))
    unfolding header_of first_cipher start_of
    chat_decrypt-chat_encrypt alice bob identity sid sid' root a b ad ad' device_id plaintext now
          made answers known fits =
        let r : DoubleRatchet = initiator laws sid root a (p.x25519_public b) ad in
        let header : RatchetMessageHeader = header_of r 0 in
        let ciphertext : Bytes = first_cipher sid root a b ad plaintext in
        let at_a : alice.ratchet ≡ r =
          ground (arith, made, init_lem laws sid root a (p.x25519_public b) ad) in
        let at_b : bob.ratchet ≡ responder sid' root b ad' =
          ground (arith, answers, init_as_responder_lem sid' root b ad') in
        let (envelope, built, verified, parsed, payload) =
          verify_envelope-build_signed_envelope sig_laws json_laws header_laws identity device_id
            now kind_direct alice.conversation_id ciphertext header in
        let bob_r : DoubleRatchet =
          (decrypt (answered laws sid' root a b ad') ciphertext header).0 in
        let opened : decrypt (answered laws sid' root a b ad') ciphertext header
            ≡ (bob_r, ok plaintext) =
          ap (λ (o : CryptoResult Bytes). (bob_r, o))
            (decrypt_first sid sid' root a b ad ad' plaintext fits) in
        (
          with_ratchet alice (with_sending r (chain_at laws (start_of root a b) 1)),
          with_ratchet bob bob_r,
          envelope,
          chat_encrypt_lem alice identity device_id plaintext ciphertext now
              (with_sending r (chain_at laws (start_of root a b) 1)) header envelope
              (rw at_a (
                encrypt_lem laws header_laws r (start_of root a b) 0 plaintext refl (omega arith)
                  fits))
              built,
          chat_decrypt_lem bob envelope header bob_r plaintext parsed (rw known verified) (
              rw (at_b, payload)
                (open_payload_lem (responder sid' root b ad') (answered laws sid' root a b ad')
                  bob_r ciphertext plaintext header refl refl
                  (dh_ratchet_receiving laws (responder sid' root b ad') b (p.x25519_public a) refl
                    refl)
                  opened)),
        )
