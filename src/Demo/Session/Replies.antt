-- ===== src/Demo/Session/Replies.antt =====
-- presidium-demo/src/session.rs: what a chat session does with an envelope from its peer.
use presidium.Base.{
  ℕ, ◌≡◌, ◌≢◌, refl, ◌∙◌, ap, List, [], ◌∷◌, true, false, String, ok, err, bytes_eq_refl, arith,
  Result-cases, inl, inr,
}
use presidium.Crypto.Constants.{Bytes}
use presidium.Crypto.Error.{ratchet_error}
use presidium.Crypto.Primitives.{Primitives, PrimitiveLaws, Signatures, Json}
use presidium.Crypto.Ratchet.{RootKey, RatchetMessageHeader, DoubleRatchet, init, find_skipped}
use presidium.Crypto.Ratchet.Messages.{encrypt, decrypt, decrypt_fresh}
use presidium.Crypto.Ratchet.Handshake.{initiator, init_lem}
use presidium.Crypto.Identity.{IdentityKeyPair, HybridSignature}
use presidium.Demo.Envelopes.{
  AnyError, crypto, bail, context, NetworkEnvelope, Hash, parse_header, verify_envelope,
}
use presidium.Demo.Session.{ChatSession, chat_encrypt, chat_decrypt, open_payload, advance_ratchet}

module _ ⦃p : Primitives⦄ ⦃s : Signatures⦄ ⦃hash : Hash⦄ ⦃header_json : Json RatchetMessageHeader⦄
    ⦃json : Json HybridSignature⦄ where
  -- An envelope that the peer's key did not sign leaves the session as it was, and yields no
  -- plaintext.
  pub chat_decrypt_unsigned :
      (session : ChatSession) (envelope : NetworkEnvelope)
      → verify_envelope session.peer_identity envelope ≢ ok true
      → (e : AnyError) × (chat_decrypt session envelope ≡ (session, err e))
  unfolding chat_decrypt
  chat_decrypt_unsigned session envelope h = elim (Result-cases (parse_header envelope.nonce)) [
    | inr (e, parsed) ↦ (e, rw (chat_decrypt, parsed))
    | inl (header, parsed) ↦ elim (Result-cases (verify_envelope session.peer_identity envelope)) [
      | inr (e, verified) ↦ (e, rw (chat_decrypt, parsed, verified))
      | inl (false, verified) ↦
          (bail "signature verification failed", rw (chat_decrypt, parsed, verified))
      | inl (true, verified) ↦ absurd (h verified)
    ]
  ]

  -- Sending leaves the receiving chain alone.
  encrypt-receiving_chain :
      (r : DoubleRatchet) (plaintext : Bytes)
      → (encrypt r plaintext).0.receiving_chain ≡ r.receiving_chain
  unfolding encrypt
  encrypt-receiving_chain r plaintext = ground arith

  -- The session after the messages have been encrypted, each at its time, whether or not it could be.
  pub send_all : IdentityKeyPair → Bytes → List (ℕ × Bytes) → ChatSession → ChatSession
  send_all identity device_id [] session = session
  send_all identity device_id ((now, plaintext) ∷ rest) session =
      send_all identity device_id rest (chat_encrypt session identity device_id now plaintext).0

  send_all_lem :
      (identity : IdentityKeyPair) (device_id : Bytes) (messages : List (ℕ × Bytes))
      (session : ChatSession)
      → ((send_all identity device_id messages session).ratchet.receiving_chain
          ≡ session.ratchet.receiving_chain)
        × ((send_all identity device_id messages session).peer_identity ≡ session.peer_identity)
  unfolding send_all chat_encrypt
  send_all_lem identity device_id [] session = (refl, refl)
  send_all_lem identity device_id ((now, plaintext) ∷ rest) session =
      let (receiving, peer) =
        send_all_lem identity device_id rest
          (chat_encrypt session identity device_id now plaintext).0 in
      (receiving ∙ encrypt-receiving_chain session.ratchet plaintext, peer)

  open_payload-initiator :
      (laws : PrimitiveLaws p) (sid : String) (root : RootKey) (our peer ad payload : Bytes)
      (r : DoubleRatchet) (header : RatchetMessageHeader)
      → r.receiving_chain ≡ (initiator laws sid root our peer ad).receiving_chain
      → header.dh_public_key ≡ peer
      → open_payload r payload header ≡ (
        r,
        err (context "ratchet decrypt" (crypto (ratchet_error "No receiving chain established"))),
      )
  unfolding open_payload advance_ratchet decrypt decrypt_fresh find_skipped
  open_payload-initiator laws sid root our peer ad payload r header same h =
      ground (arith, h, same, bytes_eq_refl peer)

  -- The initiator of a session cannot read a reply, however many messages it has sent: an envelope that its
  -- peer signed, whose header carries the ratchet key that the session was made with, is refused for
  -- want of a receiving chain.
  pub chat_decrypt_reply :
      (laws : PrimitiveLaws p) (sid : String) (root : RootKey) (our peer ad : Bytes)
      (started : ChatSession) (identity : IdentityKeyPair) (device_id : Bytes)
      (messages : List (ℕ × Bytes)) (envelope : NetworkEnvelope) (header : RatchetMessageHeader)
      → init sid root our peer ad ≡ ok started.ratchet
      → parse_header envelope.nonce ≡ ok header
      → header.dh_public_key ≡ peer
      → verify_envelope started.peer_identity envelope ≡ ok true
      → let session : ChatSession = send_all identity device_id messages started in
        chat_decrypt session envelope ≡ (
          session,
          err (context "ratchet decrypt" (crypto (ratchet_error "No receiving chain established"))),
        )
  unfolding chat_decrypt
  chat_decrypt_reply laws sid root our peer ad started identity device_id messages envelope header
        starts parsed same verified =
      let made : started.ratchet ≡ initiator laws sid root our peer ad =
        ground (arith, starts, init_lem laws sid root our peer ad) in
      let (receiving, peer_kept) = send_all_lem identity device_id messages started in
      let session : ChatSession = send_all identity device_id messages started in
      let signed : verify_envelope session.peer_identity envelope ≡ ok true =
        rw peer_kept verified in
      rw (
        chat_decrypt,
        parsed,
        signed,
        open_payload-initiator laws sid root our peer ad envelope.encrypted_payload session.ratchet
            header (receiving ∙ ap (λ (r : DoubleRatchet). r.receiving_chain) made) same,
      )
