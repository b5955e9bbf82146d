-- ===== src/Demo/Session/Kept.antt =====
-- presidium-demo/src/session.rs: what a chat session keeps while its messages are sent and read.
use presidium.Base.{◌-◌, ◌≡◌, refl, true, false, arith, inl, inr, Result-cases, Option-cases}
use presidium.Crypto.Constants.{Bytes}
use presidium.Crypto.Primitives.{Primitives, Signatures, Json}
use presidium.Crypto.Ratchet.{RatchetMessageHeader, ChainKey, DoubleRatchet}
use presidium.Crypto.Ratchet.Messages.{
  skip_loop, with_receiving, decrypt, decrypt_at, decrypt_fresh, dh_ratchet,
}
use presidium.Crypto.Identity.{HybridSignature}
use presidium.Network.Messages.{NetworkEnvelope}
use presidium.Demo.Envelopes.{Hash, parse_header, verify_envelope}
use presidium.Demo.Session.{ChatSession, chat_decrypt, open_payload, advance_ratchet, with_ratchet}

-- The ratchet of the same session.
abbrev pub SameSession : DoubleRatchet → DoubleRatchet → Type 0
SameSession r r' = (r'.session_id ≡ r.session_id) × (r'.associated_data ≡ r.associated_data)

module _ ⦃p : Primitives⦄ where
  dh_ratchet-SameSession : (r : DoubleRatchet) (key : Bytes) → SameSession r (dh_ratchet r key).0
  unfolding dh_ratchet
  dh_ratchet-SameSession r key = ground arith

module _ ⦃p : Primitives⦄ ⦃header_json : Json RatchetMessageHeader⦄ where
  decrypt_at-SameSession :
      (r : DoubleRatchet) (chain : ChainKey) (payload : Bytes) (header : RatchetMessageHeader)
      → SameSession r (decrypt_at r chain payload header).0
  unfolding decrypt_at
  decrypt_at-SameSession r chain payload header = ground arith

  decrypt_fresh-SameSession :
      (r : DoubleRatchet) (payload : Bytes) (header : RatchetMessageHeader)
      → SameSession r (decrypt_fresh r payload header).0
  unfolding decrypt_fresh
  decrypt_fresh-SameSession r payload header = elim (Option-cases r.receiving_chain.chain_key) [
    | inl none_key ↦ rw none_key (refl, refl)
    | inr (chain, some_key) ↦
        let ((chain', skipped), result) =
          skip_loop (header.message_number - chain.index) chain
            r.receiving_chain.skipped_message_keys in
        ground (
          arith,
          some_key,
          decrypt_at-SameSession (with_receiving r chain' skipped) chain' payload header,
        )
  ]

  decrypt-SameSession :
      (r : DoubleRatchet) (payload : Bytes) (header : RatchetMessageHeader)
      → SameSession r (decrypt r payload header).0
  unfolding decrypt
  decrypt-SameSession r payload header = ground (arith, decrypt_fresh-SameSession r payload header)

module _ ⦃p : Primitives⦄ ⦃s : Signatures⦄ ⦃hash : Hash⦄ ⦃header_json : Json RatchetMessageHeader⦄
    ⦃json : Json HybridSignature⦄ where
  advance_ratchet-SameSession :
      (r : DoubleRatchet) (key : Bytes) → SameSession r (advance_ratchet r key).0
  unfolding advance_ratchet
  advance_ratchet-SameSession r key = ground (arith, dh_ratchet-SameSession r key)

  open_payload-SameSession :
      (r : DoubleRatchet) (payload : Bytes) (header : RatchetMessageHeader)
      → SameSession r (open_payload r payload header).0
  unfolding open_payload
  open_payload-SameSession r payload header =
      let (r', advanced) = advance_ratchet r header.dh_public_key in
      ground (
        arith,
        advance_ratchet-SameSession r header.dh_public_key,
        decrypt-SameSession r' payload header,
      )

  -- Reading a message changes nothing of a session but its ratchet.
  pub chat_decrypt_kept :
      (session : ChatSession) (envelope : NetworkEnvelope)
      → SameSession session.ratchet (chat_decrypt session envelope).0.ratchet
        × ((chat_decrypt session envelope).0
            ≡ with_ratchet session (chat_decrypt session envelope).0.ratchet)
  unfolding chat_decrypt
  chat_decrypt_kept session envelope = elim (Result-cases (parse_header envelope.nonce)) [
    | inr (e, unparsed) ↦ rw (chat_decrypt, unparsed) ((refl, refl), refl)
    | inl (header, parsed) ↦ elim (Result-cases (verify_envelope session.peer_identity envelope)) [
      | inr (e, failed) ↦ rw (chat_decrypt, parsed, failed) ((refl, refl), refl)
      | inl (false, refused) ↦ rw (chat_decrypt, parsed, refused) ((refl, refl), refl)
      | inl (true, accepted) ↦
          rw (chat_decrypt, parsed, accepted)
            (open_payload-SameSession session.ratchet envelope.encrypted_payload header, refl)
    ]
  ]
