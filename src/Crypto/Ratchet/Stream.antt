-- ===== src/Crypto/Ratchet/Stream.antt =====
-- The keys of one chain of ratchet.rs, as a stream: what `next` and `message_key` give when the
-- primitives keep their laws.
use presidium.Base.{refl, ℕ, zero, suc, ◌≡◌, ok, take, length, ◌≤◌, arith, ap}
use presidium.Base.Words.{IsU64, wrapping_suc}
use presidium.Crypto.Constants.{
  Bytes, message_key_size, chain_key_size, message_key_info, chain_key_info,
}
use presidium.Crypto.Primitives.{Primitives, PrimitiveLaws, Json, JsonLaws, aead_limit}
use presidium.Crypto.Ratchet.{
  ChainKey, RatchetMessageHeader, message_nonce, hmac_sha256, message_key, next,
}
use presidium.Crypto.Ratchet.Messages.{step_chain, seal_message, open_message}

module _ ⦃p : Primitives⦄ (laws : PrimitiveLaws p) where
  -- The chain key that follows a chain key, and the message key that it gives.
  pub next_key : Bytes → Bytes
  next_key key = take chain_key_size (laws.mac key chain_key_info)

  pub message_key_of : Bytes → Bytes
  message_key_of key = take message_key_size (laws.mac key message_key_info)

  -- The chain key and the message key of each index of the chain that starts at `start`.
  pub chain_key_at : Bytes → ℕ → Bytes
  chain_key_at start zero = start
  chain_key_at start (suc n) = next_key (chain_key_at start n)

  pub message_key_at : Bytes → ℕ → Bytes
  message_key_at start n = message_key_of (chain_key_at start n)

  abbrev pub chain_at : Bytes → ℕ → ChainKey
  chain_at start n = record { key = chain_key_at start n; index = n }

  pub chain_at-zero : (start : Bytes) → chain_at start 0 ≡ record { key = start; index = 0 }
  unfolding chain_key_at
  chain_at-zero start = refl

  pub message_key_lem :
      (start : Bytes) (n : ℕ)
      → message_key (chain_at start n) ≡ ok (record { key = message_key_at start n; index = n })
  unfolding message_key hmac_sha256 message_key_at message_key_of
  message_key_lem start n = rw (laws.hmac_mac (chain_key_at start n) message_key_info)

  pub next_lem :
      (start : Bytes) (n : ℕ)
      → IsU64 (suc n)
      → next (chain_at start n) ≡ ok (chain_at start (suc n))
  unfolding next hmac_sha256 chain_key_at next_key wrapping_suc
  next_lem start n h = rw (laws.hmac_mac (chain_key_at start n) chain_key_info) (
      ap (λ (i : ℕ). ok (record { key = next_key (chain_key_at start n); index = i }))
        (omega arith))

  pub step_chain_lem :
      (start : Bytes) (n : ℕ)
      → IsU64 (suc n)
      → step_chain (chain_at start n)
        ≡ ok (record { key = message_key_at start n; index = n }, chain_at start (suc n))
  unfolding step_chain
  step_chain_lem start n h = rw (message_key_lem start n) (rw (next_lem start n h))

module _ ⦃p : Primitives⦄ ⦃json : Json RatchetMessageHeader⦄ (laws : PrimitiveLaws p)
    (json_laws : JsonLaws json) where
  -- The ciphertext of a message that fits the cipher.
  pub sealed : Bytes → RatchetMessageHeader → Bytes → Bytes
  sealed key header plaintext =
      laws.seal key (message_nonce header.message_number) (json_laws.text header) plaintext

  pub seal_message_lem :
      (key : Bytes) (header : RatchetMessageHeader) (plaintext : Bytes)
      → length plaintext ≤ aead_limit
      → seal_message (record { key = key; index = header.message_number }) header plaintext
        ≡ ok (sealed key header plaintext)
  unfolding seal_message sealed
  seal_message_lem key header plaintext fits = rw (json_laws.to_vec_text header) (
      rw (
        laws.aead_seal key (message_nonce header.message_number) (json_laws.text header) plaintext
          fits))

  -- What was sealed under a key is opened under it.
  pub open_message-sealed :
      (key : Bytes) (header : RatchetMessageHeader) (plaintext : Bytes)
      → length plaintext ≤ aead_limit
      → open_message key header (sealed key header plaintext) ≡ ok plaintext
  unfolding open_message sealed
  open_message-sealed key header plaintext fits = rw (json_laws.to_vec_text header) (
      rw (
        laws.aead_open key (message_nonce header.message_number) (json_laws.text header) plaintext
          fits))
