-- ===== src/Crypto/Ratchet/Delivery.antt =====
-- Messages of one chain of ratchet.rs on their way from `encrypt` to `decrypt`.
use presidium.Base.{ℕ, suc, ◌+◌, ◌-◌, ◌≤◌, ◌≡◌, some, none, ok, ◌++◌, length, arith}
use presidium.Base.Words.{IsU64}
use presidium.Crypto.Constants.{Bytes, max_skip_messages}
use presidium.Crypto.Primitives.{Primitives, PrimitiveLaws, Json, JsonLaws, aead_limit}
use presidium.Crypto.Ratchet.{RatchetMessageHeader, DoubleRatchet, find_skipped}
use presidium.Crypto.Ratchet.Messages.{
  with_sending, with_receiving, header_of, encrypt, decrypt, open_message,
}
use presidium.Crypto.Ratchet.Stream.{
  chain_at, message_key_at, step_chain_lem, sealed, seal_message_lem,
}
use presidium.Crypto.Ratchet.Skipping.{keys_from, skip_loop_room}

module _ ⦃p : Primitives⦄ ⦃json : Json RatchetMessageHeader⦄ (laws : PrimitiveLaws p)
    (json_laws : JsonLaws json) where
  -- `encrypt` on a chain at index `n`: the message carries the number `n`, its ciphertext is sealed
  -- under that index's key, and the chain moves on by one.
  pub encrypt_lem :
      (r : DoubleRatchet) (start : Bytes) (n : ℕ) (plaintext : Bytes)
      → r.sending_chain.chain_key ≡ some (chain_at laws start n)
      → IsU64 (suc n)
      → length plaintext ≤ aead_limit
      → encrypt r plaintext ≡ (
        with_sending r (chain_at laws start (suc n)),
        ok (
          sealed laws json_laws (message_key_at laws start n) (header_of r n) plaintext,
          header_of r n,
        ),
      )
  unfolding encrypt
  encrypt_lem r start n plaintext e u fits = ground (
    arith,
    step_chain_lem laws start n u,
    seal_message_lem laws json_laws (message_key_at laws start n) (header_of r n) plaintext fits,
  )

  -- `decrypt` where the receiving chain stands at index `m`, for a later message: the keys of the
  -- messages in between are stored.
  pub decrypt_ahead :
      (r : DoubleRatchet) (start : Bytes) (m : ℕ) (header : RatchetMessageHeader)
      (ciphertext : Bytes)
      → r.receiving_chain.chain_key ≡ some (chain_at laws start m)
      → find_skipped header.message_number r.receiving_chain.skipped_message_keys ≡ none
      → m ≤ header.message_number
      → IsU64 (suc header.message_number)
      → length r.receiving_chain.skipped_message_keys + (header.message_number - m)
        ≤ max_skip_messages
      → decrypt r ciphertext header ≡ (
        with_receiving r (chain_at laws start (suc header.message_number)) (
            r.receiving_chain.skipped_message_keys
            ++ keys_from laws start m (header.message_number - m)),
        open_message (message_key_at laws start header.message_number) header ciphertext,
      )
  unfolding decrypt
  decrypt_ahead r start m header ciphertext e missing le u room = ground (
    arith,
    skip_loop_room laws start (header.message_number - m) m header.message_number
        r.receiving_chain.skipped_message_keys (omega arith) (omega arith) room,
    step_chain_lem laws start header.message_number u,
  )

  -- `decrypt` of a message whose key is stored.
  pub decrypt_stored :
      (r : DoubleRatchet) (header : RatchetMessageHeader) (ciphertext key : Bytes)
      → find_skipped header.message_number r.receiving_chain.skipped_message_keys ≡ some key
      → decrypt r ciphertext header ≡ (r, open_message key header ciphertext)
  unfolding decrypt
  decrypt_stored r header ciphertext key e = rw (e, decrypt)
