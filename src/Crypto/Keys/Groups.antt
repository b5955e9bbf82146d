-- ===== src/Crypto/Keys/Groups.antt =====
-- keys.rs, `SenderKeys`: a sender and a receiver of a group that step the same chain.
use presidium.Base.{
  ℕ, suc, ◌+◌, ◌≤◌, ◌≡◌, refl, ap, ok, err, List, [], ◌∷◌, map, length, All, arith, take, ◌∙◌,
}
use presidium.Base.Words.{IsU64, saturating_suc}
use presidium.Crypto.Constants.{Bytes, ascii, chain_key_size, message_key_size, message_key_info}
use presidium.Crypto.Error.{CryptoResult}
use presidium.Crypto.Primitives.{Primitives, PrimitiveLaws, aead_limit}
use presidium.Crypto.Keys.{SenderKeys, encrypt, decrypt, advance, index_nonce}

module _ ⦃p : Primitives⦄ where
  -- What a receiver does with each message of the sender, in order: `decrypt` with its index, and
  -- `advance` after a success. A failure leaves the keys as they were.
  abbrev advanced : SenderKeys → CryptoResult SenderKeys → SenderKeys
  advanced s (ok s') = s'
  advanced s (err e) = s

  pub receive : SenderKeys → Bytes → ℕ → Bytes → SenderKeys × CryptoResult Bytes
  receive s ciphertext index associated_data = elim (decrypt s ciphertext index associated_data) [
    | err e ↦ (s, err e)
    | ok plaintext ↦ elim (advance s) [ err e ↦ (s, err e) | ok s' ↦ (s', ok plaintext) ]
  ]

  -- The sender encrypts plaintexts one after the other, and the receiver gets each in turn.
  pub exchange :
      SenderKeys
      → SenderKeys
      → Bytes
      → List Bytes
      → (SenderKeys × SenderKeys) × List (CryptoResult Bytes)
  exchange s r ad [] = ((s, r), [])
  exchange s r ad (plaintext ∷ rest) =
      let (s', sent) = encrypt s plaintext ad in
      elim sent [
        | err e ↦ ((s', r), err e ∷ [])
        | ok ciphertext ↦
            let (r', received) = receive r ciphertext s.message_index ad in
            let (last, results) = exchange s' r' ad rest in (last, received ∷ results)
      ]

module _ ⦃p : Primitives⦄ (laws : PrimitiveLaws p) (ad : Bytes) where
  pub next_chain : Bytes → Bytes
  next_chain key = take chain_key_size (laws.mac key (ascii "presidium-sender-advance"))

  pub sender_key : Bytes → Bytes
  sender_key key = take message_key_size (laws.mac key message_key_info)

  pub encrypt_lem :
      (s : SenderKeys) (plaintext : Bytes)
      → IsU64 (suc s.message_index)
      → length plaintext ≤ aead_limit
      → encrypt s plaintext ad ≡ (
        record s { chain_key = next_chain s.chain_key; message_index = suc s.message_index },
        ok (laws.seal (sender_key s.chain_key) (index_nonce s.message_index) ad plaintext),
      )
  unfolding encrypt next_chain sender_key
  encrypt_lem s plaintext u fits = ground (
    arith,
    laws.hmac_mac s.chain_key message_key_info,
    laws.hmac_mac s.chain_key (ascii "presidium-sender-advance"),
    laws.aead_seal (take message_key_size (laws.mac s.chain_key message_key_info))
        (index_nonce s.message_index) ad plaintext fits,
  )

  pub decrypt_lem :
      (r : SenderKeys) (key plaintext : Bytes) (index : ℕ)
      → r.chain_key ≡ key
      → length plaintext ≤ aead_limit
      → decrypt r (laws.seal (sender_key key) (index_nonce index) ad plaintext) index ad
        ≡ ok plaintext
  unfolding decrypt sender_key
  decrypt_lem r key plaintext index same fits = ground (
    arith,
    laws.hmac_mac key message_key_info,
    laws.aead_open (take message_key_size (laws.mac key message_key_info)) (index_nonce index) ad
        plaintext fits,
  )

  pub advance_lem :
      (r : SenderKeys)
      → advance r
        ≡ ok (record r {
          chain_key = next_chain r.chain_key;
          message_index = saturating_suc r.message_index;
        })
  unfolding advance next_chain
  advance_lem r = rw (laws.hmac_mac r.chain_key (ascii "presidium-sender-advance"))

  receive_lem :
      (r : SenderKeys) (key plaintext : Bytes) (index : ℕ)
      → r.chain_key ≡ key
      → length plaintext ≤ aead_limit
      → receive r (laws.seal (sender_key key) (index_nonce index) ad plaintext) index ad ≡ (
        record r {
          chain_key = next_chain r.chain_key;
          message_index = saturating_suc r.message_index;
        },
        ok plaintext,
      )
  unfolding receive
  receive_lem r key plaintext index same fits =
      ground (arith, decrypt_lem r key plaintext index same fits, advance_lem r)

  -- One message from a sender to a receiver with the same chain key: it is decrypted, and the two
  -- chain keys are equal again.
  step_lem :
      (s r : SenderKeys) (x : Bytes) (xs : List Bytes)
      → r.chain_key ≡ s.chain_key
      → IsU64 (suc s.message_index)
      → length x ≤ aead_limit
      → exchange s r ad (x ∷ xs) ≡ (
          let (last, results) =
            exchange
              (record s { chain_key = next_chain s.chain_key; message_index = suc s.message_index })
              (record r {
                chain_key = next_chain r.chain_key;
                message_index = saturating_suc r.message_index;
              })
              ad
              xs in
          (last, ok x ∷ results))
  unfolding exchange
  step_lem s r x xs same u fits =
      ground (arith, encrypt_lem s x u fits, receive_lem r s.chain_key x s.message_index same fits)

  -- Every plaintext that the sender encrypts is decrypted by a receiver that starts from the same
  -- chain key and gets the messages in order, and at the end the two have the same chain key and
  -- the same index.
  pub exchange_in_order :
      (s r : SenderKeys) (plaintexts : List Bytes)
      → r.chain_key ≡ s.chain_key
      → r.message_index ≡ s.message_index
      → IsU64 (s.message_index + length plaintexts)
      → All (λ x. length x ≤ aead_limit) plaintexts
      → (s' r' : SenderKeys) × (exchange s r ad plaintexts ≡ ((s', r'), map ok plaintexts))
        × (r'.chain_key ≡ s'.chain_key)
        × (r'.message_index ≡ s'.message_index)
        × (s'.message_index ≡ s.message_index + length plaintexts)
  exchange_in_order s r [] same at u fits = (s, r, unfold exchange in refl, same, at, omega arith)
  exchange_in_order s r (x ∷ xs) same at u fits =
      let s₁ = record s {
        chain_key = next_chain s.chain_key;
        message_index = suc s.message_index;
      } in
      let r₁ = record r {
        chain_key = next_chain r.chain_key;
        message_index = saturating_suc r.message_index;
      } in
      let (s', r', e, same', at', total) =
        exchange_in_order s₁ r₁ xs (ap next_chain same) (stepped r s at u) (omega arith) fits.1 in
      (s', r', step_lem s r x xs same (omega arith) fits.0 ∙ rw e, same', at', omega arith)
    where
      stepped :
          (r s : SenderKeys)
          → r.message_index ≡ s.message_index
          → IsU64 (s.message_index + length (x ∷ xs))
          → saturating_suc r.message_index ≡ suc s.message_index
      stepped r s at u = unfold saturating_suc in ground arith
