-- ===== src/Crypto/Keys/Media.antt =====
-- keys.rs, `MediaKey`, and the nonces of the crate.
use presidium.Base.{
  ℕ, ◌≤◌, ◌≡◌, refl, sym, ap, ◌∙◌, ok, ◌++◌, length, arith, replicate, ◌⊎◌, inl, inr, append_split,
}
use presidium.Base.Words.{IsU64, to_le, to_be, from_le, from_be, from_le-to_le, from_be-to_be}
use presidium.Crypto.Constants.{Bytes, ascii}
use presidium.Crypto.Primitives.{Primitives, PrimitiveLaws, aead_limit}
use presidium.Crypto.Ratchet.{message_nonce}
use presidium.Crypto.Keys.{MediaKey, encrypt_chunk, decrypt_chunk, index_nonce, chunk_nonce}

module _ ⦃p : Primitives⦄ (laws : PrimitiveLaws p) where
  -- Every chunk that fits the cipher is encrypted, and decrypted under the same key and index.
  decrypt_chunk-encrypt_chunk :
      (key : MediaKey) (chunk : Bytes) (index : ℕ)
      → length chunk ≤ aead_limit
      → (sealed : Bytes) × (encrypt_chunk key chunk index ≡ ok sealed)
        × (decrypt_chunk key sealed index ≡ ok chunk)
  unfolding encrypt_chunk decrypt_chunk
  decrypt_chunk-encrypt_chunk key chunk index fits = (
    laws.seal key.key (chunk_nonce index) (ascii "presidium-media") chunk,
    rw (laws.aead_seal key.key (chunk_nonce index) (ascii "presidium-media") chunk fits),
    rw (laws.aead_open key.key (chunk_nonce index) (ascii "presidium-media") chunk fits),
  )

to_le-injective : (i j : ℕ) → IsU64 i → IsU64 j → to_le 8 i ≡ to_le 8 j → i ≡ j
to_le-injective i j hi hj e =
    sym (from_le-to_le 8 i (omega arith)) ∙ ap from_le e ∙ from_le-to_le 8 j (omega arith)

to_be-injective : (i j : ℕ) → IsU64 i → IsU64 j → to_be 8 i ≡ to_be 8 j → i ≡ j
to_be-injective i j hi hj e =
    sym (from_be-to_be 8 i (omega arith)) ∙ ap from_be e ∙ from_be-to_be 8 j (omega arith)

after_zeros : (xs ys : Bytes) → replicate 4 0 ++ xs ≡ replicate 4 0 ++ ys → xs ≡ ys
after_zeros xs ys e = (append_split 4 (replicate 4 0) (replicate 4 0) xs ys refl refl e).1

message_nonce-injective : (i j : ℕ) → IsU64 i → IsU64 j → message_nonce i ≡ message_nonce j → i ≡ j
unfolding message_nonce
message_nonce-injective i j hi hj e =
    to_le-injective i j hi hj (after_zeros (to_le 8 i) (to_le 8 j) e)

index_nonce-injective : (i j : ℕ) → IsU64 i → IsU64 j → index_nonce i ≡ index_nonce j → i ≡ j
unfolding index_nonce
index_nonce-injective i j hi hj e =
    to_le-injective i j hi hj (after_zeros (to_le 8 i) (to_le 8 j) e)

chunk_nonce-injective : (i j : ℕ) → IsU64 i → IsU64 j → chunk_nonce i ≡ chunk_nonce j → i ≡ j
unfolding chunk_nonce
chunk_nonce-injective i j hi hj e =
    to_be-injective i j hi hj (after_zeros (to_be 8 i) (to_be 8 j) e)

-- Under one key no two indices of the u64 range share a nonce: of ratchet messages, of sender key
-- messages, or of media chunks.
pub nonces_injective :
    (i j : ℕ)
    → IsU64 i
    → IsU64 j
    → (message_nonce i ≡ message_nonce j)
      ⊎ (index_nonce i ≡ index_nonce j)
      ⊎ (chunk_nonce i ≡ chunk_nonce j)
    → i ≡ j
nonces_injective i j hi hj (inl e) = message_nonce-injective i j hi hj e
nonces_injective i j hi hj (inr (inl e)) = index_nonce-injective i j hi hj e
nonces_injective i j hi hj (inr (inr e)) = chunk_nonce-injective i j hi hj e
