-- ===== src/Crypto/CryptoBox.antt =====
-- presidium-crypto/src/crypto_box.rs: an envelope sealed to a public key.
use presidium.Base.{◌≡◌, ◌≤◌, some, ok, ◌>>=◌, ok_or, length, arith}
use presidium.Crypto.Constants.{Bytes, ascii, chacha20_poly1305_key_size}
use presidium.Crypto.Error.{
  CryptoResult, from_json, key_derivation_failed, encryption_failed, decryption_failed,
}
use presidium.Crypto.Primitives.{Primitives, PrimitiveLaws, Json, JsonLaws, aead_limit}

pub record CryptoBox : Type 0 where
  pub ephemeral_public : Bytes
  pub nonce : Bytes
  pub ciphertext : Bytes

module _ ⦃p : Primitives⦄ where
  -- The key that both sides expand from the shared secret.
  unfoldable pub box_key : Bytes → CryptoResult Bytes
  box_key shared =
      ok_or
        (p.hkdf_expand (some (ascii "presidium-cryptobox")) shared (ascii "sealed-key")
          chacha20_poly1305_key_size)
        (key_derivation_failed "CryptoBox key derivation failed")

  -- `CryptoBox::seal`, with the ephemeral secret and the nonce that it draws.
  unfoldable pub seal_box : Bytes → Bytes → Bytes → Bytes → CryptoResult CryptoBox
  unfolding box_key
  seal_box ephemeral_secret nonce recipient_public plaintext = do
    key ← box_key (p.diffie_hellman ephemeral_secret recipient_public)
    ciphertext ←
        ok_or (p.aead_encrypt key nonce (p.x25519_public ephemeral_secret) plaintext)
          (encryption_failed "CryptoBox seal failed")
    ok (record {
      ephemeral_public = p.x25519_public ephemeral_secret;
      nonce = nonce;
      ciphertext = ciphertext;
    })

  -- `CryptoBox::open`.
  unfoldable pub open_box : CryptoBox → Bytes → CryptoResult Bytes
  unfolding box_key
  open_box box recipient_secret = do
    key ← box_key (p.diffie_hellman recipient_secret box.ephemeral_public)
    ok_or (p.aead_decrypt key box.nonce box.ephemeral_public box.ciphertext) decryption_failed

  unfoldable pub crypto_box_seal :
      ⦃json : Json CryptoBox⦄ → Bytes → Bytes → Bytes → Bytes → CryptoResult Bytes
  crypto_box_seal ⦃json⦄ ephemeral_secret nonce recipient_public plaintext = do
    boxed ← seal_box ephemeral_secret nonce recipient_public plaintext
    from_json (json.to_vec boxed)

  unfoldable pub crypto_box_open : ⦃json : Json CryptoBox⦄ → Bytes → Bytes → CryptoResult Bytes
  crypto_box_open ⦃json⦄ recipient_secret msg = do
    boxed ← from_json (json.from_slice msg)
    open_box boxed recipient_secret

-- What is sealed to a public key, its secret opens: the sealed message is read back whole.
crypto_box_open-crypto_box_seal :
    ⦃p : Primitives⦄ ⦃json : Json CryptoBox⦄ (laws : PrimitiveLaws p) (json_laws : JsonLaws json)
    (ephemeral nonce recipient plaintext : Bytes)
    → length plaintext ≤ aead_limit
    → (msg : Bytes) × (crypto_box_seal ephemeral nonce (p.x25519_public recipient) plaintext
        ≡ ok msg)
      × (crypto_box_open recipient msg ≡ ok plaintext)
unfolding crypto_box_seal crypto_box_open seal_box open_box box_key
crypto_box_open-crypto_box_seal ⦃p⦄ laws json_laws ephemeral nonce recipient plaintext h =
    let shared : Bytes = p.diffie_hellman ephemeral (p.x25519_public recipient) in
    let key : Bytes =
      laws.kdf (some (ascii "presidium-cryptobox")) shared (ascii "sealed-key") 32 in
    let public : Bytes = p.x25519_public ephemeral in
    let box : CryptoBox = record {
      ephemeral_public = public;
      nonce = nonce;
      ciphertext = laws.seal key nonce public plaintext;
    } in
    let derived =
      laws.hkdf_kdf (some (ascii "presidium-cryptobox")) shared (ascii "sealed-key") 32
        (omega arith) in
    (
      json_laws.text box,
      rw (derived, laws.aead_seal key nonce public plaintext h, json_laws.to_vec_text box),
      rw (
        json_laws.from_slice_text box,
        ← laws.dh_comm ephemeral recipient,
        derived,
        laws.aead_open key nonce public plaintext h,
      ),
    )
