-- ===== src/Crypto/Pqxdh.antt =====
-- presidium-crypto/src/pqxdh.rs: the hybrid key agreement of a first message.
pub mod Legs
pub mod Agreement
pub mod Initial
mod Examples
use presidium.Base.{
  ℕ, Bool, true, false, not, Option, none, some, List, [], ◌∷◌, ◌++◌, ok, err, ◌>>=◌, ok_or, length,
  take, drop, ltb, ◌==◌, if◌then◌else◌,
}
use presidium.Crypto.Constants.{
  Bytes, ascii, root_key_size, chain_key_size, chacha20_poly1305_nonce_size,
}
use presidium.Crypto.Error.{
  CryptoResult, pqxdh_error, key_derivation_failed, encryption_failed, decryption_failed,
  invalid_message,
}
use presidium.Crypto.Primitives.{Primitives, Signatures, Kem}
use presidium.Crypto.Identity.{
  IdentityKeyPair, IdentityPublicKey, HybridKemPrivateKey, HybridKemPublicKey, OneTimePreKey,
  PreKeyBundle, public, kem_secret, public_key, encapsulate, decapsulate,
}
use presidium.Crypto.Identity.Prekeys.{verify_bundle}

pub record PqxdhOutput : Type 0 where
  pub shared_secret : Bytes
  pub ephemeral_public : HybridKemPublicKey
  pub signed_prekey_id : ℕ
  pub one_time_prekey_id : Option ℕ

pub record PqxdhInitiatorKeys : Type 0 where
  pub identity : IdentityKeyPair
  pub ephemeral : HybridKemPrivateKey
  pub peer_bundle : PreKeyBundle

pub record PqxdhResponderKeys : Type 0 where
  pub identity : IdentityKeyPair
  pub signed_prekey : HybridKemPrivateKey
  pub signed_prekey_id : ℕ
  pub one_time_prekey : Option HybridKemPrivateKey
  pub one_time_prekey_id : Option ℕ

pub record PqxdhPrekeyMessage : Type 0 where
  pub identity_public : IdentityPublicKey
  pub identity_kem_public : HybridKemPublicKey
  pub ephemeral_public : HybridKemPublicKey
  pub ciphertexts : Bytes × Bytes × Bytes × Bytes
  pub one_time_ciphertext : Option Bytes
  pub signed_prekey_id : ℕ
  pub one_time_prekey_id : Option ℕ

-- The optional one-time leg: the shared secret, the ciphertext and the id of the prekey.
abbrev pub OneTimeLeg : Type 0
OneTimeLeg = Option Bytes × Option Bytes × Option ℕ

-- `derive_master_secret`.
unfoldable pub derive_master_secret :
    ⦃p : Primitives⦄ → Bytes → Bytes → Bytes → Bytes → Option Bytes → CryptoResult Bytes
derive_master_secret ⦃p⦄ dh1 dh2 dh3 dh4 none =
    ok_or (p.hkdf_expand none (dh1 ++ (dh2 ++ (dh3 ++ dh4))) (ascii "PQXDH-MASTER") 32)
      (key_derivation_failed "PQXDH master secret derivation failed")
derive_master_secret ⦃p⦄ dh1 dh2 dh3 dh4 (some dh5) =
    ok_or (p.hkdf_expand none (dh1 ++ (dh2 ++ (dh3 ++ (dh4 ++ dh5)))) (ascii "PQXDH-MASTER") 32)
      (key_derivation_failed "PQXDH master secret derivation failed")

-- `pqxdh_derive_keys`.
unfoldable pub pqxdh_derive_keys : ⦃p : Primitives⦄ → PqxdhOutput → CryptoResult (Bytes × Bytes)
pqxdh_derive_keys ⦃p⦄ output = do
  root_key ←
      ok_or (p.hkdf_expand none output.shared_secret (ascii "ROOT_KEY") root_key_size)
        (key_derivation_failed "Root key derivation failed")
  sending_chain ←
      ok_or (p.hkdf_expand none output.shared_secret (ascii "SENDING_CHAIN") chain_key_size)
        (key_derivation_failed "Sending chain derivation failed")
  ok (root_key, sending_chain)

module _ ⦃p : Primitives⦄ ⦃k : Kem⦄ where
  -- `hybrid_dh`.
  unfoldable pub hybrid_dh :
      HybridKemPrivateKey → HybridKemPublicKey → Option Bytes → CryptoResult Bytes
  hybrid_dh our_key peer_public ciphertext = do
    ct ← ok_or ciphertext (pqxdh_error "Ciphertext required for decapsulation")
    decapsulate our_key ct peer_public

  -- `hybrid_encaps`: the shared secret, then the ciphertext.
  unfoldable pub hybrid_encaps :
      Bytes → HybridKemPrivateKey → HybridKemPublicKey → CryptoResult (Bytes × Bytes)
  hybrid_encaps random our_key peer_public = do
    encapsulated ← encapsulate random our_key peer_public
    let (ciphertext, shared) = encapsulated
    ok (shared, ciphertext)

  -- DH5 of `pqxdh_initiator`: with the first one-time prekey of the bundle, where there is one.
  unfoldable pub initiator_one_time :
      Bytes → HybridKemPrivateKey → List OneTimePreKey → CryptoResult OneTimeLeg
  initiator_one_time random ephemeral [] = ok (none, none, none)
  initiator_one_time random ephemeral (otpk ∷ rest) = do
    leg ← hybrid_encaps random ephemeral otpk.public_key
    let (dh5, ct5) = leg
    ok (some dh5, some ct5, some otpk.key_id)

  -- DH5 of `pqxdh_responder`.
  unfoldable pub responder_one_time :
      Option HybridKemPrivateKey → HybridKemPublicKey → Option Bytes → CryptoResult (Option Bytes)
  responder_one_time (some opk) ephemeral_public (some ct) = do
    dh5 ← hybrid_dh opk ephemeral_public (some ct)
    ok (some dh5)
  responder_one_time (some opk) ephemeral_public none = ok none
  responder_one_time none ephemeral_public ciphertext = ok none

-- The check of the message's one-time prekey against the key held.
unfoldable pub select_one_time :
    Option HybridKemPrivateKey → Option ℕ → Option ℕ → CryptoResult (Option HybridKemPrivateKey)
select_one_time (some opk) (some held) (some id) =
    if id == held then ok (some opk) else err (pqxdh_error "Unknown one-time prekey ID")
select_one_time (some opk) none (some id) = err (pqxdh_error "Unknown one-time prekey ID")
select_one_time (some opk) held none = err (pqxdh_error "Unknown one-time prekey ID")
select_one_time none held none = ok none
select_one_time none held (some id) = err (pqxdh_error "Unknown one-time prekey ID")

module _ ⦃p : Primitives⦄ ⦃s : Signatures⦄ ⦃k : Kem⦄ where
  -- `pqxdh_initiator`. The random bytes of leg i are `random i`.
  unfoldable pub pqxdh_initiator :
      (ℕ → Bytes) → PqxdhInitiatorKeys → CryptoResult (PqxdhOutput × PqxdhPrekeyMessage)
  pqxdh_initiator random keys = do
    verified ← verify_bundle keys.peer_bundle
    identity_kem ← kem_secret keys.identity
    leg1 ← hybrid_encaps (random 1) keys.ephemeral keys.peer_bundle.signed_prekey.public_key
    leg2 ← hybrid_encaps (random 2) identity_kem keys.peer_bundle.signed_prekey.public_key
    leg3 ← hybrid_encaps (random 3) keys.ephemeral keys.peer_bundle.identity_kem_public
    leg4 ← hybrid_encaps (random 4) identity_kem keys.peer_bundle.identity_kem_public
    leg5 ← initiator_one_time (random 5) keys.ephemeral keys.peer_bundle.one_time_prekeys
    let (dh1, ct1) = leg1
    let (dh2, ct2) = leg2
    let (dh3, ct3) = leg3
    let (dh4, ct4) = leg4
    let (dh5, ct5, dh5_id) = leg5
    shared_secret ← derive_master_secret dh1 dh2 dh3 dh4 dh5
    ok (
      record {
        shared_secret = shared_secret;
        ephemeral_public = public_key keys.ephemeral;
        signed_prekey_id = keys.peer_bundle.signed_prekey.key_id;
        one_time_prekey_id = dh5_id;
      },
      record {
        identity_public = public keys.identity;
        identity_kem_public = public_key identity_kem;
        ephemeral_public = public_key keys.ephemeral;
        ciphertexts = (ct1, ct2, ct3, ct4);
        one_time_ciphertext = ct5;
        signed_prekey_id = keys.peer_bundle.signed_prekey.key_id;
        one_time_prekey_id = dh5_id;
      },
    )

module _ ⦃p : Primitives⦄ ⦃k : Kem⦄ where
  unfoldable pub pqxdh_responder :
      PqxdhResponderKeys → PqxdhPrekeyMessage → CryptoResult PqxdhOutput
  pqxdh_responder keys message =
      if not (message.signed_prekey_id == keys.signed_prekey_id)
      then err (pqxdh_error "Unknown signed prekey ID")
      else do
        one_time_prekey ←
            select_one_time keys.one_time_prekey keys.one_time_prekey_id message.one_time_prekey_id
        identity_kem ← kem_secret keys.identity
        let (ct1, ct2, ct3, ct4) = message.ciphertexts
        dh1 ← hybrid_dh keys.signed_prekey message.ephemeral_public (some ct1)
        dh2 ← hybrid_dh keys.signed_prekey message.identity_kem_public (some ct2)
        dh3 ← hybrid_dh identity_kem message.ephemeral_public (some ct3)
        dh4 ← hybrid_dh identity_kem message.identity_kem_public (some ct4)
        dh5 ←
            responder_one_time one_time_prekey message.ephemeral_public message.one_time_ciphertext
        shared_secret ← derive_master_secret dh1 dh2 dh3 dh4 dh5
        ok (record {
          shared_secret = shared_secret;
          ephemeral_public = message.ephemeral_public;
          signed_prekey_id = message.signed_prekey_id;
          one_time_prekey_id = message.one_time_prekey_id;
        })

module _ ⦃p : Primitives⦄ where
  -- `pqxdh_encrypt_initial`, with the nonce that it draws.
  unfoldable pub pqxdh_encrypt_initial : Bytes → Bytes → Bytes → Bytes → CryptoResult Bytes
  pqxdh_encrypt_initial nonce shared_secret plaintext associated_data = do
    ciphertext ←
        ok_or (p.aead_encrypt shared_secret nonce associated_data plaintext)
          (encryption_failed "Initial message encryption failed")
    ok (nonce ++ ciphertext)

  unfoldable pub pqxdh_decrypt_initial : Bytes → Bytes → Bytes → CryptoResult Bytes
  pqxdh_decrypt_initial shared_secret message associated_data =
      if ltb (length message) chacha20_poly1305_nonce_size
      then err (invalid_message "Message too short")
      else ok_or
          (p.aead_decrypt shared_secret (take chacha20_poly1305_nonce_size message) associated_data
            (drop chacha20_poly1305_nonce_size message))
          decryption_failed
