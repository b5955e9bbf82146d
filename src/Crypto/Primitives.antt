-- ===== src/Crypto/Primitives.antt =====
-- The cryptographic crates that presidium-crypto calls (x25519-dalek, hkdf, hmac, chacha20poly1305)
-- and serde_json, none of which is part of the repository. Their operations are parameters of the
-- model; what the code relies on is stated as laws.
use presidium.Base.{Bool, true, ℕ, ◌≤◌, String, ◌≡◌, Option, some, Result, ok, length}
use presidium.Crypto.Constants.{Bytes}

pub record Primitives : Type 0 where
  -- `PublicKey::from(&secret)` and `secret.diffie_hellman(&public)` of x25519-dalek.
  pub x25519_public : Bytes → Bytes
  pub diffie_hellman : Bytes → Bytes → Bytes
  -- `Hkdf::<Sha256>::new(salt, ikm).expand(info, out)`, with the length of `out`.
  pub hkdf_expand : Option Bytes → Bytes → Bytes → ℕ → Option Bytes
  -- `Hmac::<Sha256>::new_from_slice(key)`, `update(data)`, `finalize()`.
  pub hmac : Bytes → Bytes → Option Bytes
  -- ChaCha20-Poly1305: key, nonce, associated data, message.
  pub aead_encrypt : Bytes → Bytes → Bytes → Bytes → Option Bytes
  pub aead_decrypt : Bytes → Bytes → Bytes → Bytes → Option Bytes

-- The longest output of HKDF-SHA256, and the longest message of ChaCha20-Poly1305.
abbrev pub hkdf_limit : ℕ
hkdf_limit = 8160

abbrev pub aead_limit : ℕ
aead_limit = 274877906880

-- Documented behaviour: Diffie-Hellman agrees, HMAC takes keys of every length, HKDF expands up to
-- its limit, and the cipher opens what it sealed.
pub record PrimitiveLaws (p : Primitives) : Type 0 where
  pub dh_comm :
      (a b : Bytes)
      → p.diffie_hellman a (p.x25519_public b) ≡ p.diffie_hellman b (p.x25519_public a)
  pub mac : Bytes → Bytes → Bytes
  pub hmac_mac : (key info : Bytes) → p.hmac key info ≡ some (mac key info)
  pub kdf : Option Bytes → Bytes → Bytes → ℕ → Bytes
  pub hkdf_kdf :
      (salt : Option Bytes) (ikm info : Bytes) (n : ℕ)
      → n ≤ hkdf_limit
      → p.hkdf_expand salt ikm info n ≡ some (kdf salt ikm info n)
  pub seal : Bytes → Bytes → Bytes → Bytes → Bytes
  pub aead_seal :
      (key nonce aad msg : Bytes)
      → length msg ≤ aead_limit
      → p.aead_encrypt key nonce aad msg ≡ some (seal key nonce aad msg)
  pub aead_open :
      (key nonce aad msg : Bytes)
      → length msg ≤ aead_limit
      → p.aead_decrypt key nonce aad (seal key nonce aad msg) ≡ some msg

-- `serde_json::to_vec` and `serde_json::from_slice` at a type; an error is given by its text.
pub record Json (A : Type 0) : Type 0 where
  pub to_vec : A → Result String Bytes
  pub from_slice : Bytes → Result String A

-- Documented behaviour for the structs of the crate: they are written, and read back the same.
pub record JsonLaws {A : Type 0} (j : Json A) : Type 0 where
  pub text : A → Bytes
  pub to_vec_text : (a : A) → j.to_vec a ≡ ok (text a)
  pub from_slice_text : (a : A) → j.from_slice (text a) ≡ ok a

-- ed25519-dalek and ml-dsa. A signing key is its 32-byte seed.
pub record Signatures : Type 0 where
  pub ed25519_public : Bytes → Bytes
  pub ed25519_sign : Bytes → Bytes → Bytes
  -- `VerifyingKey::from_bytes` accepts the key; `verify` accepts a signature of a message.
  pub ed25519_key_valid : Bytes → Bool
  pub ed25519_verify : Bytes → Bytes → Bytes → Bool
  pub ml_dsa_public : Bytes → Bytes
  pub ml_dsa_sign : Bytes → Bytes → Bytes
  -- `Signature::decode` accepts the encoding.
  pub ml_dsa_signature_valid : Bytes → Bool
  pub ml_dsa_verify : Bytes → Bytes → Bytes → Bool

-- A signature of the key is accepted, and has the size of its scheme.
pub record SignatureLaws (s : Signatures) : Type 0 where
  pub ed25519_valid : (seed : Bytes) → s.ed25519_key_valid (s.ed25519_public seed) ≡ true
  pub ed25519_accepts :
      (seed msg : Bytes)
      → s.ed25519_verify (s.ed25519_public seed) msg (s.ed25519_sign seed msg) ≡ true
  pub ml_dsa_size : (seed msg : Bytes) → length (s.ml_dsa_sign seed msg) ≡ 4627
  pub ml_dsa_valid : (seed msg : Bytes) → s.ml_dsa_signature_valid (s.ml_dsa_sign seed msg) ≡ true
  pub ml_dsa_accepts :
      (seed msg : Bytes)
      → s.ml_dsa_verify (s.ml_dsa_public seed) msg (s.ml_dsa_sign seed msg) ≡ true

-- ml-kem. A decapsulation key is its 64-byte seed; encapsulation takes the random bytes it draws.
pub record Kem : Type 0 where
  pub ml_kem_public : Bytes → Bytes
  -- `EncapsulationKey::new` accepts the key.
  pub ml_kem_key_valid : Bytes → Bool
  -- The ciphertext and the shared secret.
  pub ml_kem_encapsulate : Bytes → Bytes → Bytes × Bytes
  pub ml_kem_decapsulate : Bytes → Bytes → Bytes

pub record KemLaws (k : Kem) : Type 0 where
  pub ml_kem_public_size : (seed : Bytes) → length (k.ml_kem_public seed) ≡ 1568
  pub ml_kem_valid : (seed : Bytes) → k.ml_kem_key_valid (k.ml_kem_public seed) ≡ true
  pub ml_kem_ciphertext_size :
      (public random : Bytes) → length (k.ml_kem_encapsulate public random).0 ≡ 1568
  pub ml_kem_agrees :
      (seed random : Bytes)
      → k.ml_kem_decapsulate seed (k.ml_kem_encapsulate (k.ml_kem_public seed) random).0
        ≡ (k.ml_kem_encapsulate (k.ml_kem_public seed) random).1
