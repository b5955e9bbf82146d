-- ===== src/Crypto/Identity.antt =====
-- presidium-crypto/src/identity.rs: hybrid identities, hybrid key encapsulation and prekey bundles.
pub mod Signing
pub mod Kems
pub mod Prekeys
pub mod Bundles
mod Examples
use presidium.Base.{
  ℕ, suc, Bool, true, false, not, Option, none, some, String, List, [], ◌∷◌, ◌++◌, Result, ok, err,
  ◌>>=◌, ◌>>◌, ok_or, length, take, drop, ltb, ◌==◌, if◌then◌else◌,
}
use presidium.Base.Words.{to_le}
use presidium.Crypto.Constants.{
  Bytes, ascii, ed25519_private_key_size, ml_dsa_87_private_key_size, ml_dsa_87_signature_size,
  ml_dsa_87_public_key_size, x25519_public_key_size, ml_kem_1024_public_key_size,
  ml_kem_1024_private_key_size, ml_kem_1024_ciphertext_size,
}
use presidium.Crypto.Error.{
  CryptoError, CryptoResult, invalid_key, invalid_signature, key_derivation_failed,
  invalid_parameter,
}
use presidium.Crypto.Primitives.{Primitives, Signatures, Kem}

pub record MlDsa87PrivateKey : Type 0 where
  pub key : Bytes

pub record MlDsa87PublicKey : Type 0 where
  pub key : Bytes

-- An Ed25519 signing key is its seed.
pub record IdentityKeyPair : Type 0 where
  pub classical : Bytes
  pub pq : MlDsa87PrivateKey

pub record IdentityPublicKey : Type 0 where
  pub classical : Bytes
  pub pq : Bytes

pub record HybridSignature : Type 0 where
  pub classical : Bytes
  pub pq : Bytes

pub record HybridKemPublicKey : Type 0 where
  pub classical : Bytes
  pub pq : Bytes

pub record HybridKemPrivateKey : Type 0 where
  pub classical : Bytes
  pub pq : Bytes

pub record SignedPreKey : Type 0 where
  pub key_id : ℕ
  pub public_key : HybridKemPublicKey
  pub signature : HybridSignature
  pub timestamp : ℕ

pub record OneTimePreKey : Type 0 where
  pub key_id : ℕ
  pub public_key : HybridKemPublicKey

pub record PreKeyBundle : Type 0 where
  pub identity_key : IdentityPublicKey
  pub identity_kem_public : HybridKemPublicKey
  pub signed_prekey : SignedPreKey
  pub one_time_prekeys : List OneTimePreKey
  pub bundle_signature : HybridSignature

-- `slice.try_into()` to an array of a fixed size.
abbrev pub try_into : ℕ → Bytes → CryptoError → CryptoResult Bytes
try_into size bytes e = if length bytes == size then ok bytes else err e

-- `IdentityKeyPair::from_seed`.
unfoldable pub from_seed : Bytes → Bytes → CryptoResult IdentityKeyPair
from_seed classical_seed pq_seed = do
  classical_bytes ←
      try_into ed25519_private_key_size classical_seed
        (invalid_key "classical seed must be 32 bytes")
  pq_bytes ← try_into ml_dsa_87_private_key_size pq_seed (invalid_key "pq seed must be 32 bytes")
  ok (record { classical = classical_bytes; pq = record { key = pq_bytes } })

-- `IdentityKeyPair::generate`, with the two seeds that it draws.
unfoldable pub generate_identity : Bytes → Bytes → CryptoResult IdentityKeyPair
generate_identity classical seed = ok (record { classical = classical; pq = record { key = seed } })

unfoldable pub seeds : IdentityKeyPair → Bytes × Bytes
seeds identity = (identity.classical, identity.pq.key)

-- `MlDsa87PublicKey::from_bytes`.
unfoldable pub ml_dsa_public_from_bytes : Bytes → CryptoResult MlDsa87PublicKey
ml_dsa_public_from_bytes bytes = do
  key ← try_into ml_dsa_87_public_key_size bytes (invalid_key "Invalid ML-DSA-87 public key size")
  ok (record { key = key })

module _ ⦃s : Signatures⦄ where
  -- `IdentityKeyPair::public`.
  unfoldable pub public : IdentityKeyPair → IdentityPublicKey
  public identity = record {
    classical = s.ed25519_public identity.classical;
    pq = s.ml_dsa_public identity.pq.key;
  }

  unfoldable pub sign_hybrid : IdentityKeyPair → Bytes → CryptoResult HybridSignature
  sign_hybrid identity message = ok (record {
    classical = s.ed25519_sign identity.classical message;
    pq = s.ml_dsa_sign identity.pq.key message;
  })

  -- `ml_dsa_signature`: the size, then the encoding.
  unfoldable pub ml_dsa_signature : Bytes → CryptoResult Bytes
  ml_dsa_signature bytes = do
    arr ← try_into ml_dsa_87_signature_size bytes invalid_signature
    if s.ml_dsa_signature_valid arr then ok arr else err invalid_signature

  abbrev check : Bool → CryptoError → CryptoResult Unit
  check true e = ok tt
  check false e = err e

  unfoldable pub verify_hybrid : IdentityPublicKey → Bytes → HybridSignature → CryptoResult Unit
  unfolding ml_dsa_signature
  verify_hybrid key message sig = do
    check (s.ed25519_key_valid key.classical) (invalid_key "Invalid Ed25519 public key")
    check (s.ed25519_verify key.classical message sig.classical) invalid_signature
    pq_sig ← ml_dsa_signature sig.pq
    check (s.ml_dsa_verify key.pq message pq_sig) invalid_signature

-- `IdentityKeyPair::kem_secret`. An X25519 secret is its bytes.
unfoldable pub kem_secret : ⦃p : Primitives⦄ → IdentityKeyPair → CryptoResult HybridKemPrivateKey
kem_secret ⦃p⦄ identity = do
  pq ←
      ok_or
        (p.hkdf_expand (some (ascii "presidium-identity-kem")) identity.pq.key
          (ascii "identity-pq-seed") ml_kem_1024_private_key_size)
        (key_derivation_failed "Identity KEM seed derivation failed")
  ok (record { classical = identity.classical; pq = pq })

-- `HybridKemPublicKey::from_bytes`.
unfoldable pub from_bytes : Bytes → CryptoResult HybridKemPublicKey
from_bytes bytes =
    if ltb (length bytes) x25519_public_key_size
    then err (invalid_key "Hybrid KEM public key too short")
    else do
      classical ←
          try_into x25519_public_key_size (take x25519_public_key_size bytes)
            (invalid_key "Invalid X25519 public key size")
      pq ←
          try_into ml_kem_1024_public_key_size (drop x25519_public_key_size bytes)
            (invalid_key "Invalid ML-KEM-1024 public key size")
      ok (record { classical = classical; pq = pq })

unfoldable pub as_bytes : HybridKemPublicKey → Bytes
as_bytes key = key.classical ++ key.pq

module _ ⦃p : Primitives⦄ ⦃k : Kem⦄ where
  -- `HybridKemPrivateKey::public_key`.
  unfoldable pub public_key : HybridKemPrivateKey → HybridKemPublicKey
  public_key key = record { classical = p.x25519_public key.classical; pq = k.ml_kem_public key.pq }

  -- `HybridKemPublicKey::generate`, with the X25519 secret and the ML-KEM seed that it draws; the
  -- library gives no seed for some keys.
  unfoldable pub generate_kem :
      Bytes → Option Bytes → CryptoResult (HybridKemPublicKey × HybridKemPrivateKey)
  generate_kem classical_secret drawn = do
    pq_seed ← ok_or drawn (key_derivation_failed "ML-KEM-1024 seed unavailable")
    ok (
      record { classical = p.x25519_public classical_secret; pq = k.ml_kem_public pq_seed },
      record { classical = classical_secret; pq = pq_seed },
    )

  -- `IdentityKeyPair::kem_public`.
  unfoldable pub kem_public : IdentityKeyPair → CryptoResult HybridKemPublicKey
  unfolding kem_secret public_key
  kem_public identity = do secret ← kem_secret identity; ok (public_key secret)

  -- The HKDF step that ends `encapsulate` and `decapsulate`.
  unfoldable pub combine_shared : Bytes → Bytes → CryptoResult Bytes
  combine_shared classical_shared pq_shared =
      ok_or (p.hkdf_expand none (classical_shared ++ pq_shared) (ascii "presidium-pqxdh-shared") 32)
        (key_derivation_failed "HKDF expand failed")

  unfoldable pub encapsulate :
      Bytes → HybridKemPrivateKey → HybridKemPublicKey → CryptoResult (Bytes × Bytes)
  unfolding combine_shared
  encapsulate random our peer_public = do
    key ←
        try_into ml_kem_1024_public_key_size peer_public.pq
          (invalid_key "Invalid ML-KEM-1024 public key")
    if not (k.ml_kem_key_valid key) then err (invalid_key "Invalid ML-KEM-1024 public key") else do
      let (ciphertext, pq_shared) = k.ml_kem_encapsulate key random
      shared_secret ←
          combine_shared (p.diffie_hellman our.classical peer_public.classical) pq_shared
      ok (ciphertext, shared_secret)

  unfoldable pub decapsulate : HybridKemPrivateKey → Bytes → HybridKemPublicKey → CryptoResult Bytes
  unfolding combine_shared
  decapsulate our ciphertext peer_public = do
    ct ←
        try_into ml_kem_1024_ciphertext_size ciphertext
          (invalid_parameter "Invalid ciphertext size")
    combine_shared (p.diffie_hellman our.classical peer_public.classical)
        (k.ml_kem_decapsulate our.pq ct)
