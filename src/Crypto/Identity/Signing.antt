-- ===== src/Crypto/Identity/Signing.antt =====
-- identity.rs: seeds and hybrid signatures.
use mathlib.Core.Logic.{◌↔◌}
use presidium.Base.{◌≡◌, refl, true, false, ok, err, length, arith, ◌⊎◌}
use presidium.Crypto.Constants.{Bytes}
use presidium.Crypto.Error.{invalid_key, invalid_signature}
use presidium.Crypto.Primitives.{Signatures, SignatureLaws}
use presidium.Crypto.Identity.{
  IdentityKeyPair, IdentityPublicKey, HybridSignature, from_seed, seeds, public, sign_hybrid,
  verify_hybrid,
}

-- What an installation stores of its identity rebuilds it.
pub from_seed-seeds :
    (identity : IdentityKeyPair)
    → length identity.classical ≡ 32
    → length identity.pq.key ≡ 32
    → from_seed (seeds identity).0 (seeds identity).1 ≡ ok identity
unfolding from_seed seeds
from_seed-seeds identity h h' = ground arith

-- `from_seed` succeeds exactly on two seeds of 32 bytes, which are then the seeds of its result.
from_seed_iff :
    (x y : Bytes) (identity : IdentityKeyPair)
    → (from_seed x y ≡ ok identity)
      ↔ ((length x ≡ 32) × (length y ≡ 32) × (seeds identity ≡ (x, y)))
unfolding from_seed seeds
from_seed_iff x y identity = ground arith

module _ ⦃s : Signatures⦄ (laws : SignatureLaws s) where
  -- A hybrid signature is accepted under the public key of the identity that made it.
  pub verify_hybrid-sign_hybrid :
      (identity : IdentityKeyPair) (message : Bytes)
      → (sig : HybridSignature) × (sign_hybrid identity message ≡ ok sig)
        × (verify_hybrid (public identity) message sig ≡ ok tt)
  unfolding sign_hybrid verify_hybrid public
  verify_hybrid-sign_hybrid identity message = (
    record {
      classical = s.ed25519_sign identity.classical message;
      pq = s.ml_dsa_sign identity.pq.key message;
    },
    refl,
    ground (
      arith,
      laws.ed25519_valid identity.classical,
      laws.ed25519_accepts identity.classical message,
      laws.ml_dsa_size identity.pq.key message,
      laws.ml_dsa_valid identity.pq.key message,
      laws.ml_dsa_accepts identity.pq.key message,
    ),
  )

module _ ⦃s : Signatures⦄ where
  -- The conditions of both schemes on a signature.
  pub record BothAccept (key : IdentityPublicKey) (message : Bytes) (sig : HybridSignature)
      : Type 0 where
    pub key_valid : s.ed25519_key_valid key.classical ≡ true
    pub classical : s.ed25519_verify key.classical message sig.classical ≡ true
    pub size : length sig.pq ≡ 4627
    pub encoding : s.ml_dsa_signature_valid sig.pq ≡ true
    pub post_quantum : s.ml_dsa_verify key.pq message sig.pq ≡ true

  -- `verify_hybrid` accepts exactly when both schemes do, and its only other answers are a bad
  -- Ed25519 key and a bad signature.
  pub verify_hybrid_iff :
      (key : IdentityPublicKey) (message : Bytes) (sig : HybridSignature)
      → ((verify_hybrid key message sig ≡ ok tt) ↔ BothAccept key message sig)
        × ((verify_hybrid key message sig ≡ ok tt)
            ⊎ (verify_hybrid key message sig ≡ err invalid_signature)
            ⊎ ((s.ed25519_key_valid key.classical ≡ false)
                × (verify_hybrid key message sig ≡ err (invalid_key "Invalid Ed25519 public key"))))
  unfolding verify_hybrid
  verify_hybrid_iff key message sig = ground arith
