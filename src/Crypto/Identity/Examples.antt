-- ===== src/Crypto/Identity/Examples.antt =====
-- The theorems on identity.rs at concrete keys.
use mathlib.Core.Logic.{◌↔◌}
use presidium.Base.{
  ℕ, ◌+◌, ◌≡◌, refl, ok, err, true, false, List, [], ◌∷◌, ◌⊎◌, arith, All, Bool, length-replicate,
  replicate,
}
use presidium.Crypto.Constants.{Bytes}
use presidium.Crypto.Error.{invalid_key, invalid_signature}
use presidium.Crypto.Samples.{sample, sample_laws}
use presidium.Crypto.Samples.Schemes.{
  sample_signatures, sample-SignatureLaws, sample_kem, sample_kem_laws,
}
use presidium.Crypto.Identity.{
  IdentityKeyPair, IdentityPublicKey, HybridKemPrivateKey, HybridKemPublicKey, HybridSignature,
  SignedPreKey, OneTimePreKey, PreKeyBundle, public, verify_hybrid, public_key, kem_public,
  encapsulate, decapsulate,
}
use presidium.Crypto.Identity.Prekeys.{new_bundle, verify_bundle}
use presidium.Crypto.Identity.Signing.{BothAccept, verify_hybrid_iff}
use presidium.Crypto.Identity.Kems.{decapsulate-encapsulate}
use presidium.Crypto.Identity.Bundles.{
  IsSized, IsSigned, IsOneTime, bundle_bytes_injective, verify_bundle-new_bundle,
}

abbrev seed : Bytes
seed = replicate 32 5

abbrev identity : IdentityKeyPair
identity = record { classical = seed; pq = record { key = seed } }

abbrev message : Bytes
message = 104 ∷ 105 ∷ []

abbrev forged : HybridSignature
forged = record { classical = 0 ∷ []; pq = [] }

abbrev kem_key : HybridKemPublicKey
kem_key = record { classical = replicate 32 1; pq = replicate 1568 2 }

abbrev private_key : ℕ → HybridKemPrivateKey
private_key n = record { classical = n ∷ []; pq = (n + 1) ∷ [] }

abbrev signed : SignedPreKey
signed = record { key_id = 17; public_key = kem_key; signature = forged; timestamp = 1700 }

abbrev one_time : List OneTimePreKey
one_time = record { key_id = 23; public_key = kem_key } ∷ []

verify_hybrid_iff_example :
    ((verify_hybrid (public identity) message forged ≡ ok tt)
      ↔ BothAccept (public identity) message forged)
    × ((verify_hybrid (public identity) message forged ≡ ok tt)
        ⊎ (verify_hybrid (public identity) message forged ≡ err invalid_signature)
        ⊎ ((◌≡◌ {A = Bool} true false)
            × (verify_hybrid (public identity) message forged
                ≡ err (invalid_key "Invalid Ed25519 public key"))))
verify_hybrid_iff_example = verify_hybrid_iff (public identity) message forged

decapsulate-encapsulate_example :
    (ciphertext shared : Bytes) × (encapsulate (9 ∷ []) (private_key 3) (public_key (private_key 4))
      ≡ ok (ciphertext, shared))
    × (decapsulate (private_key 4) ciphertext (public_key (private_key 3)) ≡ ok shared)
decapsulate-encapsulate_example =
    decapsulate-encapsulate sample_laws sample_kem_laws (9 ∷ []) (private_key 3) (private_key 4)

verify_bundle-new_bundle_example :
    (bundle : PreKeyBundle) × (new_bundle identity signed one_time ≡ ok bundle)
    × (verify_bundle bundle ≡ ok tt)
    × (bundle.identity_key ≡ public identity)
    × (kem_public identity ≡ ok bundle.identity_kem_public)
    × (bundle.signed_prekey ≡ signed)
    × (bundle.one_time_prekeys ≡ one_time)
verify_bundle-new_bundle_example =
    verify_bundle-new_bundle sample_laws sample-SignatureLaws identity signed one_time

abbrev bundle : PreKeyBundle
bundle = record {
  identity_key = public identity;
  identity_kem_public = kem_key;
  signed_prekey = signed;
  one_time_prekeys = one_time;
  bundle_signature = forged;
}

abbrev identity_public : IdentityPublicKey
identity_public = record { classical = replicate 32 3; pq = replicate 2592 4 }

kem_key-IsSized : IsSized kem_key
kem_key-IsSized = record {
  classical = length-replicate {A = ℕ} 32 1;
  pq = length-replicate {A = ℕ} 1568 2;
}

signed-IsSigned : IsSigned signed
signed-IsSigned = record { key_id = omega arith; sized = kem_key-IsSized; timestamp = omega arith }

one_time-IsOneTime : All IsOneTime one_time
one_time-IsOneTime = (record { key_id = omega arith; sized = kem_key-IsSized }, tt)

bundle_bytes_injective_example :
    (identity_public ≡ identity_public)
    × (kem_key ≡ kem_key)
    × (signed.key_id ≡ signed.key_id)
    × (signed.public_key ≡ signed.public_key)
    × (signed.timestamp ≡ signed.timestamp)
    × (one_time ≡ one_time)
bundle_bytes_injective_example =
    bundle_bytes_injective identity_public identity_public kem_key kem_key signed signed one_time
      one_time (length-replicate {A = ℕ} 32 3) (length-replicate {A = ℕ} 32 3)
      (length-replicate {A = ℕ} 2592 4) (length-replicate {A = ℕ} 2592 4) kem_key-IsSized
      kem_key-IsSized signed-IsSigned signed-IsSigned one_time-IsOneTime one_time-IsOneTime refl
