-- ===== src/Crypto/Identity/Prekeys.antt =====
-- identity.rs: the signed bytes of a prekey bundle, its making and its verification.
use presidium.Base.{List, [], ◌∷◌, ◌++◌, ok, ◌>>=◌}
use presidium.Base.Words.{to_le}
use presidium.Crypto.Constants.{Bytes}
use presidium.Crypto.Error.{CryptoResult}
use presidium.Crypto.Primitives.{Primitives, Signatures, Kem}
use presidium.Crypto.Identity.{
  IdentityKeyPair, IdentityPublicKey, HybridKemPublicKey, SignedPreKey, OneTimePreKey, PreKeyBundle,
  public, sign_hybrid, verify_hybrid, kem_public,
}

-- `bundle_bytes`: what the identity key signs.
unfoldable pub one_time_bytes : List OneTimePreKey → Bytes
one_time_bytes [] = []
one_time_bytes (otpk ∷ rest) =
    to_le 4 otpk.key_id
    ++ (otpk.public_key.classical ++ (otpk.public_key.pq ++ one_time_bytes rest))

unfoldable pub bundle_bytes :
    IdentityPublicKey → HybridKemPublicKey → SignedPreKey → List OneTimePreKey → Bytes
unfolding one_time_bytes
bundle_bytes identity identity_kem_public signed_prekey one_time_prekeys =
    identity.classical
    ++ (identity.pq
        ++ (identity_kem_public.classical
            ++ (identity_kem_public.pq
                ++ (to_le 4 signed_prekey.key_id
                    ++ (signed_prekey.public_key.classical
                        ++ (signed_prekey.public_key.pq
                            ++ (to_le 8 signed_prekey.timestamp
                                ++ one_time_bytes one_time_prekeys)))))))

module _ ⦃p : Primitives⦄ ⦃s : Signatures⦄ ⦃k : Kem⦄ where
  -- `PreKeyBundle::new`.
  unfoldable pub new_bundle :
      IdentityKeyPair → SignedPreKey → List OneTimePreKey → CryptoResult PreKeyBundle
  new_bundle identity signed_prekey one_time_prekeys = do
    identity_kem_public ← kem_public identity
    bundle_signature ←
        sign_hybrid identity
          (bundle_bytes (public identity) identity_kem_public signed_prekey one_time_prekeys)
    ok (record {
      identity_key = public identity;
      identity_kem_public = identity_kem_public;
      signed_prekey = signed_prekey;
      one_time_prekeys = one_time_prekeys;
      bundle_signature = bundle_signature;
    })

-- `PreKeyBundle::verify`.
unfoldable pub verify_bundle : ⦃s : Signatures⦄ → PreKeyBundle → CryptoResult Unit
verify_bundle bundle =
    verify_hybrid bundle.identity_key
      (bundle_bytes bundle.identity_key bundle.identity_kem_public bundle.signed_prekey
        bundle.one_time_prekeys)
      bundle.bundle_signature
