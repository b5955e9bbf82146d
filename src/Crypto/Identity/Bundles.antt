-- ===== src/Crypto/Identity/Bundles.antt =====
-- identity.rs: prekey bundles, their signed bytes and their verification.
use presidium.Base.{
  ℕ, ◌≡◌, refl, some, List, [], ◌∷◌, ok, length, arith, All, append_split, ◌<◌, ◌^◌,
}
use presidium.Base.Words.{IsU32, IsU64, to_le, length-to_le, from_le-to_le}
use presidium.Crypto.Constants.{Bytes, ascii}
use presidium.Crypto.Primitives.{Primitives, PrimitiveLaws, Signatures, SignatureLaws, Kem}
use presidium.Crypto.Identity.{
  IdentityKeyPair, IdentityPublicKey, HybridSignature, HybridKemPublicKey, HybridKemPrivateKey,
  SignedPreKey, OneTimePreKey, PreKeyBundle, public, kem_secret, kem_public, public_key,
}
use presidium.Crypto.Identity.Prekeys.{one_time_bytes, bundle_bytes, new_bundle, verify_bundle}
use presidium.Crypto.Identity.Signing.{verify_hybrid-sign_hybrid}

to_le_injective : (k n m : ℕ) → n < 256 ^ k → m < 256 ^ k → to_le k n ≡ to_le k m → n ≡ m
to_le_injective k n m h h' e = rw (← from_le-to_le k n h) (rw e (from_le-to_le k m h'))

-- The sizes that the key types of the source fix.
pub record IsSized (key : HybridKemPublicKey) : Type 0 where
  pub classical : length key.classical ≡ 32
  pub pq : length key.pq ≡ 1568

pub record IsOneTime (otpk : OneTimePreKey) : Type 0 where
  pub key_id : IsU32 otpk.key_id
  pub sized : IsSized otpk.public_key

pub record IsSigned (signed : SignedPreKey) : Type 0 where
  pub key_id : IsU32 signed.key_id
  pub sized : IsSized signed.public_key
  pub timestamp : IsU64 signed.timestamp

one_time_bytes_injective :
    (xs ys : List OneTimePreKey)
    → All IsOneTime xs
    → All IsOneTime ys
    → one_time_bytes xs ≡ one_time_bytes ys
    → xs ≡ ys
unfolding one_time_bytes to_le
one_time_bytes_injective [] [] h h' e = refl
one_time_bytes_injective [] (y ∷ ys) h h' e = cc
one_time_bytes_injective (x ∷ xs) [] h h' e = cc
one_time_bytes_injective (x ∷ xs) (y ∷ ys) (hx, h) (hy, h') e =
    let e1 =
      append_split 4 (to_le 4 x.key_id) (to_le 4 y.key_id) _ _ (length-to_le 4 x.key_id)
        (length-to_le 4 y.key_id) e in
    let e2 =
      append_split 32 x.public_key.classical y.public_key.classical _ _ hx.sized.classical
        hy.sized.classical e1.1 in
    let e3 = append_split 1568 x.public_key.pq y.public_key.pq _ _ hx.sized.pq hy.sized.pq e2.1 in
    let id : x.key_id ≡ y.key_id =
      to_le_injective 4 x.key_id y.key_id (omega (arith, hx.key_id)) (omega (arith, hy.key_id))
        e1.0 in
    let rest : xs ≡ ys = one_time_bytes_injective xs ys h h' e3.1 in
    ground (arith, e2.0, e3.0, id, rest)

-- The signed bytes determine all that they are made from: the identity keys, the prekeys and the
-- time, where the keys have the sizes of their schemes. The signature inside the signed prekey is no
-- part of them.
pub bundle_bytes_injective :
    (identity identity' : IdentityPublicKey) (kem kem' : HybridKemPublicKey)
    (signed signed' : SignedPreKey) (one_time one_time' : List OneTimePreKey)
    → length identity.classical ≡ 32
    → length identity'.classical ≡ 32
    → length identity.pq ≡ 2592
    → length identity'.pq ≡ 2592
    → IsSized kem
    → IsSized kem'
    → IsSigned signed
    → IsSigned signed'
    → All IsOneTime one_time
    → All IsOneTime one_time'
    → bundle_bytes identity kem signed one_time ≡ bundle_bytes identity' kem' signed' one_time'
    → (identity ≡ identity')
      × (kem ≡ kem')
      × (signed.key_id ≡ signed'.key_id)
      × (signed.public_key ≡ signed'.public_key)
      × (signed.timestamp ≡ signed'.timestamp)
      × (one_time ≡ one_time')
unfolding bundle_bytes
bundle_bytes_injective i i' kem kem' s s' o o' hc hc' hp hp' hk hk' hs hs' ho ho' e =
    let e1 = append_split 32 i.classical i'.classical _ _ hc hc' e in
    let e2 = append_split 2592 i.pq i'.pq _ _ hp hp' e1.1 in
    let e3 = append_split 32 kem.classical kem'.classical _ _ hk.classical hk'.classical e2.1 in
    let e4 = append_split 1568 kem.pq kem'.pq _ _ hk.pq hk'.pq e3.1 in
    let e5 =
      append_split 4 (to_le 4 s.key_id) (to_le 4 s'.key_id) _ _ (length-to_le 4 s.key_id)
        (length-to_le 4 s'.key_id) e4.1 in
    let e6 =
      append_split 32 s.public_key.classical s'.public_key.classical _ _ hs.sized.classical
        hs'.sized.classical e5.1 in
    let e7 = append_split 1568 s.public_key.pq s'.public_key.pq _ _ hs.sized.pq hs'.sized.pq e6.1 in
    let e8 =
      append_split 8 (to_le 8 s.timestamp) (to_le 8 s'.timestamp) _ _ (length-to_le 8 s.timestamp)
        (length-to_le 8 s'.timestamp) e7.1 in
    let id : s.key_id ≡ s'.key_id =
      to_le_injective 4 s.key_id s'.key_id (omega (arith, hs.key_id)) (omega (arith, hs'.key_id))
        e5.0 in
    let time : s.timestamp ≡ s'.timestamp =
      to_le_injective 8 s.timestamp s'.timestamp (omega (arith, hs.timestamp))
        (omega (arith, hs'.timestamp)) e8.0 in
    let rest : o ≡ o' = one_time_bytes_injective o o' ho ho' e8.1 in
    ground (arith, e1.0, e2.0, e3.0, e4.0, id, e6.0, e7.0, time, rest)

-- The signed prekey with another signature.
abbrev pub with_prekey_signature : PreKeyBundle → HybridSignature → PreKeyBundle
with_prekey_signature bundle sig = record {
  identity_key = bundle.identity_key;
  identity_kem_public = bundle.identity_kem_public;
  signed_prekey = record {
    key_id = bundle.signed_prekey.key_id;
    public_key = bundle.signed_prekey.public_key;
    signature = sig;
    timestamp = bundle.signed_prekey.timestamp;
  };
  one_time_prekeys = bundle.one_time_prekeys;
  bundle_signature = bundle.bundle_signature;
}

-- The signature of the signed prekey plays no part in the verification of a bundle.
verify_bundle_any_signature :
    ⦃s : Signatures⦄ (bundle : PreKeyBundle) (sig : HybridSignature)
    → verify_bundle (with_prekey_signature bundle sig) ≡ verify_bundle bundle
unfolding verify_bundle bundle_bytes
verify_bundle_any_signature bundle sig = refl

module _ ⦃p : Primitives⦄ (laws : PrimitiveLaws p) where
  pub kem_of : IdentityKeyPair → HybridKemPrivateKey
  kem_of identity = record {
    classical = identity.classical;
    pq =
        laws.kdf (some (ascii "presidium-identity-kem")) identity.pq.key (ascii "identity-pq-seed")
          64;
  }

  pub kem_secret_lem : (identity : IdentityKeyPair) → kem_secret identity ≡ ok (kem_of identity)
  unfolding kem_secret kem_of
  kem_secret_lem identity = rw (
      laws.hkdf_kdf (some (ascii "presidium-identity-kem")) identity.pq.key
        (ascii "identity-pq-seed") 64 (omega arith))

module _ ⦃p : Primitives⦄ ⦃s : Signatures⦄ ⦃k : Kem⦄ (laws : PrimitiveLaws p)
    (sig_laws : SignatureLaws s) where
  -- A bundle made by an identity is made of its public keys and the prekeys given, and is verified.
  pub verify_bundle-new_bundle :
      (identity : IdentityKeyPair) (signed : SignedPreKey) (one_time : List OneTimePreKey)
      → (bundle : PreKeyBundle) × (new_bundle identity signed one_time ≡ ok bundle)
        × (verify_bundle bundle ≡ ok tt)
        × (bundle.identity_key ≡ public identity)
        × (kem_public identity ≡ ok bundle.identity_kem_public)
        × (bundle.signed_prekey ≡ signed)
        × (bundle.one_time_prekeys ≡ one_time)
  unfolding new_bundle verify_bundle kem_public
  verify_bundle-new_bundle identity signed one_time =
      let message : Bytes =
        bundle_bytes (public identity) (public_key (kem_of laws identity)) signed one_time in
      let (sig, made, accepted) = verify_hybrid-sign_hybrid sig_laws identity message in
      (
        record {
          identity_key = public identity;
          identity_kem_public = public_key (kem_of laws identity);
          signed_prekey = signed;
          one_time_prekeys = one_time;
          bundle_signature = sig;
        },
        ground (arith, kem_secret_lem laws identity, made),
        accepted,
        refl,
        rw (kem_secret_lem laws identity),
        refl,
        refl,
      )
