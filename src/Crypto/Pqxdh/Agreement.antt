-- ===== src/Crypto/Pqxdh/Agreement.antt =====
-- pqxdh.rs: both sides of the key agreement come to the same output, and what each side refuses.
use presidium.Base.{ℕ, ◌≡◌, refl, Option, none, some, List, ok, err, arith, ==_refl, ◌⊎◌}
use presidium.Crypto.Constants.{Bytes}
use presidium.Crypto.Error.{CryptoError}
use presidium.Crypto.Primitives.{Primitives, PrimitiveLaws, Signatures, SignatureLaws, Kem, KemLaws}
use presidium.Crypto.Identity.{
  IdentityKeyPair, HybridKemPrivateKey, SignedPreKey, OneTimePreKey, PreKeyBundle, public_key,
  public, kem_public,
}
use presidium.Crypto.Identity.Prekeys.{new_bundle, verify_bundle}
use presidium.Crypto.Identity.Kems.{shared_of, ciphertext_of}
use presidium.Crypto.Identity.Bundles.{kem_of, kem_secret_lem, verify_bundle-new_bundle}
use presidium.Crypto.Pqxdh.{
  PqxdhOutput, PqxdhInitiatorKeys, PqxdhResponderKeys, PqxdhPrekeyMessage, select_one_time,
  pqxdh_initiator, pqxdh_responder,
}
use presidium.Crypto.Pqxdh.Legs.{
  offered, id_of, held, hybrid_encaps_lem, hybrid_dh_lem, initiator_one_time_lem,
  select_one_time_lem, responder_one_time_lem, derive_master_secret_lem, agreed_secret,
  one_time_secret, one_time_cipher,
}

abbrev initiator_keys : IdentityKeyPair → HybridKemPrivateKey → PreKeyBundle → PqxdhInitiatorKeys
initiator_keys identity ephemeral bundle = record {
  identity = identity;
  ephemeral = ephemeral;
  peer_bundle = bundle;
}

module _ ⦃p : Primitives⦄ ⦃s : Signatures⦄ ⦃k : Kem⦄ (laws : PrimitiveLaws p)
    (kem_laws : KemLaws k) where
  agreed_output :
      (ℕ → Bytes)
      → IdentityKeyPair
      → IdentityKeyPair
      → HybridKemPrivateKey
      → HybridKemPrivateKey
      → ℕ
      → Option (ℕ × HybridKemPrivateKey)
      → PqxdhOutput
  agreed_output random alice bob ephemeral prekey id o = record {
    shared_secret =
        agreed_secret laws kem_laws random ephemeral (kem_of laws alice) prekey (kem_of laws bob) o;
    ephemeral_public = public_key ephemeral;
    signed_prekey_id = id;
    one_time_prekey_id = id_of o;
  }

  agreed_message :
      (ℕ → Bytes)
      → IdentityKeyPair
      → IdentityKeyPair
      → HybridKemPrivateKey
      → HybridKemPrivateKey
      → ℕ
      → Option (ℕ × HybridKemPrivateKey)
      → PqxdhPrekeyMessage
  agreed_message random alice bob ephemeral prekey id o = record {
    identity_public = public alice;
    identity_kem_public = public_key (kem_of laws alice);
    ephemeral_public = public_key ephemeral;
    ciphertexts = (
      ciphertext_of laws kem_laws (random 1) prekey,
      ciphertext_of laws kem_laws (random 2) prekey,
      ciphertext_of laws kem_laws (random 3) (kem_of laws bob),
      ciphertext_of laws kem_laws (random 4) (kem_of laws bob),
    );
    one_time_ciphertext = one_time_cipher laws kem_laws (random 5) o;
    signed_prekey_id = id;
    one_time_prekey_id = id_of o;
  }

  initiator_lem :
      (random : ℕ → Bytes) (alice bob : IdentityKeyPair) (ephemeral prekey : HybridKemPrivateKey)
      (o : Option (ℕ × HybridKemPrivateKey)) (rest : List OneTimePreKey) (bundle : PreKeyBundle)
      → verify_bundle bundle ≡ ok tt
      → bundle.identity_kem_public ≡ public_key (kem_of laws bob)
      → bundle.signed_prekey.public_key ≡ public_key prekey
      → bundle.one_time_prekeys ≡ offered o rest
      → pqxdh_initiator random (initiator_keys alice ephemeral bundle)
        ≡ ok (
          agreed_output random alice bob ephemeral prekey bundle.signed_prekey.key_id o,
          agreed_message random alice bob ephemeral prekey bundle.signed_prekey.key_id o,
        )
  unfolding pqxdh_initiator agreed_output agreed_message agreed_secret
  initiator_lem random alice bob ephemeral prekey o rest bundle verified kem signed one_time = rw (
    verified,
    kem_secret_lem laws alice,
    signed,
    kem,
    one_time,
    hybrid_encaps_lem laws kem_laws (random 1) ephemeral prekey,
    hybrid_encaps_lem laws kem_laws (random 2) (kem_of laws alice) prekey,
    hybrid_encaps_lem laws kem_laws (random 3) ephemeral (kem_of laws bob),
    hybrid_encaps_lem laws kem_laws (random 4) (kem_of laws alice) (kem_of laws bob),
    initiator_one_time_lem laws kem_laws (random 5) ephemeral o rest,
    derive_master_secret_lem laws kem_laws (shared_of laws kem_laws (random 1) ephemeral prekey)
        (shared_of laws kem_laws (random 2) (kem_of laws alice) prekey)
        (shared_of laws kem_laws (random 3) ephemeral (kem_of laws bob))
        (shared_of laws kem_laws (random 4) (kem_of laws alice) (kem_of laws bob))
        (one_time_secret laws kem_laws (random 5) ephemeral o),
  )

  responder_lem :
      (random : ℕ → Bytes) (alice bob : IdentityKeyPair) (ephemeral prekey : HybridKemPrivateKey)
      (id : ℕ) (o : Option (ℕ × HybridKemPrivateKey))
      → pqxdh_responder
          (held bob prekey id o)
          (agreed_message random alice bob ephemeral prekey id o)
        ≡ ok (agreed_output random alice bob ephemeral prekey id o)
  unfolding pqxdh_responder agreed_output agreed_message agreed_secret
  responder_lem random alice bob ephemeral prekey id o = rw (
    ==_refl id,
    select_one_time_lem laws kem_laws o,
    kem_secret_lem laws bob,
    hybrid_dh_lem laws kem_laws (random 1) ephemeral prekey,
    hybrid_dh_lem laws kem_laws (random 2) (kem_of laws alice) prekey,
    hybrid_dh_lem laws kem_laws (random 3) ephemeral (kem_of laws bob),
    hybrid_dh_lem laws kem_laws (random 4) (kem_of laws alice) (kem_of laws bob),
    responder_one_time_lem laws kem_laws (random 5) ephemeral o,
    derive_master_secret_lem laws kem_laws (shared_of laws kem_laws (random 1) ephemeral prekey)
        (shared_of laws kem_laws (random 2) (kem_of laws alice) prekey)
        (shared_of laws kem_laws (random 3) ephemeral (kem_of laws bob))
        (shared_of laws kem_laws (random 4) (kem_of laws alice) (kem_of laws bob))
        (one_time_secret laws kem_laws (random 5) ephemeral o),
  )

module _ ⦃p : Primitives⦄ ⦃s : Signatures⦄ ⦃k : Kem⦄ (laws : PrimitiveLaws p)
    (sig_laws : SignatureLaws s) (kem_laws : KemLaws k) where
  -- Alice, with a bundle that Bob made of a signed prekey and of a one-time prekey or none (others may
  -- follow it), and Bob, who holds their private keys and reads Alice's message, both succeed, with
  -- the same output; it names the prekeys used. The bundle is verified, and the bundle and the message
  -- carry the public keys of Bob and Alice.
  pub pqxdh_responder-pqxdh_initiator :
      (random : ℕ → Bytes) (alice bob : IdentityKeyPair) (ephemeral prekey : HybridKemPrivateKey)
      (o : Option (ℕ × HybridKemPrivateKey)) (rest : List OneTimePreKey) (signed : SignedPreKey)
      → signed.public_key ≡ public_key prekey
      → (bundle : PreKeyBundle) × (output : PqxdhOutput) × (message : PqxdhPrekeyMessage)
        × (new_bundle bob signed (offered o rest) ≡ ok bundle)
        × (pqxdh_initiator random
              (record { identity = alice; ephemeral = ephemeral; peer_bundle = bundle })
            ≡ ok (output, message))
        × (pqxdh_responder (held bob prekey signed.key_id o) message ≡ ok output)
        × (output.signed_prekey_id ≡ signed.key_id)
        × (output.one_time_prekey_id ≡ id_of o)
        × (message.identity_public ≡ public alice)
        × (bundle.identity_key ≡ public bob)
        × (verify_bundle bundle ≡ ok tt)
  unfolding kem_public agreed_output agreed_message
  pqxdh_responder-pqxdh_initiator random alice bob ephemeral prekey o rest signed h =
      let (bundle, made, verified, identity, kem, spk, one_time) =
        verify_bundle-new_bundle laws sig_laws bob signed (offered o rest) in
      let kem' : bundle.identity_kem_public ≡ public_key (kem_of laws bob) =
        ground (arith, kem, kem_secret_lem laws bob) in
      let start =
        initiator_lem laws kem_laws random alice bob ephemeral prekey o rest bundle verified kem'
          (ground (arith, spk, h)) one_time in
      let answer = responder_lem laws kem_laws random alice bob ephemeral prekey signed.key_id o in
      (
        bundle,
        agreed_output laws kem_laws random alice bob ephemeral prekey signed.key_id o,
        agreed_message laws kem_laws random alice bob ephemeral prekey signed.key_id o,
        made,
        ground (arith, start, spk),
        answer,
        refl,
        refl,
        refl,
        identity,
        verified,
      )

module _ ⦃p : Primitives⦄ ⦃s : Signatures⦄ ⦃k : Kem⦄ where
  -- The initiator takes no key from a bundle that is not verified: it ends with the verification's
  -- error.
  pqxdh_initiator-verify_bundle :
      (random : ℕ → Bytes) (keys : PqxdhInitiatorKeys) (e : CryptoError)
      → verify_bundle keys.peer_bundle ≡ err e
      → pqxdh_initiator random keys ≡ err e
  unfolding pqxdh_initiator
  pqxdh_initiator-verify_bundle random keys e h = rw h

-- A responder that comes to an output holds the prekeys that the message names: the signed prekey's
-- id is its own, and it has a one-time prekey of the id named, or none where none is named.
pqxdh_responder_ids :
    ⦃p : Primitives⦄ ⦃k : Kem⦄ (keys : PqxdhResponderKeys) (message : PqxdhPrekeyMessage)
    (output : PqxdhOutput)
    → pqxdh_responder keys message ≡ ok output
    → (message.signed_prekey_id ≡ keys.signed_prekey_id)
      × (((keys.one_time_prekey ≡ none) × (message.one_time_prekey_id ≡ none))
          ⊎ ((opk : HybridKemPrivateKey) × (id : ℕ) × (keys.one_time_prekey ≡ some opk)
              × (keys.one_time_prekey_id ≡ some id)
              × (message.one_time_prekey_id ≡ some id)))
unfolding pqxdh_responder select_one_time
pqxdh_responder_ids keys message output h = ground arith
