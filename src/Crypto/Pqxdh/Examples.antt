-- ===== src/Crypto/Pqxdh/Examples.antt =====
-- The theorems on pqxdh.rs at concrete keys.
use presidium.Base.{ℕ, ◌+◌, ◌≡◌, refl, Option, some, none, ok, [], ◌∷◌, replicate}
use presidium.Crypto.Constants.{Bytes}
use presidium.Crypto.Samples.{sample, sample_laws}
use presidium.Crypto.Samples.Schemes.{
  sample_signatures, sample-SignatureLaws, sample_kem, sample_kem_laws,
}
use presidium.Crypto.Identity.{
  IdentityKeyPair, HybridKemPrivateKey, HybridSignature, SignedPreKey, PreKeyBundle, public_key,
  public,
}
use presidium.Crypto.Identity.Prekeys.{new_bundle, verify_bundle}
use presidium.Crypto.Pqxdh.{PqxdhOutput, PqxdhPrekeyMessage, pqxdh_initiator, pqxdh_responder}
use presidium.Crypto.Pqxdh.Legs.{offered, held}
use presidium.Crypto.Pqxdh.Agreement.{pqxdh_responder-pqxdh_initiator}

abbrev identity : ℕ → IdentityKeyPair
identity n = record { classical = n ∷ []; pq = record { key = (n + 1) ∷ [] } }

abbrev private_key : ℕ → HybridKemPrivateKey
private_key n = record { classical = n ∷ []; pq = (n + 1) ∷ [] }

abbrev no_signature : HybridSignature
no_signature = record { classical = []; pq = [] }

abbrev signed : SignedPreKey
signed = record {
  key_id = 17;
  public_key = public_key (private_key 30);
  signature = no_signature;
  timestamp = 0;
}

abbrev one_time : Option (ℕ × HybridKemPrivateKey)
one_time = some (23, private_key 40)

abbrev random : ℕ → Bytes
random n = n ∷ []

pqxdh_responder-pqxdh_initiator_example :
    (bundle : PreKeyBundle) × (output : PqxdhOutput) × (message : PqxdhPrekeyMessage) × (new_bundle
        (identity 20)
        signed
        (offered one_time [])
      ≡ ok bundle)
    × (pqxdh_initiator random
          (record { identity = identity 10; ephemeral = private_key 50; peer_bundle = bundle })
        ≡ ok (output, message))
    × (pqxdh_responder (held (identity 20) (private_key 30) 17 one_time) message ≡ ok output)
    × (output.signed_prekey_id ≡ 17)
    × (output.one_time_prekey_id ≡ some 23)
    × (message.identity_public ≡ public (identity 10))
    × (bundle.identity_key ≡ public (identity 20))
    × (verify_bundle bundle ≡ ok tt)
pqxdh_responder-pqxdh_initiator_example =
    pqxdh_responder-pqxdh_initiator sample_laws sample-SignatureLaws sample_kem_laws random
      (identity 10) (identity 20) (private_key 50) (private_key 30) one_time [] signed refl

abbrev unsigned : PreKeyBundle
unsigned = record {
  identity_key = public (identity 20);
  identity_kem_public = public_key (private_key 20);
  signed_prekey = signed;
  one_time_prekeys = [];
  bundle_signature = no_signature;
}

abbrev first_message : PqxdhPrekeyMessage
first_message = record {
  identity_public = public (identity 10);
  identity_kem_public = public_key (private_key 10);
  ephemeral_public = public_key (private_key 50);
  ciphertexts = (replicate 1568 1, replicate 1568 2, replicate 1568 3, replicate 1568 4);
  one_time_ciphertext = none;
  signed_prekey_id = 17;
  one_time_prekey_id = none;
}
