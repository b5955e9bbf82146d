-- ===== src/Crypto/Pqxdh/Legs.antt =====
-- pqxdh.rs: each leg of the key agreement, on both sides.
use presidium.Base.{ℕ, ◌≡◌, refl, Option, none, some, List, [], ◌∷◌, ◌++◌, ok, arith, ==_refl}
use presidium.Crypto.Constants.{Bytes, ascii}
use presidium.Crypto.Primitives.{Primitives, PrimitiveLaws, Kem, KemLaws}
use presidium.Crypto.Identity.{IdentityKeyPair, HybridKemPrivateKey, OneTimePreKey, public_key}
use presidium.Crypto.Identity.Kems.{shared_of, ciphertext_of, encapsulate_lem, decapsulate_lem}
use presidium.Crypto.Pqxdh.{
  PqxdhResponderKeys, derive_master_secret, hybrid_encaps, hybrid_dh, initiator_one_time,
  responder_one_time, select_one_time,
}

-- The one-time prekey that a bundle offers, before others.
abbrev pub offered :
    ⦃p : Primitives⦄
    → ⦃k : Kem⦄ → Option (ℕ × HybridKemPrivateKey)
    → List OneTimePreKey
    → List OneTimePreKey
offered none rest = []
offered (some (id, key)) rest = record { key_id = id; public_key = public_key key } ∷ rest

abbrev pub id_of : Option (ℕ × HybridKemPrivateKey) → Option ℕ
id_of none = none
id_of (some (id, key)) = some id

abbrev pub key_of : Option (ℕ × HybridKemPrivateKey) → Option HybridKemPrivateKey
key_of none = none
key_of (some (id, key)) = some key

-- What the responder holds: the private keys of its bundle and their ids.
abbrev pub held :
    IdentityKeyPair
    → HybridKemPrivateKey
    → ℕ
    → Option (ℕ × HybridKemPrivateKey)
    → PqxdhResponderKeys
held identity prekey id one_time = record {
  identity = identity;
  signed_prekey = prekey;
  signed_prekey_id = id;
  one_time_prekey = key_of one_time;
  one_time_prekey_id = id_of one_time;
}

module _ ⦃p : Primitives⦄ ⦃k : Kem⦄ (laws : PrimitiveLaws p) (kem_laws : KemLaws k) where
  pub hybrid_encaps_lem :
      (random : Bytes) (sender receiver : HybridKemPrivateKey)
      → hybrid_encaps random sender (public_key receiver)
        ≡ ok (
          shared_of laws kem_laws random sender receiver,
          ciphertext_of laws kem_laws random receiver,
        )
  unfolding hybrid_encaps
  hybrid_encaps_lem random sender receiver =
      rw (encapsulate_lem laws kem_laws random sender receiver)

  pub hybrid_dh_lem :
      (random : Bytes) (sender receiver : HybridKemPrivateKey)
      → hybrid_dh receiver (public_key sender) (some (ciphertext_of laws kem_laws random receiver))
        ≡ ok (shared_of laws kem_laws random sender receiver)
  unfolding hybrid_dh
  hybrid_dh_lem random sender receiver = decapsulate_lem laws kem_laws random sender receiver

  -- The secret of the one-time leg, where there is one, and its ciphertext.
  pub one_time_secret :
      Bytes → HybridKemPrivateKey → Option (ℕ × HybridKemPrivateKey) → Option Bytes
  one_time_secret random ephemeral none = none
  one_time_secret random ephemeral (some (id, key)) =
      some (shared_of laws kem_laws random ephemeral key)

  pub one_time_cipher : Bytes → Option (ℕ × HybridKemPrivateKey) → Option Bytes
  one_time_cipher random none = none
  one_time_cipher random (some (id, key)) = some (ciphertext_of laws kem_laws random key)

  pub initiator_one_time_lem :
      (random : Bytes) (ephemeral : HybridKemPrivateKey) (o : Option (ℕ × HybridKemPrivateKey))
      (rest : List OneTimePreKey)
      → initiator_one_time random ephemeral (offered o rest)
        ≡ ok (one_time_secret random ephemeral o, one_time_cipher random o, id_of o)
  unfolding initiator_one_time one_time_secret one_time_cipher
  initiator_one_time_lem random ephemeral none rest = refl
  initiator_one_time_lem random ephemeral (some (id, key)) rest =
      rw (hybrid_encaps_lem random ephemeral key)

  pub select_one_time_lem :
      (o : Option (ℕ × HybridKemPrivateKey))
      → select_one_time (key_of o) (id_of o) (id_of o) ≡ ok (key_of o)
  unfolding select_one_time
  select_one_time_lem none = refl
  select_one_time_lem (some (id, key)) = rw (==_refl id)

  pub responder_one_time_lem :
      (random : Bytes) (ephemeral : HybridKemPrivateKey) (o : Option (ℕ × HybridKemPrivateKey))
      → responder_one_time (key_of o) (public_key ephemeral) (one_time_cipher random o)
        ≡ ok (one_time_secret random ephemeral o)
  unfolding responder_one_time one_time_secret one_time_cipher
  responder_one_time_lem random ephemeral none = refl
  responder_one_time_lem random ephemeral (some (id, key)) = rw (hybrid_dh_lem random ephemeral key)

  pub master_of : Bytes → Bytes → Bytes → Bytes → Option Bytes → Bytes
  master_of a b c d none = laws.kdf none (a ++ (b ++ (c ++ d))) (ascii "PQXDH-MASTER") 32
  master_of a b c d (some e) = laws.kdf none (a ++ (b ++ (c ++ (d ++ e)))) (ascii "PQXDH-MASTER") 32

  pub derive_master_secret_lem :
      (a b c d : Bytes) (e : Option Bytes)
      → derive_master_secret a b c d e ≡ ok (master_of a b c d e)
  unfolding derive_master_secret master_of
  derive_master_secret_lem a b c d none =
      rw (laws.hkdf_kdf none (a ++ (b ++ (c ++ d))) (ascii "PQXDH-MASTER") 32 (omega arith))
  derive_master_secret_lem a b c d (some e) =
      rw (laws.hkdf_kdf none (a ++ (b ++ (c ++ (d ++ e)))) (ascii "PQXDH-MASTER") 32 (omega arith))

  -- The secret that both sides come to, from the ephemeral key and Alice's and Bob's keys.
  unfoldable pub agreed_secret :
      (ℕ → Bytes)
      → HybridKemPrivateKey
      → HybridKemPrivateKey
      → HybridKemPrivateKey
      → HybridKemPrivateKey
      → Option (ℕ × HybridKemPrivateKey)
      → Bytes
  agreed_secret random ephemeral alice prekey bob o =
      master_of (shared_of laws kem_laws (random 1) ephemeral prekey)
        (shared_of laws kem_laws (random 2) alice prekey)
        (shared_of laws kem_laws (random 3) ephemeral bob)
        (shared_of laws kem_laws (random 4) alice bob) (one_time_secret (random 5) ephemeral o)
