-- ===== src/Crypto/Identity/Kems.antt =====
-- identity.rs: the hybrid KEM and its encodings.
use mathlib.Core.Logic.{◌↔◌}
use presidium.Base.{
  ◌≡◌, none, ok, length, arith, ◌++◌, length-append, take-append, drop-append, take-append-drop,
  length-drop,
}
use presidium.Crypto.Constants.{Bytes, ascii}
use presidium.Crypto.Primitives.{Primitives, PrimitiveLaws, Kem, KemLaws}
use presidium.Crypto.Identity.{
  HybridKemPublicKey, HybridKemPrivateKey, from_bytes, as_bytes, public_key, encapsulate,
  decapsulate,
}

-- A public key of the right sizes is read back from its bytes.
pub from_bytes-as_bytes :
    (key : HybridKemPublicKey)
    → length key.classical ≡ 32
    → length key.pq ≡ 1568
    → from_bytes (as_bytes key) ≡ ok key
unfolding from_bytes as_bytes
from_bytes-as_bytes key h h' = ground (
  arith,
  length-append key.classical key.pq,
  take-append 32 key.classical key.pq h,
  drop-append 32 key.classical key.pq h,
)

-- `from_bytes` accepts exactly the encodings of keys of the right sizes, and returns the key
-- encoded.
from_bytes_iff :
    (bytes : Bytes) (key : HybridKemPublicKey)
    → (from_bytes bytes ≡ ok key)
      ↔ ((length key.classical ≡ 32) × (length key.pq ≡ 1568) × (as_bytes key ≡ bytes))
unfolding from_bytes as_bytes
from_bytes_iff bytes key = ground (
  arith,
  take-append-drop 32 bytes,
  length-drop 32 bytes,
  length-append key.classical key.pq,
  take-append 32 key.classical key.pq,
  drop-append 32 key.classical key.pq,
)

module _ ⦃p : Primitives⦄ ⦃k : Kem⦄ (laws : PrimitiveLaws p) (kem_laws : KemLaws k) where
  -- The shared secret of a sender's X25519 secret, a receiver's key and the bytes drawn.
  pub shared_of : Bytes → HybridKemPrivateKey → HybridKemPrivateKey → Bytes
  shared_of random sender receiver =
      laws.kdf none
        (p.diffie_hellman sender.classical (p.x25519_public receiver.classical)
          ++ (k.ml_kem_encapsulate (k.ml_kem_public receiver.pq) random).1)
        (ascii "presidium-pqxdh-shared") 32

  pub ciphertext_of : Bytes → HybridKemPrivateKey → Bytes
  ciphertext_of random receiver = (k.ml_kem_encapsulate (k.ml_kem_public receiver.pq) random).0

  pub encapsulate_lem :
      (random : Bytes) (sender receiver : HybridKemPrivateKey)
      → encapsulate random sender (public_key receiver)
        ≡ ok (ciphertext_of random receiver, shared_of random sender receiver)
  unfolding encapsulate public_key ciphertext_of shared_of
  encapsulate_lem random sender receiver = ground (
    arith,
    kem_laws.ml_kem_public_size receiver.pq,
    kem_laws.ml_kem_valid receiver.pq,
    laws.hkdf_kdf none
        (p.diffie_hellman sender.classical (p.x25519_public receiver.classical)
          ++ (k.ml_kem_encapsulate (k.ml_kem_public receiver.pq) random).1)
        (ascii "presidium-pqxdh-shared") 32 (omega arith),
  )

  pub decapsulate_lem :
      (random : Bytes) (sender receiver : HybridKemPrivateKey)
      → decapsulate receiver (ciphertext_of random receiver) (public_key sender)
        ≡ ok (shared_of random sender receiver)
  unfolding decapsulate public_key ciphertext_of shared_of
  decapsulate_lem random sender receiver = ground (
    arith,
    kem_laws.ml_kem_ciphertext_size (k.ml_kem_public receiver.pq) random,
    kem_laws.ml_kem_agrees receiver.pq random,
    laws.dh_comm sender.classical receiver.classical,
    laws.hkdf_kdf none
        (p.diffie_hellman sender.classical (p.x25519_public receiver.classical)
          ++ (k.ml_kem_encapsulate (k.ml_kem_public receiver.pq) random).1)
        (ascii "presidium-pqxdh-shared") 32 (omega arith),
  )

  -- Whoever encapsulates to a public key agrees on the shared secret with the holder of the private
  -- key, who decapsulates with the sender's public key.
  pub decapsulate-encapsulate :
      (random : Bytes) (sender receiver : HybridKemPrivateKey)
      → (ciphertext shared : Bytes) × (encapsulate random sender (public_key receiver)
          ≡ ok (ciphertext, shared))
        × (decapsulate receiver ciphertext (public_key sender) ≡ ok shared)
  decapsulate-encapsulate random sender receiver = (
    ciphertext_of random receiver,
    shared_of random sender receiver,
    encapsulate_lem random sender receiver,
    decapsulate_lem random sender receiver,
  )
