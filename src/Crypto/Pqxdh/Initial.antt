-- ===== src/Crypto/Pqxdh/Initial.antt =====
-- pqxdh.rs: the encrypted first message.
use presidium.Base.{◌≡◌, ◌≤◌, ok, length, ◌++◌, arith, take-append, drop-append, length-append}
use presidium.Crypto.Constants.{Bytes}
use presidium.Crypto.Primitives.{Primitives, PrimitiveLaws, aead_limit}
use presidium.Crypto.Pqxdh.{pqxdh_encrypt_initial, pqxdh_decrypt_initial}

-- A first message that was encrypted, under a nonce of 12 bytes, decrypts to its plaintext under the
-- same secret and associated data.
pqxdh_decrypt_initial-pqxdh_encrypt_initial :
    ⦃p : Primitives⦄ (laws : PrimitiveLaws p) (nonce secret plaintext aad : Bytes)
    → length nonce ≡ 12
    → length plaintext ≤ aead_limit
    → (message : Bytes) × (pqxdh_encrypt_initial nonce secret plaintext aad ≡ ok message)
      × (pqxdh_decrypt_initial secret message aad ≡ ok plaintext)
unfolding pqxdh_encrypt_initial pqxdh_decrypt_initial
pqxdh_decrypt_initial-pqxdh_encrypt_initial laws nonce secret plaintext aad h h' =
    let sealed : Bytes = laws.seal secret nonce aad plaintext in
    (
      nonce ++ sealed,
      rw (laws.aead_seal secret nonce aad plaintext h'),
      ground (
        arith,
        length-append nonce sealed,
        take-append 12 nonce sealed h,
        drop-append 12 nonce sealed h,
        laws.aead_open secret nonce aad plaintext h',
      ),
    )
