-- ===== src/Crypto/Constants.antt =====
-- presidium-crypto/src/constants.rs, and the info strings of keys.rs.
use Prim.Native.Char.{code}
use Prim.Native.String.{String}
use presidium.Base.{ℕ, List, [], ◌∷◌}

abbrev pub Bytes : Type 0
Bytes = List ℕ

-- A byte string literal, `b"..."`.
abbrev pub ascii : String → Bytes
ascii String.[] = []
ascii (String.◌∷◌ c s) = code c ∷ ascii s

abbrev pub ed25519_public_key_size : ℕ
ed25519_public_key_size = 32

abbrev pub ed25519_private_key_size : ℕ
ed25519_private_key_size = 32

abbrev pub ed25519_signature_size : ℕ
ed25519_signature_size = 64

abbrev pub x25519_public_key_size : ℕ
x25519_public_key_size = 32

abbrev pub ml_kem_1024_public_key_size : ℕ
ml_kem_1024_public_key_size = 1568

abbrev pub ml_kem_1024_private_key_size : ℕ
ml_kem_1024_private_key_size = 64

abbrev pub ml_kem_1024_ciphertext_size : ℕ
ml_kem_1024_ciphertext_size = 1568

abbrev pub ml_dsa_87_public_key_size : ℕ
ml_dsa_87_public_key_size = 2592

abbrev pub ml_dsa_87_private_key_size : ℕ
ml_dsa_87_private_key_size = 32

abbrev pub ml_dsa_87_signature_size : ℕ
ml_dsa_87_signature_size = 4627

abbrev pub chacha20_poly1305_key_size : ℕ
chacha20_poly1305_key_size = 32

abbrev pub chacha20_poly1305_nonce_size : ℕ
chacha20_poly1305_nonce_size = 12

abbrev pub root_key_size : ℕ
root_key_size = 32

abbrev pub chain_key_size : ℕ
chain_key_size = 32

abbrev pub message_key_size : ℕ
message_key_size = 32

abbrev pub max_skip_messages : ℕ
max_skip_messages = 1000

abbrev pub media_nonce_size : ℕ
media_nonce_size = 12

abbrev pub key_rotation_message_count : ℕ
key_rotation_message_count = 1000

abbrev pub chain_key_info : Bytes
chain_key_info = ascii "presidium-chain-key"

abbrev pub message_key_info : Bytes
message_key_info = ascii "presidium-message-key"
