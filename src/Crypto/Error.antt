-- ===== src/Crypto/Error.antt =====
-- presidium-crypto/src/error.rs.
use presidium.Base.{ℕ, String, Result, ok, err}

pub data CryptoError : Type 0 where
  invalid_key : String → CryptoError
  invalid_signature : CryptoError
  decryption_failed : CryptoError
  encryption_failed : String → CryptoError
  key_derivation_failed : String → CryptoError
  unsupported_version : ℕ → CryptoError
  invalid_message : String → CryptoError
  ratchet_error : String → CryptoError
  pqxdh_error : String → CryptoError
  serialization_error : String → CryptoError
  invalid_parameter : String → CryptoError
  illegal_state : String → CryptoError
  no_prekeys_available : CryptoError
  key_rotation_required : CryptoError
  memory_error : String → CryptoError

-- `Result<T>` of the crate.
abbrev pub CryptoResult : Type 0 → Type 0
CryptoResult A = Result CryptoError A

-- `impl From<serde_json::Error> for CryptoError`, the error given by its text.
abbrev pub from_json {ℓ} : {A : Type ℓ} → Result String A → Result CryptoError A
from_json (ok a) = ok a
from_json (err text) = err (serialization_error text)
