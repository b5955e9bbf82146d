-- ===== src/Crypto/Samples.antt =====
-- Small primitives that keep the laws, for tests and examples: keys are summed, and a cipher text is
-- the message behind a tag.
pub mod Schemes
pub mod Texts
pub mod Prekeys
use presidium.Base.{
  ℕ, zero, suc, ◌+◌, ◌*◌, ◌%◌, ◌≤◌, String, ◌≡◌, refl, Bool, true, false, Option, none, some, List,
  [], ◌∷◌, ◌++◌, Result, ok, err, length, ◌==◌, ==_refl, bytes_eq, bytes_eq_refl, if◌then◌else◌,
  arith,
}
use native.Mathlib.Nat.{add_comm}
use presidium.Crypto.Constants.{Bytes}
use presidium.Crypto.Primitives.{Primitives, PrimitiveLaws, Json, JsonLaws, hkdf_limit, aead_limit}

abbrev pub sum : Bytes → ℕ
sum [] = 0
sum (x ∷ xs) = x + sum xs

abbrev salt_sum : Option Bytes → ℕ
salt_sum none = 0
salt_sum (some salt) = sum salt

abbrev pub digest : Bytes → Bytes → Bytes
digest key info = ((3 * sum key + sum info) % 256) ∷ []

abbrev tag : Bytes → Bytes → Bytes → ℕ
tag key nonce aad = (sum key + 7 * sum nonce + sum aad) % 256

abbrev open_tagged : ℕ → Bytes → Option Bytes
open_tagged t [] = none
open_tagged t (x ∷ msg) = if x == t then some msg else none

instance abbrev pub sample : Primitives
sample = record {
  x25519_public = λ key. key;
  diffie_hellman = λ a b. (sum a + sum b) ∷ [];
  hkdf_expand = λ salt ikm info n. some (((salt_sum salt + sum ikm + sum info + n) % 256) ∷ []);
  hmac = λ key info. some (digest key info);
  aead_encrypt = λ key nonce aad msg. some (tag key nonce aad ∷ msg);
  aead_decrypt = λ key nonce aad msg. open_tagged (tag key nonce aad) msg;
}

dh_comm_lem : (a b : Bytes) → ◌≡◌ {A = Bytes} ((sum a + sum b) ∷ []) ((sum b + sum a) ∷ [])
dh_comm_lem a b = rw (add_comm (sum a) (sum b))

open_tagged_lem : (t : ℕ) (msg : Bytes) → open_tagged t (t ∷ msg) ≡ some msg
open_tagged_lem t msg = rw (==_refl t)

pub sample_laws : PrimitiveLaws sample
sample_laws = record {
  dh_comm = dh_comm_lem;
  mac = digest;
  hmac_mac = λ key info. refl;
  kdf = λ salt ikm info n. ((salt_sum salt + sum ikm + sum info + n) % 256) ∷ [];
  hkdf_kdf = λ salt ikm info n h. refl;
  seal = λ key nonce aad msg. tag key nonce aad ∷ msg;
  aead_seal = λ key nonce aad msg h. refl;
  aead_open = λ key nonce aad msg h. open_tagged_lem (tag key nonce aad) msg;
}
