-- ===== src/Crypto/Samples/Schemes.antt =====
-- Small signature schemes and a small key encapsulation that keep the laws and the sizes.
use presidium.Base.{
  ℕ, ◌+◌, ◌%◌, refl, true, [], ◌∷◌, replicate, get_or, ◌==◌, ==_refl, bytes_eq, bytes_eq_refl,
  length-replicate,
}
use presidium.Crypto.Constants.{Bytes}
use presidium.Crypto.Primitives.{Signatures, SignatureLaws, Kem, KemLaws}
use presidium.Crypto.Samples.{sum, digest}

abbrev mark : Bytes → Bytes → ℕ
mark seed msg = (sum seed + sum msg) % 256

instance abbrev pub sample_signatures : Signatures
sample_signatures = record {
  ed25519_public = λ seed. seed;
  ed25519_sign = digest;
  ed25519_key_valid = λ key. true;
  ed25519_verify = λ key msg sig. bytes_eq sig (digest key msg);
  ml_dsa_public = λ seed. seed;
  ml_dsa_sign = λ seed msg. replicate 4627 (mark seed msg);
  ml_dsa_signature_valid = λ sig. true;
  ml_dsa_verify = λ key msg sig. get_or sig 0 0 == mark key msg;
}

pub sample-SignatureLaws : SignatureLaws sample_signatures
sample-SignatureLaws = record {
  ed25519_valid = λ seed. refl;
  ed25519_accepts = λ seed msg. bytes_eq_refl (digest seed msg);
  ml_dsa_size = λ seed msg. length-replicate 4627 (mark seed msg);
  ml_dsa_valid = λ seed msg. refl;
  ml_dsa_accepts = λ seed msg. ==_refl (mark seed msg);
}

instance abbrev pub sample_kem : Kem
sample_kem = record {
  ml_kem_public = λ seed. replicate 1568 (sum seed);
  ml_kem_key_valid = λ key. true;
  ml_kem_encapsulate =
      λ key random. (replicate 1568 (sum random), (sum random + get_or key 0 0) ∷ []);
  ml_kem_decapsulate = λ seed ciphertext. (get_or ciphertext 0 0 + sum seed) ∷ [];
}

pub sample_kem_laws : KemLaws sample_kem
sample_kem_laws = record {
  ml_kem_public_size = λ seed. length-replicate 1568 (sum seed);
  ml_kem_valid = λ seed. refl;
  ml_kem_ciphertext_size = λ key random. length-replicate 1568 (sum random);
  ml_kem_agrees = λ seed random. refl;
}
