-- ===== src/Demo/Envelopes.antt =====
-- presidium-demo/src/session.rs: signed network envelopes. The clock, SHA-256 and serde_json are
-- parameters; a device id is the bytes of its string.
pub use presidium.Network.Messages.{NetworkEnvelope}
use presidium.Base.{
  ℕ, ◌≡◌, refl, Bool, true, false, String, [], ◌∷◌, ◌++◌, Result, ok, err, ◌>>=◌, map_err,
}
use presidium.Crypto.Constants.{Bytes}
use presidium.Crypto.Error.{CryptoError}
use presidium.Crypto.Primitives.{Signatures, SignatureLaws, Json, JsonLaws}
use presidium.Crypto.Ratchet.{RatchetMessageHeader}
use presidium.Crypto.Identity.{
  IdentityKeyPair, IdentityPublicKey, HybridSignature, public, sign_hybrid, verify_hybrid,
}
use presidium.Crypto.Identity.Signing.{verify_hybrid-sign_hybrid}
use presidium.Storage.Error.{StorageError}

-- `anyhow::Error`: an error of presidium-crypto, of presidium-storage or of serde_json, a message of
-- `bail!`, or one of these under a context. A panic is an error of its own here.
pub data AnyError : Type 0 where
  crypto : CryptoError → AnyError
  storage : StorageError → AnyError
  serde : String → AnyError
  bail : String → AnyError
  panic : String → AnyError
  context : String → AnyError → AnyError

abbrev pub AnyResult : Type 0 → Type 0
AnyResult A = Result AnyError A

-- `sha2::Sha256`.
pub record Hash : Type 0 where
  pub sha256 : Bytes → Bytes

abbrev pub kind_direct : ℕ
kind_direct = 1

abbrev pub kind_sync : ℕ
kind_sync = 3

unfoldable pub signed_bytes : Bytes → Bytes → Bytes
signed_bytes header_json payload = header_json ++ payload

module _ ⦃s : Signatures⦄ ⦃hash : Hash⦄ ⦃json : Json HybridSignature⦄ where
  -- `now` is the clock's milliseconds, not below 0.
  unfoldable pub build_raw_envelope :
      IdentityKeyPair → Bytes → ℕ → ℕ → Bytes → Bytes → Bytes → AnyResult NetworkEnvelope
  unfolding signed_bytes
  build_raw_envelope identity device_id now kind conversation_id payload header_json = do
    signature ← map_err crypto (sign_hybrid identity (signed_bytes header_json payload))
    signature_json ← map_err serde (json.to_vec signature)
    ok (record {
      kind = kind;
      conversation_id = conversation_id;
      sender_device_id = device_id;
      timestamp = now;
      encrypted_payload = payload;
      mac = hash.sha256 payload;
      protocol_version = 1;
      nonce = header_json;
      signature = signature_json;
    })

  unfoldable pub sync_envelope : IdentityKeyPair → Bytes → ℕ → ℕ → Bytes → AnyResult NetworkEnvelope
  sync_envelope identity device_id now marker body =
      build_raw_envelope identity device_id now kind_sync device_id (marker ∷ body) []

  unfoldable pub build_signed_envelope :
      ⦃header_json : Json RatchetMessageHeader⦄
      → IdentityKeyPair
      → Bytes
      → ℕ
      → ℕ
      → Bytes
      → Bytes
      → RatchetMessageHeader
      → AnyResult NetworkEnvelope
  build_signed_envelope ⦃header_json⦄ identity device_id now kind conversation_id ciphertext
        header =
      do
        bytes ← map_err serde (header_json.to_vec header)
        build_raw_envelope identity device_id now kind conversation_id ciphertext bytes

unfoldable pub parse_header :
    ⦃header_json : Json RatchetMessageHeader⦄ → Bytes → AnyResult RatchetMessageHeader
parse_header ⦃header_json⦄ nonce =
    map_err (λ e. context "parse ratchet header" (serde e)) (header_json.from_slice nonce)

-- `Result::is_ok`.
abbrev pub is_ok {ℓ κ} : {E : Type κ} {A : Type ℓ} → Result E A → Bool
is_ok (ok a) = true
is_ok (err e) = false

unfoldable pub verify_envelope :
    ⦃s : Signatures⦄
    → ⦃json : Json HybridSignature⦄ → IdentityPublicKey
    → NetworkEnvelope
    → AnyResult Bool
verify_envelope ⦃json = json⦄ peer envelope = do
  signature ←
      map_err (λ e. context "parse signature" (serde e)) (json.from_slice envelope.signature)
  ok (is_ok (verify_hybrid peer (signed_bytes envelope.nonce envelope.encrypted_payload) signature))

-- An envelope that an identity builds carries the ciphertext and the header, and is accepted under the
-- public key of this identity.
pub verify_envelope-build_signed_envelope :
    ⦃s : Signatures⦄ ⦃hash : Hash⦄ ⦃json : Json HybridSignature⦄
    ⦃header_json : Json RatchetMessageHeader⦄ (laws : SignatureLaws s) (json_laws : JsonLaws json)
    (header_laws : JsonLaws header_json) (identity : IdentityKeyPair) (device_id : Bytes)
    (now kind : ℕ) (conversation_id ciphertext : Bytes) (header : RatchetMessageHeader)
    → (envelope : NetworkEnvelope) × (build_signed_envelope identity device_id now kind
          conversation_id ciphertext header
        ≡ ok envelope)
      × (verify_envelope (public identity) envelope ≡ ok true)
      × (parse_header envelope.nonce ≡ ok header)
      × (envelope.encrypted_payload ≡ ciphertext)
unfolding build_signed_envelope build_raw_envelope verify_envelope parse_header
verify_envelope-build_signed_envelope ⦃hash = hash⦄ laws json_laws header_laws identity device_id
      now kind conv ciphertext header =
    let bytes : Bytes = header_laws.text header in
    let (sig, made, accepted) =
      verify_hybrid-sign_hybrid laws identity (signed_bytes bytes ciphertext) in
    (
      record {
        kind = kind;
        conversation_id = conv;
        sender_device_id = device_id;
        timestamp = now;
        encrypted_payload = ciphertext;
        mac = hash.sha256 ciphertext;
        protocol_version = 1;
        nonce = bytes;
        signature = json_laws.text sig;
      },
      rw (header_laws.to_vec_text header, made, json_laws.to_vec_text sig),
      rw (json_laws.from_slice_text sig, accepted),
      rw (header_laws.from_slice_text header),
      refl,
    )
