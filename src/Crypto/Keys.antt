-- ===== src/Crypto/Keys.antt =====
-- presidium-crypto/src/keys.rs: session keys, sender keys of a group, and media keys. Random bytes
-- are an argument of the function that draws them. The peer's identity key is a parameter type, as
-- the code only stores it.
pub mod Sessions
pub mod Groups
pub mod Media
mod Examples
use presidium.Base.{
  ℕ, Bool, true, false, not, Option, none, some, String, List, [], ◌∷◌, ◌++◌, Result, ok, err,
  ◌>>=◌, ok_or, take, replicate, leb, if◌then◌else◌,
}
use presidium.Base.Words.{wrapping_suc, saturating_suc, to_le, to_be}
use presidium.Crypto.Constants.{
  Bytes, ascii, root_key_size, chain_key_size, message_key_size, message_key_info,
  key_rotation_message_count,
}
use presidium.Crypto.Error.{
  CryptoError, CryptoResult, decryption_failed, encryption_failed, key_derivation_failed,
  invalid_parameter,
}
use presidium.Crypto.Primitives.{Primitives}
use presidium.Crypto.Ratchet.{RootKey, DoubleRatchet, init, init_as_responder}

pub record SessionKeys (IdentityPublicKey : Type 0) : Type 0 where
  pub is_initiator : Bool
  pub root_key : Bytes
  pub sending_chain : Bytes
  pub receiving_chain : Bytes
  pub peer_identity : IdentityPublicKey
  pub message_count : ℕ

pub record IdentityKey : Type 0 where
  pub public : Bytes

pub record SenderKeys : Type 0 where
  pub chain_key : Bytes
  pub group_id : Bytes
  pub sender_identity : IdentityKey
  pub message_index : ℕ
  pub key_id : ℕ

pub record SenderKeyMessage : Type 0 where
  pub group_id : Bytes
  pub sender_identity : IdentityKey
  pub message_index : ℕ
  pub ciphertext : Bytes

pub record MediaKey : Type 0 where
  pub key : Bytes
  pub kind : ℕ

-- `nonce[4..].copy_from_slice(..)` over twelve zero bytes: little endian for messages, big endian for
-- media chunks.
unfoldable pub index_nonce : ℕ → Bytes
index_nonce index = replicate 4 0 ++ to_le 8 index

unfoldable pub chunk_nonce : ℕ → Bytes
chunk_nonce index = replicate 4 0 ++ to_be 8 index

module _ {IdentityPublicKey : Type 0} where
  unfoldable pub increment_count : SessionKeys IdentityPublicKey → SessionKeys IdentityPublicKey
  increment_count keys = record keys { message_count = saturating_suc keys.message_count }

  unfoldable pub needs_rotation : SessionKeys IdentityPublicKey → Bool
  needs_rotation keys = leb key_rotation_message_count keys.message_count

module _ ⦃p : Primitives⦄ {IdentityPublicKey : Type 0} where
  -- `SessionKeys::new`.
  unfoldable pub new_session :
      Bool → Bytes → IdentityPublicKey → CryptoResult (SessionKeys IdentityPublicKey)
  new_session is_initiator shared_secret peer_identity = do
    root_key ←
        ok_or (p.hkdf_expand none shared_secret (ascii "ROOT_KEY") root_key_size)
          (key_derivation_failed "Root key derivation failed")
    sending_chain ←
        ok_or (p.hkdf_expand none shared_secret (ascii "SENDING_CHAIN") chain_key_size)
          (key_derivation_failed "Sending chain derivation failed")
    receiving_chain ←
        ok_or (p.hkdf_expand none shared_secret (ascii "RECEIVING_CHAIN") chain_key_size)
          (key_derivation_failed "Receiving chain derivation failed")
    ok (record {
      is_initiator = is_initiator;
      root_key = root_key;
      sending_chain = sending_chain;
      receiving_chain = receiving_chain;
      peer_identity = peer_identity;
      message_count = 0;
    })

  unfoldable pub to_ratchet :
      SessionKeys IdentityPublicKey → Bytes → Option Bytes → CryptoResult DoubleRatchet
  to_ratchet keys our_dh_key peer_dh_public =
      let root_key : RootKey = record { key = keys.root_key } in
      elim keys.is_initiator [
        | true ↦ do
          peer ← ok_or peer_dh_public (invalid_parameter "Peer ratchet public key required")
          init "presidium-session" root_key our_dh_key peer []
        | false ↦ init_as_responder "presidium-session" root_key our_dh_key []
      ]

-- `SenderKeys::new`, with the random chain key.
unfoldable pub new_sender : Bytes → Bytes → IdentityKey → CryptoResult SenderKeys
new_sender random group_id sender = ok (record {
  chain_key = random;
  group_id = group_id;
  sender_identity = sender;
  message_index = 0;
  key_id = 1;
})

-- `MediaKey::generate`, with the random key.
unfoldable pub generate_media_key : Bytes → ℕ → CryptoResult MediaKey
generate_media_key random kind = ok (record { key = random; kind = kind })

module _ ⦃p : Primitives⦄ where
  unfoldable pub hmac_sha256 : Bytes → Bytes → CryptoResult Bytes
  hmac_sha256 key info = ok_or (p.hmac key info) (key_derivation_failed "Invalid HMAC key")

  -- `SenderKeys::encrypt`. The chain and the index have moved on when the cipher fails.
  unfoldable pub encrypt : SenderKeys → Bytes → Bytes → SenderKeys × CryptoResult Bytes
  unfolding hmac_sha256 wrapping_suc index_nonce
  encrypt s plaintext associated_data = elim (hmac_sha256 s.chain_key message_key_info) [
    | err e ↦ (s, err e)
    | ok digest ↦ elim (hmac_sha256 s.chain_key (ascii "presidium-sender-advance")) [
      | err e ↦ (s, err e)
      | ok next ↦ (
        record s {
          chain_key = take chain_key_size next;
          message_index = wrapping_suc s.message_index;
        },
        ok_or
            (p.aead_encrypt (take message_key_size digest) (index_nonce s.message_index)
              associated_data plaintext)
            (encryption_failed "Sender key encryption failed"),
      )
    ]
  ]

  -- `SenderKeys::decrypt` writes nothing.
  unfoldable pub decrypt : SenderKeys → Bytes → ℕ → Bytes → CryptoResult Bytes
  unfolding hmac_sha256 index_nonce
  decrypt s ciphertext index associated_data = do
    digest ← hmac_sha256 s.chain_key message_key_info
    ok_or
        (p.aead_decrypt (take message_key_size digest) (index_nonce index) associated_data
          ciphertext)
        decryption_failed

  unfoldable pub advance : SenderKeys → CryptoResult SenderKeys
  unfolding hmac_sha256 saturating_suc
  advance s = do
    next ← hmac_sha256 s.chain_key (ascii "presidium-sender-advance")
    ok (record s {
      chain_key = take chain_key_size next;
      message_index = saturating_suc s.message_index;
    })

  unfoldable pub encrypt_chunk : MediaKey → Bytes → ℕ → CryptoResult Bytes
  unfolding chunk_nonce
  encrypt_chunk key chunk chunk_index =
      ok_or (p.aead_encrypt key.key (chunk_nonce chunk_index) (ascii "presidium-media") chunk)
        (encryption_failed "Media encryption failed")

  unfoldable pub decrypt_chunk : MediaKey → Bytes → ℕ → CryptoResult Bytes
  unfolding chunk_nonce
  decrypt_chunk key chunk chunk_index =
      ok_or (p.aead_decrypt key.key (chunk_nonce chunk_index) (ascii "presidium-media") chunk)
        decryption_failed
