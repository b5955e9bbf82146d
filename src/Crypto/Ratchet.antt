-- ===== src/Crypto/Ratchet.antt =====
-- presidium-crypto/src/ratchet.rs. A fixed-size array of bytes is a list of bytes. A method on
-- `&mut self` returns the new state beside its result, also when it fails.
-- `encrypt`, `decrypt` and `dh_ratchet` are in `Messages`, the proofs in the other children.
pub mod Messages
pub mod Stream
pub mod Skipping
pub mod Delivery
pub mod Order
pub mod Exchange
pub mod Handshake
pub mod Session
pub mod Rotation
pub mod Limits
mod Examples
use presidium.Base.{
  ℕ, zero, suc, ◌+◌, ◌-◌, String, ◌≡◌, Bool, true, false, not, Option, none, some, List, [], ◌∷◌,
  ◌++◌, Result, ok, err, ◌>>=◌, ok_or, length, take, replicate, ltb, ◌==◌, if◌then◌else◌,
}
use presidium.Base.Words.{wrapping_suc, to_le}
use presidium.Crypto.Constants.{
  Bytes, ascii, root_key_size, chain_key_size, message_key_size, x25519_public_key_size,
  max_skip_messages, chain_key_info, message_key_info,
}
use presidium.Crypto.Error.{
  CryptoError, CryptoResult, from_json, invalid_key, decryption_failed, encryption_failed,
  key_derivation_failed, ratchet_error,
}
use presidium.Crypto.Primitives.{Primitives, Json}

pub record MessageKeys : Type 0 where
  pub key : Bytes
  pub index : ℕ

pub record ChainKey : Type 0 where
  pub key : Bytes
  pub index : ℕ

pub record RootKey : Type 0 where
  pub key : Bytes

pub record RatchetMessageHeader : Type 0 where
  pub dh_public_key : Bytes
  pub message_number : ℕ
  pub previous_message_number : ℕ

pub record RatchetChain : Type 0 where
  pub our_ratchet_key : Option Bytes
  pub their_ratchet_public : Option Bytes
  pub chain_key : Option ChainKey
  pub skipped_message_keys : List (ℕ × Bytes)

pub record DoubleRatchet : Type 0 where
  pub root_key : RootKey
  pub sending_chain : RatchetChain
  pub receiving_chain : RatchetChain
  pub session_id : String
  pub associated_data : Bytes

-- `RootKey::from_slice`.
unfoldable pub root_key_from_slice : Bytes → CryptoResult RootKey
root_key_from_slice slice =
    if not (length slice == root_key_size)
    then err (invalid_key "Root key must be 32 bytes")
    else ok (record { key = slice })

-- `nonce[4..].copy_from_slice(&index.to_le_bytes())` over twelve zero bytes.
unfoldable pub message_nonce : ℕ → Bytes
unfolding to_le
message_nonce index = replicate 4 0 ++ to_le 8 index

-- The first stored key of an index.
unfoldable pub find_skipped : ℕ → List (ℕ × Bytes) → Option Bytes
find_skipped n [] = none
find_skipped n ((index, key) ∷ rest) = if index == n then some key else find_skipped n rest

module _ ⦃p : Primitives⦄ where
  unfoldable pub hmac_sha256 : Bytes → Bytes → CryptoResult Bytes
  hmac_sha256 key info = ok_or (p.hmac key info) (key_derivation_failed "Invalid HMAC key")

  -- `ChainKey::message_key`.
  unfoldable pub message_key : ChainKey → CryptoResult MessageKeys
  unfolding hmac_sha256
  message_key chain = do
    digest ← hmac_sha256 chain.key message_key_info
    ok (record { key = take message_key_size digest; index = chain.index })

  -- `ChainKey::next`.
  unfoldable pub next : ChainKey → CryptoResult ChainKey
  unfolding hmac_sha256 wrapping_suc
  next chain = do
    digest ← hmac_sha256 chain.key chain_key_info
    ok (record { key = take chain_key_size digest; index = wrapping_suc chain.index })

  -- `RootKey::ratchet_step`.
  unfoldable pub ratchet_step : RootKey → Bytes → CryptoResult (RootKey × ChainKey)
  ratchet_step root dh_output = do
    new_root ←
        ok_or
          (p.hkdf_expand (some root.key) dh_output (ascii "presidium-ratchet-root") root_key_size)
          (key_derivation_failed "Root key derivation failed")
    new_chain ←
        ok_or
          (p.hkdf_expand (some root.key) dh_output (ascii "presidium-ratchet-chain") chain_key_size)
          (key_derivation_failed "Chain key derivation failed")
    ok (record { key = new_root }, record { key = new_chain; index = 0 })

  -- `DoubleRatchet::init`: our secret key, and the peer's public key.
  unfoldable pub init : String → RootKey → Bytes → Bytes → Bytes → CryptoResult DoubleRatchet
  init session_id root_key our_dh_key peer_dh_public associated_data = do
    (new_root, chain) ← ratchet_step root_key (p.diffie_hellman our_dh_key peer_dh_public)
    ok (record {
      root_key = new_root;
      sending_chain = record {
        our_ratchet_key = some our_dh_key;
        their_ratchet_public = some peer_dh_public;
        chain_key = some chain;
        skipped_message_keys = [];
      };
      receiving_chain = record {
        our_ratchet_key = none;
        their_ratchet_public = some peer_dh_public;
        chain_key = none;
        skipped_message_keys = [];
      };
      session_id = session_id;
      associated_data = associated_data;
    })

-- `DoubleRatchet::init_as_responder`.
unfoldable pub init_as_responder : String → RootKey → Bytes → Bytes → CryptoResult DoubleRatchet
init_as_responder session_id root_key our_ratchet_key associated_data = ok (record {
  root_key = root_key;
  sending_chain = record {
    our_ratchet_key = some our_ratchet_key;
    their_ratchet_public = none;
    chain_key = none;
    skipped_message_keys = [];
  };
  receiving_chain = record {
    our_ratchet_key = none;
    their_ratchet_public = none;
    chain_key = none;
    skipped_message_keys = [];
  };
  session_id = session_id;
  associated_data = associated_data;
})
