-- ===== src/Demo/Group/Delivery.antt =====
-- presidium-demo/src/group.rs: a publisher and a reader that stay in step.
use presidium.Base.{ℕ, suc, ◌≡◌, ◌≤◌, refl, ap, ◌∙◌, true, some, ok, length, arith}
use presidium.Base.Words.{IsU64, wrapping_pred, saturating_suc}
use presidium.Crypto.Constants.{Bytes}
use presidium.Crypto.Primitives.{
  Primitives, PrimitiveLaws, Signatures, SignatureLaws, Json, JsonLaws, aead_limit,
}
use presidium.Crypto.Identity.{IdentityKeyPair, IdentityPublicKey, HybridSignature, public}
use presidium.Crypto.Identity.Signing.{verify_hybrid-sign_hybrid}
use presidium.Crypto.Keys.{SenderKeys, SenderKeyMessage, index_nonce, new_sender, encrypt}
use presidium.Crypto.Keys.Groups.{next_chain, sender_key, encrypt_lem, decrypt_lem, advance_lem}
use presidium.Demo.Envelopes.{
  NetworkEnvelope, Hash, signed_bytes, build_raw_envelope, verify_envelope,
}
use presidium.Demo.Group.{
  GroupChat, GroupKeyDistribution, kind_group, create_sender, apply_group_key, group_envelope,
  publish, open_group, read_group, group_decrypt,
}

-- A publisher and a reader of a group hold the same chain at the same index, and the reader knows the
-- publisher's identity.
pub record InStep (identity : IdentityPublicKey) (publisher reader : GroupChat) : Type 0 where
  pub sender : SenderKeys
  pub receiver : SenderKeys
  pub sends : publisher.sender ≡ some sender
  pub receives : reader.receiver ≡ some receiver
  pub knows : reader.peer_identity ≡ some identity
  pub same_group : reader.group_id ≡ publisher.group_id
  pub same_key : receiver.chain_key ≡ sender.chain_key
  pub same_index : receiver.message_index ≡ sender.message_index

wrapping_pred_lem : (n : ℕ) → IsU64 (suc n) → wrapping_pred (suc n) ≡ n
unfolding wrapping_pred
wrapping_pred_lem n h = omega arith

saturating_suc_lem : (n : ℕ) → IsU64 (suc n) → saturating_suc n ≡ suc n
unfolding saturating_suc
saturating_suc_lem n h = ground arith

module _ ⦃s : Signatures⦄ where
  -- A reader that applies what a publisher's new sender keys are handed out as is in step with it.
  apply_group_key-create_sender :
      (publisher reader : GroupChat) (random : Bytes) (identity : IdentityKeyPair)
      → reader.group_id ≡ publisher.group_id
      → (publisher' : GroupChat) × (distribution : GroupKeyDistribution) × (create_sender publisher
            random identity
          ≡ (publisher', ok distribution))
        × InStep
            (public identity)
            publisher'
            (apply_group_key reader distribution (public identity))
  unfolding create_sender apply_group_key new_sender
  apply_group_key-create_sender publisher reader random identity h = (
    _,
    _,
    refl,
    record {
      sender = _;
      receiver = _;
      sends = refl;
      receives = refl;
      knows = refl;
      same_group = h;
      same_key = refl;
      same_index = refl;
    },
  )

module _ ⦃p : Primitives⦄ ⦃s : Signatures⦄ ⦃hash : Hash⦄ ⦃json : Json HybridSignature⦄
    ⦃message_json : Json SenderKeyMessage⦄ (laws : PrimitiveLaws p) (sig_laws : SignatureLaws s)
    (json_laws : JsonLaws json) (message_laws : JsonLaws message_json) where
  group_message : GroupChat → IdentityKeyPair → ℕ → Bytes → SenderKeyMessage
  group_message group identity index ciphertext = record {
    group_id = group.group_id;
    sender_identity = record { public = (public identity).classical };
    message_index = index;
    ciphertext = ciphertext;
  }

  group_envelope_lem :
      (group : GroupChat) (identity : IdentityKeyPair) (device_id : Bytes) (now index : ℕ)
      (ciphertext : Bytes)
      → (envelope : NetworkEnvelope) × (group_envelope group identity device_id now index ciphertext
          ≡ ok envelope)
        × (verify_envelope (public identity) envelope ≡ ok true)
        × (message_json.from_slice envelope.nonce
            ≡ ok (group_message group identity index ciphertext))
        × (envelope.encrypted_payload ≡ ciphertext)
  unfolding group_envelope build_raw_envelope verify_envelope group_message
  group_envelope_lem group identity device_id now index ciphertext =
      let message : SenderKeyMessage = group_message group identity index ciphertext in
      let bytes : Bytes = message_laws.text message in
      let (sig, made, accepted) =
        verify_hybrid-sign_hybrid sig_laws identity (signed_bytes bytes ciphertext) in
      (
        record {
          kind = kind_group;
          conversation_id = group.conversation_id;
          sender_device_id = device_id;
          timestamp = now;
          encrypted_payload = ciphertext;
          mac = hash.sha256 ciphertext;
          protocol_version = 1;
          nonce = bytes;
          signature = json_laws.text sig;
        },
        rw (message_laws.to_vec_text message, made, json_laws.to_vec_text sig),
        rw (json_laws.from_slice_text sig, accepted),
        message_laws.from_slice_text message,
        refl,
      )

  open_group_lem :
      (keys : SenderKeys) (group_id key plaintext : Bytes) (message : SenderKeyMessage)
      → keys.chain_key ≡ key
      → length plaintext ≤ aead_limit
      → open_group keys group_id
          (laws.seal
            (sender_key laws group_id key)
            (index_nonce message.message_index)
            group_id
            plaintext)
          message
        ≡ (
          record keys {
            chain_key = next_chain laws group_id keys.chain_key;
            message_index = saturating_suc keys.message_index;
          },
          ok plaintext,
        )
  unfolding open_group
  open_group_lem keys group_id key plaintext message same fits = rw (
    open_group,
    decrypt_lem laws group_id keys key plaintext message.message_index same fits,
    advance_lem laws group_id keys,
  )

  publish_lem :
      (group : GroupChat) (identity : IdentityKeyPair) (device_id plaintext ciphertext : Bytes)
      (now index : ℕ) (keys keys' : SenderKeys) (envelope : NetworkEnvelope)
      → group.sender ≡ some keys
      → encrypt keys plaintext group.group_id ≡ (keys', ok ciphertext)
      → wrapping_pred keys'.message_index ≡ index
      → group_envelope group identity device_id now index ciphertext ≡ ok envelope
      → publish group identity device_id now plaintext
        ≡ (record group { sender = some keys' }, ok envelope)
  unfolding publish
  publish_lem group identity device_id plaintext ciphertext now index keys keys' envelope h e i
        built =
      rw (publish, h, e, i, built)

  group_decrypt_lem :
      (group : GroupChat) (envelope : NetworkEnvelope) (peer : IdentityPublicKey)
      (message : SenderKeyMessage) (keys keys' : SenderKeys) (plaintext : Bytes)
      → group.peer_identity ≡ some peer
      → verify_envelope peer envelope ≡ ok true
      → message_json.from_slice envelope.nonce ≡ ok message
      → group.receiver ≡ some keys
      → open_group keys group.group_id envelope.encrypted_payload message ≡ (keys', ok plaintext)
      → group_decrypt group envelope ≡ (record group { receiver = some keys' }, ok plaintext)
  unfolding group_decrypt read_group
  group_decrypt_lem group envelope peer message keys keys' plaintext known verified parsed h
        opened =
      ground (arith, known, verified, parsed, h, opened)

  -- What a publisher sends to its group, a reader in step with it decrypts, and the two are in step
  -- again, one index further.
  pub group_decrypt-publish :
      (publisher reader : GroupChat) (identity : IdentityKeyPair) (device_id plaintext : Bytes)
      (now : ℕ) (step : InStep (public identity) publisher reader)
      → IsU64 (suc step.sender.message_index)
      → length plaintext ≤ aead_limit
      → (publisher' reader' : GroupChat) × (envelope : NetworkEnvelope) × (publish publisher
            identity device_id now plaintext
          ≡ (publisher', ok envelope))
        × (group_decrypt reader envelope ≡ (reader', ok plaintext))
        × (step' : InStep (public identity) publisher' reader') × (step'.sender.message_index
            ≡ suc step.sender.message_index)
  unfolding group_message
  group_decrypt-publish publisher reader identity device_id plaintext now step u fits =
      let keys : SenderKeys = step.sender in
      let ad : Bytes = publisher.group_id in
      let ciphertext : Bytes =
        laws.seal (sender_key laws ad keys.chain_key) (index_nonce keys.message_index) ad
          plaintext in
      let keys' : SenderKeys = record keys {
        chain_key = next_chain laws ad keys.chain_key;
        message_index = suc keys.message_index;
      } in
      let received : SenderKeys = record step.receiver {
        chain_key = next_chain laws ad step.receiver.chain_key;
        message_index = saturating_suc step.receiver.message_index;
      } in
      let (envelope, built, verified, parsed, payload) =
        group_envelope_lem publisher identity device_id now keys.message_index ciphertext in
      let message : SenderKeyMessage =
        group_message publisher identity keys.message_index ciphertext in
      (
        record publisher { sender = some keys' },
        record reader { receiver = some received },
        envelope,
        publish_lem publisher identity device_id plaintext ciphertext now keys.message_index keys
            keys' envelope step.sends (encrypt_lem laws ad keys plaintext u fits)
            (wrapping_pred_lem keys.message_index u) built,
        group_decrypt_lem reader envelope (public identity) message step.receiver received plaintext
            step.knows verified parsed step.receives
            (rw (step.same_group, payload)
              (open_group_lem step.receiver ad keys.chain_key plaintext message step.same_key
                fits)),
        record {
          sender = keys';
          receiver = received;
          sends = refl;
          receives = refl;
          knows = step.knows;
          same_group = step.same_group;
          same_key = ap (next_chain laws ad) step.same_key;
          same_index = ap saturating_suc step.same_index ∙ saturating_suc_lem keys.message_index u;
        },
        refl,
      )
