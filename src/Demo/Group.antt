-- ===== src/Demo/Group.antt =====
-- presidium-demo/src/group.rs: sender keys over a gossip topic. What is published is the result of
-- `publish`, before the node takes it.
pub mod Delivery
mod Examples
use presidium.Base.{
  ℕ, ◌≡◌, Bool, true, false, Option, none, some, String, List, [], ◌∷◌, Result, ok, err, ◌>>=◌,
  ok_or, map_err, if◌then◌else◌,
}
use presidium.Base.Words.{wrapping_pred}
use presidium.Crypto.Constants.{Bytes, ascii}
use presidium.Crypto.Primitives.{Primitives, Signatures, Json}
use presidium.Crypto.Identity.{IdentityKeyPair, IdentityPublicKey, HybridSignature, public}
use presidium.Crypto.Keys.{
  IdentityKey, SenderKeys, SenderKeyMessage, new_sender, encrypt, decrypt, advance,
}
use presidium.Demo.Envelopes.{
  AnyError, AnyResult, crypto, serde, bail, context, NetworkEnvelope, Hash, build_raw_envelope,
  verify_envelope,
}

-- The demo group's name, and the kind of its envelopes.
abbrev pub demo_group : Bytes
demo_group = ascii "presidium-demo-group"

abbrev pub kind_group : ℕ
kind_group = 2

pub record GroupKeyDistribution : Type 0 where
  pub chain_key : Bytes
  pub key_id : ℕ
  pub message_index : ℕ

-- The topic of the group is fixed, and left out.
pub record GroupChat : Type 0 where
  pub group_id : Bytes
  pub conversation_id : Bytes
  pub sender : Option SenderKeys
  pub receiver : Option SenderKeys
  pub peer_identity : Option IdentityPublicKey

-- `GroupChat::new`.
abbrev pub new_group : GroupChat
new_group = record {
  group_id = demo_group;
  conversation_id = ascii "group:presidium-demo-group";
  sender = none;
  receiver = none;
  peer_identity = none;
}

-- `create_sender`, with the chain key that it draws.
unfoldable pub create_sender :
    ⦃s : Signatures⦄
    → GroupChat
    → Bytes
    → IdentityKeyPair
    → GroupChat × AnyResult GroupKeyDistribution
create_sender group random identity =
    elim (new_sender random group.group_id (record { public = (public identity).classical })) [
      | err e ↦ (group, err (crypto e))
      | ok keys ↦ (
        record group { sender = some keys },
        ok (record {
          chain_key = keys.chain_key;
          key_id = keys.key_id;
          message_index = keys.message_index;
        }),
      )
    ]

unfoldable pub apply_group_key : GroupChat → GroupKeyDistribution → IdentityPublicKey → GroupChat
apply_group_key group distribution sender_identity = record group {
  peer_identity = some sender_identity;
  receiver = some (record {
    chain_key = distribution.chain_key;
    group_id = group.group_id;
    sender_identity = record { public = sender_identity.classical };
    message_index = distribution.message_index;
    key_id = distribution.key_id;
  });
}

module _ ⦃p : Primitives⦄ ⦃s : Signatures⦄ ⦃hash : Hash⦄ ⦃json : Json HybridSignature⦄
    ⦃message_json : Json SenderKeyMessage⦄ where
  -- The message and the envelope of `publish`, once the text is encrypted.
  unfoldable pub group_envelope :
      GroupChat → IdentityKeyPair → Bytes → ℕ → ℕ → Bytes → AnyResult NetworkEnvelope
  group_envelope group identity device_id now message_index ciphertext = do
    header ← map_err serde (
        message_json.to_vec (record {
          group_id = group.group_id;
          sender_identity = record { public = (public identity).classical };
          message_index = message_index;
          ciphertext = ciphertext;
        }))
    build_raw_envelope identity device_id now kind_group group.conversation_id ciphertext header

  unfoldable pub publish :
      GroupChat → IdentityKeyPair → Bytes → ℕ → Bytes → GroupChat × AnyResult NetworkEnvelope
  unfolding group_envelope
  publish group identity device_id now plaintext = elim group.sender [
    | none ↦ (group, err (bail "no sender keys"))
    | some keys ↦
        let (keys', sealed) = encrypt keys plaintext group.group_id in
        (
          record group { sender = some keys' },
          do
            ciphertext ← map_err crypto sealed
            group_envelope group identity device_id now (wrapping_pred keys'.message_index)
                ciphertext,
        )
  ]

  -- `GroupChat::decrypt` with the peer's message and the receiver's keys: only a message that opens
  -- advances the keys.
  unfoldable pub open_group :
      SenderKeys → Bytes → Bytes → SenderKeyMessage → SenderKeys × AnyResult Bytes
  open_group keys group_id payload message =
      elim (decrypt keys payload message.message_index group_id) [
        | err e ↦ (keys, err (crypto e))
        | ok plaintext ↦ elim (advance keys) [
          | err e ↦ (keys, err (crypto e))
          | ok keys' ↦ (keys', ok plaintext)
        ]
      ]

  -- The checks of `GroupChat::decrypt`, up to the message.
  unfoldable pub read_group : GroupChat → NetworkEnvelope → AnyResult SenderKeyMessage
  read_group group envelope = do
    peer ← ok_or group.peer_identity (bail "no group sender identity")
    accepted ← verify_envelope peer envelope
    if accepted
        then map_err (λ e. context "parse group message" (serde e))
            (message_json.from_slice envelope.nonce)
        else err (bail "group signature verification failed")

  -- `GroupChat::decrypt`.
  unfoldable pub group_decrypt : GroupChat → NetworkEnvelope → GroupChat × AnyResult Bytes
  unfolding read_group open_group
  group_decrypt group envelope = elim (read_group group envelope) [
    | err e ↦ (group, err e)
    | ok message ↦ elim group.receiver [
      | none ↦ (group, err (bail "no receiver keys"))
      | some keys ↦
          let (keys', opened) = open_group keys group.group_id envelope.encrypted_payload message in
          (record group { receiver = some keys' }, opened)
    ]
  ]
