-- ===== src/Demo/NodeStore.antt =====
-- presidium-demo/src/store.rs and session.rs: the identity, the prekey and the sessions that a node keeps
-- between its runs. The clock and the random bytes are arguments; `format!` of an error is the error
-- under a context.
pub mod Restart
pub mod Kept
use presidium.Base.{
  ℕ, ◌≡◌, Bool, true, false, Option, none, some, String, List, [], ◌∷◌, Result, ok, err, ◌>>=◌,
  map_err, ok_or, length, ◌==◌, if◌then◌else◌,
}
use presidium.Crypto.Constants.{Bytes, ascii}
use presidium.Crypto.Primitives.{Primitives, Signatures, Kem, Json}
use presidium.Crypto.Ratchet.{DoubleRatchet}
use presidium.Crypto.Keys.{SessionKeys}
use presidium.Crypto.Identity.{
  IdentityKeyPair, IdentityPublicKey, from_seed, generate_identity, seeds, generate_kem,
  sign_hybrid,
}
use presidium.Network.Topics.{Hex}
use presidium.Storage.Error.{StorageResult, invalid_data, key_derivation}
use presidium.Storage.Models.{
  ConversationRecord, MessageRecord, MessageDirection, incoming, outgoing, MessageStatus, sent,
  delivered,
}
use presidium.Storage.SessionState.{RatchetSnapshot, SessionState, from_ratchet, to_ratchet}
use presidium.Storage.Tables.{Database}
use presidium.Storage.Store.{save_identity, load_identity}
use presidium.Storage.Store
use presidium.Storage.Store.Sessions
use presidium.Storage.Store.Messages
use presidium.Demo.Envelopes.{AnyError, AnyResult, crypto, storage, serde, bail, context}
use presidium.Demo.Session.{ChatSession, with_context}
use presidium.Demo.Handshake.{PrekeyMaterial}

abbrev pub session_id : String
session_id = "presidium-session"

-- What `load_or_create_identity` draws when there is no identity, and the time in milliseconds.
pub record IdentityDraws : Type 0 where
  pub classical_seed : Bytes
  pub pq_seed : Bytes
  pub device_bytes : Bytes
  pub now : ℕ

module _ ⦃h : Hex⦄ where
  unfoldable pub load_or_create_identity :
      IdentityDraws → Database → Database × AnyResult (IdentityKeyPair × Bytes)
  load_or_create_identity draws db = elim (load_identity db) [
    | some r ↦ (
      db,
      do
        identity ← map_err crypto (from_seed r.classical_seed r.pq_seed)
        ok (identity, r.device_id),
    )
    | none ↦ elim (generate_identity draws.classical_seed draws.pq_seed) [
      | err e ↦ (db, err (crypto e))
      | ok identity ↦
          let (classical_seed, pq_seed) = seeds identity in
          let device_id : Bytes = h.hex_encode draws.device_bytes in
          elim (with_context storage "save identity" (
            save_identity
              (record {
                device_id = device_id;
                classical_seed = classical_seed;
                pq_seed = pq_seed;
                created_at = draws.now;
              })
              db)) [ err e ↦ (db, err e) | ok db' ↦ (db', ok (identity, device_id)) ]
    ]
  ]

-- `NodeStore::upsert_conversation` at the time `now`.
unfoldable pub upsert_conversation :
    ℕ → Bytes → IdentityPublicKey → Bool → Database → AnyResult Database
upsert_conversation now id peer is_group db = with_context storage "upsert conversation" (
    Store.upsert_conversation
      (record {
        id = id;
        peer_classical = peer.classical;
        peer_pq = peer.pq;
        is_group = is_group;
        created_at = now;
      })
      db)

abbrev pub status_on_insert : MessageDirection → MessageStatus
status_on_insert incoming = delivered
status_on_insert outgoing = sent

-- The record that `NodeStore::insert_message` inserts.
abbrev pub message_record :
    ℕ → Bytes → Bytes → IdentityPublicKey → Bytes → Bytes → MessageDirection → MessageRecord
message_record now conversation_id message_id sender ciphertext header direction = record {
  id = 0;
  conversation_id = conversation_id;
  message_id = message_id;
  sender_classical = sender.classical;
  ciphertext = ciphertext;
  header = header;
  content_type = 0;
  direction = direction;
  status = status_on_insert direction;
  created_at = now;
}

-- `NodeStore::insert_message` at the time `now`.
unfoldable pub insert_message :
    ℕ
    → Bytes
    → Bytes
    → IdentityPublicKey
    → Bytes
    → Bytes
    → MessageDirection
    → Database
    → AnyResult (Database × ℕ)
insert_message now conversation_id message_id sender ciphertext header direction db =
    with_context storage "insert message" (
      Messages.insert_message
        (message_record now conversation_id message_id sender ciphertext header direction) db)

-- `NodeStore::update_message_status`.
unfoldable pub update_message_status : ℕ → MessageStatus → Database → Database
update_message_status id status db = Messages.update_message_status id status db

unfoldable pub rebuild_ratchet : SessionState → AnyResult DoubleRatchet
rebuild_ratchet state = do
  snapshot ← ok_or state.ratchet (bail "no ratchet snapshot stored")
  with_context storage "rebuild ratchet from snapshot" (to_ratchet snapshot session_id [])

-- `resume` from the state that was loaded.
unfoldable pub resume_state : Bytes → Option SessionState → AnyResult (Option ChatSession)
unfolding rebuild_ratchet
resume_state conversation_id none = ok none
resume_state conversation_id (some state) = do
  ratchet ← rebuild_ratchet state
  ok (
      some (record {
        conversation_id = conversation_id;
        peer_identity = state.session_keys.peer_identity;
        is_initiator = state.is_initiator;
        ratchet = ratchet;
        session_keys = state.session_keys;
      }))

module _ ⦃keys_json : Json (SessionKeys IdentityPublicKey)⦄
    ⦃ratchet_json : Json RatchetSnapshot⦄ where
  -- `NodeStore::save_session` and `NodeStore::load_session`.
  unfoldable pub save_session : Bytes → SessionState → Database → AnyResult Database
  save_session conversation_id state db =
      with_context storage "save session" (Sessions.save_session conversation_id state db)

  unfoldable pub load_session : Bytes → Database → AnyResult (Option SessionState)
  load_session conversation_id db =
      with_context storage "load session" (Sessions.load_session conversation_id db)

  -- `ChatSession::persist` at the time `now`.
  unfoldable pub persist : ℕ → ChatSession → Database → AnyResult Database
  unfolding save_session
  persist now session db =
      save_session session.conversation_id
        (record {
          is_initiator = session.is_initiator;
          session_keys = session.session_keys;
          ratchet = some (from_ratchet session.ratchet);
          last_used = now;
        })
        db

  unfoldable pub resume : Bytes → Database → AnyResult (Option ChatSession)
  unfolding load_session resume_state
  resume conversation_id db = do
    state ← load_session conversation_id db
    resume_state conversation_id state
