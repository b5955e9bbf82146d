-- ===== src/Demo/NodeStore/Kept.antt =====
-- presidium-demo/src/store.rs: what the operations behind a chat message leave in the database.
use presidium.Base.{
  ℕ, ◌≡◌, ◌≢◌, refl, true, false, some, ok, arith, Result-cases, Bool-cases, inl, inr,
}
use presidium.Crypto.Constants.{Bytes}
use presidium.Crypto.Primitives.{Primitives, Signatures, Json, JsonLaws}
use presidium.Crypto.Ratchet.{RatchetMessageHeader}
use presidium.Crypto.Keys.{SessionKeys}
use presidium.Crypto.Identity.{IdentityPublicKey, HybridSignature}
use presidium.Network.Messages.{NetworkEnvelope}
use presidium.Storage.Models.{ConversationRecord, incoming}
use presidium.Storage.SessionState.{RatchetSnapshot, SessionState, from_ratchet}
use presidium.Storage.Sql.{bytes_key, pair_key, exists, has_key, upsert}
use presidium.Storage.Sqleet.{has_nul}
use presidium.Storage.Texts.{TextLaws}
use presidium.Storage.Tables.{Database}
use presidium.Storage.Store.Stored.{save_session_cases}
use presidium.Demo.Envelopes.{Hash}
use presidium.Demo.Session.{ChatSession, chat_decrypt}
use presidium.Demo.Session.Kept.{chat_decrypt_kept}
use presidium.Demo.NodeStore.{
  upsert_conversation, insert_message, persist, resume, save_session, load_session,
}
use presidium.Demo.NodeStore.Restart.{IsResumable, resume-persist}
use presidium.Storage.Store.Messages
use presidium.Storage.Store.Messages.{message_uid}
use presidium.Storage.Store.Sessions
use presidium.Storage.Store
use presidium.Storage.Sql.References.{upsert-exists}

module _ ⦃p : Primitives⦄ ⦃s : Signatures⦄ ⦃hash : Hash⦄ ⦃header_json : Json RatchetMessageHeader⦄
    ⦃json : Json HybridSignature⦄ where
  pub chat_decrypt-IsResumable :
      (session : ChatSession) (envelope : NetworkEnvelope)
      → IsResumable session
      → IsResumable (chat_decrypt session envelope).0
  chat_decrypt-IsResumable session envelope h =
      let (same, kept) = chat_decrypt_kept session envelope in ground (arith, h, same, kept)

module _ ⦃keys_json : Json (SessionKeys IdentityPublicKey)⦄ ⦃ratchet_json : Json RatchetSnapshot⦄
    (keys_laws : JsonLaws keys_json) (ratchet_laws : JsonLaws ratchet_json)
    (keys_texts : TextLaws keys_laws) (ratchet_texts : TextLaws ratchet_laws) where
  pub persist_keeps :
      (now : ℕ) (session : ChatSession) (db db' : Database)
      → persist now session db ≡ ok db'
      → (db'.conversations ≡ db.conversations) × (db'.messages ≡ db.messages)
  unfolding persist save_session Sessions.save_session Sessions.insert_session Sessions.ratchet_text
  persist_keeps now session db db' e = ground (arith, e)

  persist_refused :
      (now : ℕ) (session : ChatSession) (db : Database)
      → exists (has_key ConversationRecord.id session.conversation_id) db.conversations ≡ false
      → (db' : Database) → persist now session db ≢ ok db'
  unfolding persist save_session
  persist_refused now session db absent db' e =
      let state : SessionState = record {
        is_initiator = session.is_initiator;
        session_keys = session.session_keys;
        ratchet = some (from_ratchet session.ratchet);
        last_used = now;
      } in
      elim (save_session_cases keys_laws ratchet_laws keys_texts ratchet_texts
        session.conversation_id state db) [
          | inl (owned, _, _) ↦ absurd (ground (arith, owned, absent))
          | inr (inl (_, refused)) ↦ ground (arith, refused, e)
          | inr (inr (_, refused)) ↦ ground (arith, refused, e)
        ]

  -- A session that could be persisted is resumed from what was persisted.
  pub persisted_resumes :
      (now : ℕ) (session : ChatSession) (db db' : Database)
      → IsResumable session
      → persist now session db ≡ ok db'
      → resume session.conversation_id db' ≡ ok (some session)
  persisted_resumes now session db db' h e =
      elim (Bool-cases
        (exists (has_key ConversationRecord.id session.conversation_id) db.conversations)) [
          | inl owned ↦
              let (stored, persisted, resumed) =
                resume-persist keys_laws ratchet_laws keys_texts ratchet_texts now session db h
                  owned in
              cc
          | inr absent ↦ absurd (persist_refused now session db absent db' e)
        ]

  -- The messages are no part of what `resume` reads.
  pub insert_message-resume :
      (now : ℕ) (conversation_id message_id : Bytes) (sender : IdentityPublicKey)
      (ciphertext header : Bytes) (db db' : Database) (row : ℕ) (id : Bytes)
      → insert_message now conversation_id message_id sender ciphertext header incoming db
        ≡ ok (db', row)
      → resume id db' ≡ resume id db
  unfolding insert_message resume load_session Messages.insert_message Sessions.load_session
  insert_message-resume now conversation_id message_id sender ciphertext header db db' row id e =
      ground (arith, e)

-- The conversation that was just stored is there, and the messages are as before.
pub upsert_conversation_lem :
    (now : ℕ) (id : Bytes) (peer : IdentityPublicKey) (db : Database)
    → has_nul id ≡ false
    → (db' : Database) × (upsert_conversation now id peer false db ≡ ok db')
      × (exists (has_key ConversationRecord.id id) db'.conversations ≡ true)
      × (db'.messages ≡ db.messages)
unfolding upsert_conversation Store.upsert_conversation
upsert_conversation_lem now id peer db named = (
  record db {
    conversations =
        upsert ConversationRecord.id Store.merge_conversation
          (record {
            id = id;
            peer_classical = peer.classical;
            peer_pq = peer.pq;
            is_group = false;
            created_at = now;
          })
          db.conversations;
  },
  rw named refl,
  upsert-exists ConversationRecord.id Store.merge_conversation
      (record {
        id = id;
        peer_classical = peer.classical;
        peer_pq = peer.pq;
        is_group = false;
        created_at = now;
      })
      db.conversations (λ old. refl),
  refl,
)

pub insert_message_lem :
    (now : ℕ) (conversation_id message_id : Bytes) (sender : IdentityPublicKey)
    (ciphertext header : Bytes) (db : Database)
    → has_nul conversation_id ≡ false
    → has_nul header ≡ false
    → exists (has_key message_uid (conversation_id, message_id)) db.messages ≡ false
    → exists (has_key ConversationRecord.id conversation_id) db.conversations ≡ true
    → (db' : Database) × (row : ℕ) × (insert_message now conversation_id message_id sender
          ciphertext header incoming db
        ≡ ok (db', row))
unfolding insert_message Messages.insert_message
insert_message_lem now conversation_id message_id sender ciphertext header db named headed fresh
      owned =
    elim (Result-cases
      (insert_message now conversation_id message_id sender ciphertext header incoming db)) [
        | inl ((db', row), e) ↦ (db', row, e)
        | inr (failure, e) ↦ absurd (ground (arith, e, named, headed, fresh, owned))
      ]
