-- ===== src/Demo/App/Persisted.antt =====
-- presidium-demo/src/main.rs: the session in memory and the session in the database after a chat message.
use presidium.Base.{◌≡◌, true, false, some, ok, arith, Result-cases, inl, inr}
use presidium.Crypto.Constants.{Bytes}
use presidium.Crypto.Primitives.{Primitives, Signatures, Kem, Json, JsonLaws}
use presidium.Crypto.Ratchet.{RatchetMessageHeader}
use presidium.Crypto.Keys.{SessionKeys}
use presidium.Crypto.Identity.{IdentityPublicKey, HybridSignature, PreKeyBundle}
use presidium.Crypto.Pqxdh.{PqxdhPrekeyMessage}
use presidium.Network.Messages.{NetworkEnvelope}
use presidium.Storage.Models.{ConversationRecord, incoming}
use presidium.Storage.SessionState.{RatchetSnapshot}
use presidium.Storage.Sql.{bytes_key, pair_key, exists, has_key}
use presidium.Storage.Sqleet.{has_nul}
use presidium.Storage.Texts.{TextLaws}
use presidium.Demo.Envelopes.{Hash}
use presidium.Demo.Session.{ChatSession, chat_decrypt}
use presidium.Demo.Session.Kept.{chat_decrypt_kept}
use presidium.Demo.Group.{GroupKeyDistribution}
use presidium.Demo.NodeStore.{upsert_conversation, insert_message, persist, resume}
use presidium.Demo.NodeStore.Restart.{IsResumable, resume-persist}
use presidium.Demo.App.{App, Fresh, Utf8}
use presidium.Demo.App.Direct.{
  on_chat, resume_if_needed, store_conversation, decrypt_chat, persist_session, store_incoming,
  message_id_bytes,
}
use presidium.Storage.Store.Messages.{message_uid}
use presidium.Demo.NodeStore.Kept.{
  chat_decrypt-IsResumable, persist_keeps, persisted_resumes, insert_message-resume,
  upsert_conversation_lem, insert_message_lem,
}

module _ {Addr : Type 0} ⦃p : Primitives⦄ ⦃s : Signatures⦄ ⦃k : Kem⦄ ⦃hash : Hash⦄ ⦃utf8 : Utf8⦄
    ⦃header_json : Json RatchetMessageHeader⦄ ⦃signature_json : Json HybridSignature⦄
    ⦃prekey_json : Json PqxdhPrekeyMessage⦄ ⦃bundle_json : Json PreKeyBundle⦄
    ⦃group_json : Json GroupKeyDistribution⦄ ⦃keys_json : Json (SessionKeys IdentityPublicKey)⦄
    ⦃ratchet_json : Json RatchetSnapshot⦄ (keys_laws : JsonLaws keys_json)
    (ratchet_laws : JsonLaws ratchet_json) (keys_texts : TextLaws keys_laws)
    (ratchet_texts : TextLaws ratchet_laws) where
  -- Whenever the step returns without an error.
  on_chat_persisted :
      (fresh : Fresh) (envelope : NetworkEnvelope) (session : ChatSession) (app app' : App Addr)
      → app.session ≡ some session
      → IsResumable session
      → on_chat fresh envelope app ≡ (app', ok tt)
      → let session' : ChatSession = (chat_decrypt session envelope).0 in
        (app'.session ≡ some session')
        × (resume session'.conversation_id app'.db ≡ ok (some session'))
  unfolding on_chat resume_if_needed store_conversation decrypt_chat persist_session store_incoming
  on_chat_persisted fresh envelope session app app' has resumable e =
      let session' : ChatSession = (chat_decrypt session envelope).0 in
      elim (Result-cases (
        upsert_conversation fresh.now_millis envelope.conversation_id session.peer_identity false
          app.db)) [
            | inr (e', refused) ↦ absurd (ground (arith, e, has, refused))
            | inl (db1, upserted) ↦ elim (Result-cases (persist fresh.now_millis session' db1)) [
              | inr (e', refused) ↦ absurd (ground (arith, e, has, upserted, refused))
              | inl (db2, persisted) ↦
                  elim (Result-cases (
                    insert_message fresh.now_millis envelope.conversation_id
                      (message_id_bytes envelope.timestamp fresh.message_nonce)
                      session'.peer_identity envelope.encrypted_payload envelope.nonce incoming
                      db2)) [
                        | inr (e', refused) ↦
                            absurd (ground (arith, e, has, upserted, persisted, refused))
                        | inl ((db3, row), inserted) ↦
                            let resumed : resume session'.conversation_id db2 ≡ ok (some session') =
                              persisted_resumes keys_laws ratchet_laws keys_texts ratchet_texts
                                fresh.now_millis session' db1 db2
                                (chat_decrypt-IsResumable session envelope resumable) persisted in
                            let later : resume session'.conversation_id db3
                                ≡ resume session'.conversation_id db2 =
                              insert_message-resume keys_laws ratchet_laws keys_texts ratchet_texts
                                fresh.now_millis envelope.conversation_id
                                (message_id_bytes envelope.timestamp fresh.message_nonce)
                                session'.peer_identity envelope.encrypted_payload envelope.nonce db2
                                db3 row session'.conversation_id inserted in
                            ground (arith, e, has, upserted, persisted, inserted, resumed, later)
                      ]
            ]
          ]

  on_chat_returns :
      (fresh : Fresh) (envelope : NetworkEnvelope) (session session' : ChatSession)
      (plaintext : Bytes) (app : App Addr)
      → utf8.is_utf8 envelope.conversation_id ≡ true
      → utf8.is_utf8 envelope.nonce ≡ true
      → has_nul envelope.nonce ≡ false
      → app.session ≡ some session
      → IsResumable session
      → session.conversation_id ≡ envelope.conversation_id
      → chat_decrypt session envelope ≡ (session', ok plaintext)
      → exists
          (has_key message_uid
            (envelope.conversation_id, message_id_bytes envelope.timestamp fresh.message_nonce))
          app.db.messages
        ≡ false
      → (app' : App Addr) × (on_chat fresh envelope app ≡ (app', ok tt))
  unfolding on_chat resume_if_needed store_conversation decrypt_chat persist_session store_incoming
  on_chat_returns fresh envelope session session' plaintext app text text' clean has resumable same
        read new =
      let named : has_nul envelope.conversation_id ≡ false = ground (arith, resumable, same) in
      let (db1, upserted, stored, others) =
        upsert_conversation_lem fresh.now_millis envelope.conversation_id session.peer_identity
          app.db named in
      let ready : IsResumable (chat_decrypt session envelope).0 =
        chat_decrypt-IsResumable session envelope resumable in
      let (ratchet_kept, kept) = chat_decrypt_kept session envelope in
      let owned : exists (has_key ConversationRecord.id session'.conversation_id) db1.conversations
          ≡ true =
        ground (arith, stored, kept, read, same) in
      let (db2, persisted, resumed) =
        resume-persist keys_laws ratchet_laws keys_texts ratchet_texts fresh.now_millis session' db1
          (ground (arith, ready, read)) owned in
      let (conversations_kept, messages_kept) =
        persist_keeps keys_laws ratchet_laws keys_texts ratchet_texts fresh.now_millis session' db1
          db2 persisted in
      let (db3, row, inserted) =
        insert_message_lem fresh.now_millis envelope.conversation_id
          (message_id_bytes envelope.timestamp fresh.message_nonce) session'.peer_identity
          envelope.encrypted_payload envelope.nonce db2 named clean (rw (messages_kept, others) new)
          (rw conversations_kept stored) in
      (
        record app { db = db3; session = some session' },
        ground (arith, text, text', has, upserted, read, persisted, inserted),
      )

  -- A chat message of the session's conversation, which the session reads, which has a new message id and
  -- whose header text has no NUL byte, is taken without an error: the session in memory is then the session that read the message, and a node
  -- that is started again resumes exactly this session.
  pub on_chat_persists :
      (fresh : Fresh) (envelope : NetworkEnvelope) (session session' : ChatSession)
      (plaintext : Bytes) (app : App Addr)
      → utf8.is_utf8 envelope.conversation_id ≡ true
      → utf8.is_utf8 envelope.nonce ≡ true
      → has_nul envelope.nonce ≡ false
      → app.session ≡ some session
      → IsResumable session
      → session.conversation_id ≡ envelope.conversation_id
      → chat_decrypt session envelope ≡ (session', ok plaintext)
      → exists
          (has_key message_uid
            (envelope.conversation_id, message_id_bytes envelope.timestamp fresh.message_nonce))
          app.db.messages
        ≡ false
      → (app' : App Addr) × (on_chat fresh envelope app ≡ (app', ok tt))
        × (app'.session ≡ some session')
        × (resume session'.conversation_id app'.db ≡ ok (some session'))
  on_chat_persists fresh envelope session session' plaintext app text text' clean has resumable same
        read new =
      let (app', handled) =
        on_chat_returns fresh envelope session session' plaintext app text text' clean has resumable
          same read new in
      let (in_memory, stored) =
        on_chat_persisted fresh envelope session app app' has resumable handled in
      (app', handled, ground (arith, in_memory, read), ground (arith, stored, read))
