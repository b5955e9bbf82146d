-- ===== src/Storage/Operations/SessionsKept.antt =====
-- The statements on conversations and sessions keep what the schema promises.
use presidium.Base.{◌∷◌, refl, Bool, not, Bool-cases, inl, inr}
use presidium.Crypto.Constants.{Bytes}
use presidium.Storage.Models.{ConversationRecord}
use presidium.Storage.Tables.{SessionRow, Database}
use presidium.Storage.Sql.{integer_key, bytes_key, pair_key, exists, has_key, upsert, delete}
use presidium.Storage.Texts.{any_nul, optional_text}
use presidium.Storage.Sql.Keyed.{select-IsKeyed, upsert-IsKeyed}
use presidium.Storage.Sql.References.{All-upsert, exists-upsert}
use presidium.Storage.Sql.Sorted.{All-select, All-map}
use presidium.Storage.Store.{merge_conversation}
use presidium.Storage.Store.Sessions
use presidium.Storage.Operations.{settle}
use presidium.Storage.Operations.Invariant.{HasConversation, ReferencesHold, IsWellFormed}

-- The database that `upsert_conversation` leaves.
abbrev pub with_conversation : ConversationRecord → Database → Database
with_conversation r db = record db {
  conversations = upsert ConversationRecord.id merge_conversation r db.conversations;
}

-- The database that `delete_session` leaves.
abbrev pub without_session : Bytes → Database → Database
without_session id db = record db {
  sessions = delete (has_key SessionRow.conversation_id id) db.sessions;
}

-- A conversation that is there stays.
with_conversation-HasConversation :
    (r : ConversationRecord) (db : Database) (id : Bytes)
    → HasConversation db.conversations id
    → HasConversation (with_conversation r db).conversations id
with_conversation-HasConversation r db id owned =
    exists-upsert ConversationRecord.id id merge_conversation r db.conversations (λ old. refl) owned

pub with_conversation-ReferencesHold :
    (r : ConversationRecord) (db : Database)
    → ReferencesHold db
    → ReferencesHold (with_conversation r db)
with_conversation-ReferencesHold r db h = record {
  sessions_keyed = h.sessions_keyed;
  messages_keyed = h.messages_keyed;
  uids_keyed = h.uids_keyed;
  media_keyed = h.media_keyed;
  media_owned = h.media_owned;
  ids_given = h.ids_given;
  conversations_keyed =
      upsert-IsKeyed ConversationRecord.id merge_conversation r db.conversations (λ old. refl)
        h.conversations_keyed;
  sessions_owned =
      All-map (λ s. HasConversation db.conversations s.conversation_id)
        (λ s. HasConversation (with_conversation r db).conversations s.conversation_id) db.sessions
        (λ s. with_conversation-HasConversation r db s.conversation_id) h.sessions_owned;
  messages_owned =
      All-map (λ m. HasConversation db.conversations m.conversation_id)
        (λ m. HasConversation (with_conversation r db).conversations m.conversation_id) db.messages
        (λ m. with_conversation-HasConversation r db m.conversation_id) h.messages_owned;
}

pub insert_session-IsWellFormed :
    (row : SessionRow) (db : Database)
    → IsWellFormed db
    → IsWellFormed (settle db (Sessions.insert_session row db))
unfolding Sessions.insert_session
insert_session-IsWellFormed row db (p, k, o, d, h) =
    elim (Bool-cases
      (any_nul (row.conversation_id ∷ row.session_keys ∷ optional_text row.ratchet_state))) [
        | inl nul ↦ rw nul (p, k, o, d, h)
        | inr clean ↦
            elim (Bool-cases
              (exists (has_key ConversationRecord.id row.conversation_id) db.conversations)) [
                | inr absent ↦ rw (clean, absent) (p, k, o, d, h)
                | inl owned ↦
                    rw (clean, owned)
                      (
                        p,
                        k,
                        o,
                        d,
                        record {
                          conversations_keyed = h.conversations_keyed;
                          messages_keyed = h.messages_keyed;
                          uids_keyed = h.uids_keyed;
                          media_keyed = h.media_keyed;
                          messages_owned = h.messages_owned;
                          media_owned = h.media_owned;
                          ids_given = h.ids_given;
                          sessions_keyed =
                              upsert-IsKeyed SessionRow.conversation_id Sessions.merge_session row
                                db.sessions (λ old. refl) h.sessions_keyed;
                          sessions_owned =
                              All-upsert SessionRow.conversation_id
                                (λ s. HasConversation db.conversations s.conversation_id)
                                Sessions.merge_session row db.sessions owned
                                (λ old owned_old. owned_old) h.sessions_owned;
                        },
                      )
              ]
      ]

pub without_session-ReferencesHold :
    (id : Bytes) (db : Database) → ReferencesHold db → ReferencesHold (without_session id db)
without_session-ReferencesHold id db h =
    let others : SessionRow → Bool = λ s. not (has_key SessionRow.conversation_id id s) in
    record {
      conversations_keyed = h.conversations_keyed;
      messages_keyed = h.messages_keyed;
      uids_keyed = h.uids_keyed;
      media_keyed = h.media_keyed;
      messages_owned = h.messages_owned;
      media_owned = h.media_owned;
      ids_given = h.ids_given;
      sessions_keyed =
          select-IsKeyed SessionRow.conversation_id others db.sessions h.sessions_keyed;
      sessions_owned =
          All-select (λ s. HasConversation db.conversations s.conversation_id) others db.sessions
            h.sessions_owned;
    }
