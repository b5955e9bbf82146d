-- ===== src/Storage/Operations/Invariant.antt =====
-- What the schema promises: no key stands twice, references have their rows,
-- and the ids of messages are those given out so far.
use presidium.Base.{ℕ, ◌≤◌, ◌≡◌, true, List, All}
use presidium.Crypto.Constants.{Bytes}
use presidium.Storage.Models.{ConversationRecord, DeviceRecord}
use presidium.Storage.Tables.{
  PreKeyRow, SessionRow, MessageRow, MediaRow, DocRow, Database, empty_database,
}
use presidium.Storage.Sql.{integer_key, bytes_key, pair_key, exists, has_key}
use presidium.Storage.Sql.Keyed.{IsKeyed}
use presidium.Storage.Store.{sender_key_id}
use presidium.Storage.Store.Messages.{message_uid, message_exists}

-- `REFERENCES conversations(id)`.
abbrev pub HasConversation : List ConversationRecord → Bytes → Type 0
HasConversation conversations id = exists (has_key ConversationRecord.id id) conversations ≡ true

-- The tables that refer to one another.
pub record Referenced (conversations : List ConversationRecord) (sessions : List SessionRow)
    (messages : List MessageRow) (last_message_id : ℕ) (media : List MediaRow) : Type 0 where
  pub conversations_keyed : IsKeyed ConversationRecord.id conversations
  pub sessions_keyed : IsKeyed SessionRow.conversation_id sessions
  pub messages_keyed : IsKeyed MessageRow.id messages
  pub uids_keyed : IsKeyed message_uid messages
  pub media_keyed : IsKeyed MediaRow.id media
  pub sessions_owned : All (λ r. HasConversation conversations r.conversation_id) sessions
  pub messages_owned : All (λ r. HasConversation conversations r.conversation_id) messages
  pub media_owned : All (λ r. message_exists r.message_id messages ≡ true) media
  pub ids_given : All (λ r. r.id ≤ last_message_id) messages

abbrev pub ReferencesHold : Database → Type 0
ReferencesHold db = Referenced db.conversations db.sessions db.messages db.last_message_id db.media

-- No key stands twice in any table, and what one table refers to in another is there.
abbrev pub IsWellFormed : Database → Type 0
IsWellFormed db =
    IsKeyed PreKeyRow.key_id db.prekeys
    × IsKeyed sender_key_id db.sender_keys
    × IsKeyed DocRow.id db.docs
    × IsKeyed DeviceRecord.device_id db.devices
    × ReferencesHold db

empty_database-ReferencesHold : ReferencesHold empty_database
unfolding IsKeyed
empty_database-ReferencesHold = record {
  conversations_keyed = tt;
  sessions_keyed = tt;
  messages_keyed = tt;
  uids_keyed = tt;
  media_keyed = tt;
  sessions_owned = tt;
  messages_owned = tt;
  media_owned = tt;
  ids_given = tt;
}

pub empty_database-IsWellFormed : IsWellFormed empty_database
unfolding IsKeyed
empty_database-IsWellFormed = (tt, tt, tt, tt, empty_database-ReferencesHold)
