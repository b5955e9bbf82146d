-- ===== src/Storage/Store/Messages.antt =====
-- presidium-storage/src/store.rs: the messages of conversations and the media attached to them.
use presidium.Base.{
  ℕ, ◌+◌, Bool, true, false, not, ◌&&◌, Option, none, some, List, [], ◌∷◌, ◌++◌, map, take, ◌==◌,
  leb, ltb, ok, err, if◌then◌else◌,
}
use mathlib.Core.Option.{map as map_option}
use presidium.Crypto.Constants.{Bytes}
use presidium.Storage.Error.{StorageResult, database, unique_constraint, foreign_key_constraint}
use presidium.Storage.Models.{
  ConversationRecord, MessageRecord, MessageStatus, status_number, MediaRecord,
}
use presidium.Storage.Texts.{bound}
use presidium.Storage.Tables.{
  MessageRow, MediaRow, Database, message_params, message_from_row, media_params, media_from_row,
}
use presidium.Storage.Sql.{
  integer_key, bytes_key, pair_key, select, update, exists, order_by, has_key, find,
}

-- The unique index `idx_messages_uid`.
abbrev pub message_uid : MessageRow → Bytes × Bytes
message_uid r = (r.conversation_id, r.message_id)

-- The insertion and its row id, which is larger than all earlier ones.
unfoldable pub insert_message : MessageRecord → Database → StorageResult (Database × ℕ)
insert_message r db =
    let id : ℕ = db.last_message_id + 1 in
    bound (r.conversation_id ∷ r.header ∷ []) (
      if exists (has_key message_uid (r.conversation_id, r.message_id)) db.messages
      then err (database unique_constraint)
      else if not (exists (has_key ConversationRecord.id r.conversation_id) db.conversations)
      then err (database foreign_key_constraint)
      else ok (
        record db { messages = db.messages ++ message_params id r ∷ []; last_message_id = id },
        id,
      ))

abbrev pub before : Option ℕ → ℕ → Bool
before none id = true
before (some bound) id = ltb id bound

abbrev pub newest_first : MessageRow → MessageRow → Bool
newest_first a b = leb b.id a.id

-- The rows of a conversation before an id, `ORDER BY id DESC`.
abbrev pub rows_before : Bytes → Option ℕ → Database → List MessageRow
rows_before conversation_id before_id db = order_by newest_first (
    select (λ r. has_key MessageRow.conversation_id conversation_id r && before before_id r.id)
      db.messages)

unfoldable pub list_messages : Bytes → Option ℕ → ℕ → Database → StorageResult (List MessageRecord)
list_messages conversation_id before_id limit db =
    bound (conversation_id ∷ [])
      (ok (map message_from_row (take limit (rows_before conversation_id before_id db))))

unfoldable pub load_message_by_uid : Bytes → Bytes → Database → StorageResult (Option MessageRecord)
load_message_by_uid conversation_id message_id db =
    bound (conversation_id ∷ []) (
      ok (map_option message_from_row (find message_uid (conversation_id, message_id) db.messages)))

abbrev pub set_status : MessageStatus → MessageRow → MessageRow
set_status status r = record r { status = status_number status }

unfoldable pub update_message_status : ℕ → MessageStatus → Database → Database
update_message_status id status db = record db {
  messages = update (has_key MessageRow.id id) (set_status status) db.messages;
}

-- `message_id INTEGER REFERENCES messages(id)`.
abbrev pub message_exists : Option ℕ → List MessageRow → Bool
message_exists none rows = true
message_exists (some id) rows = exists (has_key MessageRow.id id) rows

unfoldable pub insert_media : MediaRecord → Database → StorageResult Database
insert_media r db = bound (r.id ∷ r.relative_path ∷ []) (
    if exists (has_key MediaRow.id r.id) db.media
    then err (database unique_constraint)
    else if not (message_exists r.message_id db.messages)
    then err (database foreign_key_constraint)
    else ok (record db { media = db.media ++ media_params r ∷ [] }))

unfoldable pub load_media : Bytes → Database → StorageResult (Option MediaRecord)
load_media id db = bound (id ∷ []) (ok (map_option media_from_row (find MediaRow.id id db.media)))

abbrev pub attached_to : ℕ → Option ℕ → Bool
attached_to id none = false
attached_to id (some message) = message == id

unfoldable pub list_media_for_message : ℕ → Database → List MediaRecord
list_media_for_message message_id db = map media_from_row (
    order_by (λ a b. leb a.created_at b.created_at)
      (select (λ r. attached_to message_id r.message_id) db.media))
