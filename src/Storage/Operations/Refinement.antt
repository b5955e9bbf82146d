-- ===== src/Storage/Operations/Refinement.antt =====
-- The keyed tables of the database as functions of their keys: a run of statements is a sequence of
-- changes of single values of these functions, whatever the order and the representation of the rows.
use presidium.Base.{ℕ, Bool, true, Option, none, some, List, [], ◌∷◌, ◌+◌, ◌||◌, not, if◌then◌else◌}
use presidium.Crypto.Constants.{Bytes}
use mathlib.Core.Option.{map as map_option}
use presidium.Storage.Models.{
  IdentityRecord, ConversationRecord, SenderKeyRecord, DeviceRecord, MessageRecord, MediaRecord,
  MessageStatus, pending, sent, delivered, read, failed, MessageDirection, incoming, outgoing,
  media_kind_number,
}
use presidium.Storage.Texts.{any_nul, optional_text}
use presidium.Storage.Tables.{
  PreKeyRow, SessionRow, DocRow, MessageRow, MediaRow, Database, prekey_params,
}
use presidium.Storage.Store.Messages.{message_uid}
use presidium.Storage.Sql.{integer_key, bytes_key, pair_key, exists, has_key}
use presidium.Storage.Sql.Keyed.{merged}
use presidium.Storage.Store.{
  keep_identity_time, merge_conversation, sender_key_id, merge_sender_key, merge_doc, merge_device,
}
use presidium.Storage.Store.Sessions.{merge_session}
use presidium.Storage.Operations.{Operation}
use presidium.Storage.Sql.Maps.{present, set, rows_of}

-- Whether a conversation has a message with an id of its own.
abbrev pub uids_of : List MessageRow → Bytes × Bytes → Bool
uids_of rows uid = exists (has_key message_uid uid) rows

-- The tables as functions of their keys: messages and media by their ids, and the own ids of messages.
pub record View : Type 0 where
  pub identity : Option IdentityRecord
  pub prekeys : ℕ → Option PreKeyRow
  pub conversations : Bytes → Option ConversationRecord
  pub sessions : Bytes → Option SessionRow
  pub sender_keys : Bytes × Bytes → Option SenderKeyRecord
  pub docs : Bytes → Option DocRow
  pub devices : Bytes → Option DeviceRecord
  pub messages : ℕ → Option MessageRow
  pub message_uids : Bytes × Bytes → Bool
  pub last_message_id : ℕ
  pub media : Bytes → Option MediaRow

abbrev pub view : Database → View
view db = record {
  identity = db.identity;
  prekeys = rows_of PreKeyRow.key_id db.prekeys;
  conversations = rows_of ConversationRecord.id db.conversations;
  sessions = rows_of SessionRow.conversation_id db.sessions;
  sender_keys = rows_of sender_key_id db.sender_keys;
  docs = rows_of DocRow.id db.docs;
  devices = rows_of DeviceRecord.device_id db.devices;
  messages = rows_of MessageRow.id db.messages;
  message_uids = uids_of db.messages;
  last_message_id = db.last_message_id;
  media = rows_of MediaRow.id db.media;
}

abbrev pub doc_row : ℕ → Bytes → Bytes → DocRow
doc_row now id bytes = record { id = id; ydoc = bytes; updated_at = now }

-- The codes of the columns of a message and of a media record.
abbrev pub status_code : MessageStatus → ℕ
status_code pending = 0
status_code sent = 1
status_code delivered = 2
status_code read = 3
status_code failed = 4

abbrev direction_code : MessageDirection → ℕ
direction_code incoming = 0
direction_code outgoing = 1

abbrev pub new_message : ℕ → MessageRecord → MessageRow
new_message id r = record {
  id = id;
  conversation_id = r.conversation_id;
  message_id = r.message_id;
  sender_classical = r.sender_classical;
  ciphertext = r.ciphertext;
  header = r.header;
  content_type = r.content_type;
  direction = direction_code r.direction;
  status = status_code r.status;
  created_at = r.created_at;
}

abbrev pub new_media : MediaRecord → MediaRow
new_media r = record {
  id = r.id;
  message_id = r.message_id;
  kind = media_kind_number r.kind;
  encryption_key = r.encryption_key;
  size = r.size;
  relative_path = r.relative_path;
  created_at = r.created_at;
}

-- The message that a media record refers to, if any, is there.
abbrev pub has_message : Option ℕ → (ℕ → Option MessageRow) → Bool
has_message none messages = true
has_message (some id) messages = present (messages id)

-- The change of a statement whose parameters could be bound and that does not choose a row by itself.
abbrev pub bound_change : Operation → View → View
bound_change (Operation.save_identity r) v = record v {
  identity = some (keep_identity_time v.identity r);
}
bound_change (Operation.save_prekey r) v = record v {
  prekeys = set r.key_id (some (prekey_params r)) v.prekeys;
}
bound_change (Operation.delete_prekey k) v = record v { prekeys = set k none v.prekeys }
bound_change (Operation.upsert_conversation r) v = record v {
  conversations =
      set r.id (some (merged merge_conversation (v.conversations r.id) r)) v.conversations;
}
bound_change (Operation.insert_session row) v =
    let id : Bytes = row.conversation_id in
    if present (v.conversations id)
    then record v { sessions = set id (some (merged merge_session (v.sessions id) row)) v.sessions }
    else v
bound_change (Operation.delete_session id) v = record v { sessions = set id none v.sessions }
bound_change (Operation.upsert_sender_key r) v = record v {
  sender_keys =
      set (sender_key_id r) (some (merged merge_sender_key (v.sender_keys (sender_key_id r)) r))
        v.sender_keys;
}
bound_change (Operation.save_doc now id bytes) v = record v {
  docs = set id (some (merged merge_doc (v.docs id) (doc_row now id bytes))) v.docs;
}
bound_change (Operation.delete_doc id) v = record v { docs = set id none v.docs }
bound_change (Operation.upsert_device r) v = record v {
  devices = set r.device_id (some (merged merge_device (v.devices r.device_id) r)) v.devices;
}
bound_change (Operation.insert_message r) v =
    let id : ℕ = v.last_message_id + 1 in
    let uid : Bytes × Bytes = (r.conversation_id, r.message_id) in
    if v.message_uids uid
    then v
    else if not (present (v.conversations r.conversation_id))
    then v
    else record v {
      messages = set id (some (new_message id r)) v.messages;
      message_uids = λ other. v.message_uids other || pair_key.same uid other;
      last_message_id = id;
    }
bound_change (Operation.update_message_status id status) v = record v {
  messages =
      set id
        (map_option (λ (row : MessageRow). record row { status = status_code status })
          (v.messages id))
        v.messages;
}
bound_change (Operation.insert_media r) v =
    if present (v.media r.id)
    then v
    else if not (has_message r.message_id v.messages)
    then v
    else record v { media = set r.id (some (new_media r)) v.media }
bound_change Operation.take_one_time_prekey v = v

-- The parameters of a statement that are texts.
abbrev pub texts_of : Operation → List Bytes
texts_of (Operation.save_identity r) = r.device_id ∷ []
texts_of (Operation.upsert_conversation r) = r.id ∷ []
texts_of (Operation.insert_session row) =
    row.conversation_id ∷ row.session_keys ∷ optional_text row.ratchet_state
texts_of (Operation.delete_session id) = id ∷ []
texts_of (Operation.insert_message r) = r.conversation_id ∷ r.header ∷ []
texts_of (Operation.upsert_sender_key r) = r.group_id ∷ []
texts_of (Operation.insert_media r) = r.id ∷ r.relative_path ∷ []
texts_of (Operation.save_doc now id bytes) = id ∷ []
texts_of (Operation.delete_doc id) = id ∷ []
texts_of (Operation.upsert_device r) = r.device_id ∷ []
texts_of _ = []

-- Nothing is changed by a statement with a text that has a NUL byte.
abbrev pub change : Operation → View → View
change op v = if any_nul (texts_of op) then v else bound_change op v
