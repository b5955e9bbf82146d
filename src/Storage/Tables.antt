-- ===== src/Storage/Tables.antt =====
-- The tables of presidium-storage/migrations/0001_init.sql, and the rows of those whose columns are not
-- the fields of a record of models.rs: an enum is stored as its number, a session as two texts in JSON.
use presidium.Base.{ℕ, Bool, Option, none, List, []}
use presidium.Crypto.Constants.{Bytes}
use presidium.Storage.Models.{
  IdentityRecord, PreKeyRecord, prekey_kind_number, prekey_kind_of,
  prekey_kind_of-prekey_kind_number, ConversationRecord, MessageRecord, direction_number,
  direction_of, direction_of-direction_number, status_number, status_of, status_of-status_number,
  SenderKeyRecord, MediaRecord, media_kind_number, media_kind_from_i64,
  media_kind_from_i64-media_kind_number, DeviceRecord,
}
use presidium.Base.{◌≡◌}

pub record PreKeyRow : Type 0 where
  pub key_id : ℕ
  pub kind : ℕ
  pub classical : Bytes
  pub pq : Bytes
  pub public_classical : Bytes
  pub public_pq : Bytes
  pub signature : Bytes
  pub created_at : ℕ

pub record SessionRow : Type 0 where
  pub conversation_id : Bytes
  pub is_initiator : Bool
  pub session_keys : Bytes
  pub ratchet_state : Option Bytes
  pub last_used : ℕ

pub record MessageRow : Type 0 where
  pub id : ℕ
  pub conversation_id : Bytes
  pub message_id : Bytes
  pub sender_classical : Bytes
  pub ciphertext : Bytes
  pub header : Bytes
  pub content_type : ℕ
  pub direction : ℕ
  pub status : ℕ
  pub created_at : ℕ

pub record MediaRow : Type 0 where
  pub id : Bytes
  pub message_id : Option ℕ
  pub kind : ℕ
  pub encryption_key : Bytes
  pub size : ℕ
  pub relative_path : Bytes
  pub created_at : ℕ

pub record DocRow : Type 0 where
  pub id : Bytes
  pub ydoc : Bytes
  pub updated_at : ℕ

-- The identity table has at most one row, `CHECK (id = 1)`. `last_message_id` is the largest row id that
-- the table of messages ever had, which `AUTOINCREMENT` keeps.
pub record Database : Type 0 where
  pub identity : Option IdentityRecord
  pub prekeys : List PreKeyRow
  pub conversations : List ConversationRecord
  pub sessions : List SessionRow
  pub messages : List MessageRow
  pub last_message_id : ℕ
  pub sender_keys : List SenderKeyRecord
  pub media : List MediaRow
  pub docs : List DocRow
  pub devices : List DeviceRecord

-- The tables right after the migration.
abbrev pub empty_database : Database
empty_database = record {
  identity = none;
  prekeys = [];
  conversations = [];
  sessions = [];
  messages = [];
  last_message_id = 0;
  sender_keys = [];
  media = [];
  docs = [];
  devices = [];
}

-- The parameters of `save_prekey`.
unfoldable pub prekey_params : PreKeyRecord → PreKeyRow
prekey_params r = record {
  key_id = r.key_id;
  kind = prekey_kind_number r.kind;
  classical = r.classical;
  pq = r.pq;
  public_classical = r.public_classical;
  public_pq = r.public_pq;
  signature = r.signature;
  created_at = r.created_at;
}

unfoldable pub prekey_from_row : PreKeyRow → PreKeyRecord
prekey_from_row r = record {
  key_id = r.key_id;
  kind = prekey_kind_of r.kind;
  classical = r.classical;
  pq = r.pq;
  public_classical = r.public_classical;
  public_pq = r.public_pq;
  signature = r.signature;
  created_at = r.created_at;
}

prekey_from_row-prekey_params : (r : PreKeyRecord) → prekey_from_row (prekey_params r) ≡ r
unfolding prekey_from_row prekey_params
prekey_from_row-prekey_params r = rw (prekey_kind_of-prekey_kind_number r.kind)

-- The parameters of `insert_message`, with the row id that the table gives.
unfoldable pub message_params : ℕ → MessageRecord → MessageRow
message_params id r = record {
  id = id;
  conversation_id = r.conversation_id;
  message_id = r.message_id;
  sender_classical = r.sender_classical;
  ciphertext = r.ciphertext;
  header = r.header;
  content_type = r.content_type;
  direction = direction_number r.direction;
  status = status_number r.status;
  created_at = r.created_at;
}

unfoldable pub message_from_row : MessageRow → MessageRecord
message_from_row r = record {
  id = r.id;
  conversation_id = r.conversation_id;
  message_id = r.message_id;
  sender_classical = r.sender_classical;
  ciphertext = r.ciphertext;
  header = r.header;
  content_type = r.content_type;
  direction = direction_of r.direction;
  status = status_of r.status;
  created_at = r.created_at;
}

pub message_from_row-message_params :
    (id : ℕ) (r : MessageRecord) → message_from_row (message_params id r) ≡ record r { id = id }
unfolding message_from_row message_params
message_from_row-message_params id r =
    rw (direction_of-direction_number r.direction, status_of-status_number r.status)

-- The parameters of `insert_media`.
unfoldable pub media_params : MediaRecord → MediaRow
media_params r = record {
  id = r.id;
  message_id = r.message_id;
  kind = media_kind_number r.kind;
  encryption_key = r.encryption_key;
  size = r.size;
  relative_path = r.relative_path;
  created_at = r.created_at;
}

-- The closures of `load_media` and `list_media_for_message`.
unfoldable pub media_from_row : MediaRow → MediaRecord
media_from_row r = record {
  id = r.id;
  message_id = r.message_id;
  kind = media_kind_from_i64 r.kind;
  encryption_key = r.encryption_key;
  size = r.size;
  relative_path = r.relative_path;
  created_at = r.created_at;
}

media_from_row-media_params : (r : MediaRecord) → media_from_row (media_params r) ≡ r
unfolding media_from_row media_params
media_from_row-media_params r = rw (media_kind_from_i64-media_kind_number r.kind)
