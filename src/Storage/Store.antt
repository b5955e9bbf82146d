-- ===== src/Storage/Store.antt =====
-- presidium-storage/src/store.rs: the operations of the database on its tables. A statement that breaks a
-- constraint leaves the tables as they were. Foreign keys are checked: `Database::finish` turns them on.
pub mod Sessions
pub mod Messages
pub mod Prekeys
pub mod Pages
pub mod Stored
use presidium.Base.{
  ℕ, ◌≡◌, refl, Bool, true, false, not, ◌&&◌, Option, none, some, List, [], ◌∷◌, ◌++◌, map, length,
  take, ◌==◌, leb, ltb, bytes_eq, Result, ok, err, ◌>>=◌, if◌then◌else◌,
}
use mathlib.Core.Option.{map as map_option}
use presidium.Crypto.Constants.{Bytes}
use presidium.Storage.Error.{StorageResult, database, unique_constraint, foreign_key_constraint}
use presidium.Storage.Models.{
  IdentityRecord, PreKeyKind, PreKeyRecord, one_time, prekey_kind_number, ConversationRecord,
  SenderKeyRecord, MediaRecord, DeviceRecord,
}
use presidium.Storage.Error.{StorageResult}
use presidium.Storage.Texts.{bound}
use presidium.Storage.Tables.{
  PreKeyRow, DocRow, Database, prekey_params, prekey_from_row, media_params, media_from_row,
}
use presidium.Storage.Sql.{
  integer_key, bytes_key, pair_key, select, delete, exists, first, order_by, has_key, find, upsert,
  replace,
}

-- `ON CONFLICT(id) DO UPDATE` of the identity leaves `created_at` as it was.
abbrev pub keep_identity_time : Option IdentityRecord → IdentityRecord → IdentityRecord
keep_identity_time none new = new
keep_identity_time (some old) new = record new { created_at = old.created_at }

unfoldable pub save_identity : IdentityRecord → Database → StorageResult Database
save_identity r db =
    bound (r.device_id ∷ []) (ok (record db { identity = some (keep_identity_time db.identity r) }))

unfoldable pub load_identity : Database → Option IdentityRecord
load_identity db = db.identity

unfoldable pub save_prekey : PreKeyRecord → Database → Database
save_prekey r db = record db { prekeys = replace PreKeyRow.key_id (prekey_params r) db.prekeys }

abbrev pub of_kind : PreKeyKind → PreKeyRow → Bool
of_kind kind r = r.kind == prekey_kind_number kind

abbrev pub by_key_id : PreKeyRow → PreKeyRow → Bool
by_key_id a b = leb a.key_id b.key_id

-- The rows of a kind, `ORDER BY key_id`.
abbrev pub prekeys_of : PreKeyKind → Database → List PreKeyRow
prekeys_of kind db = order_by by_key_id (select (of_kind kind) db.prekeys)

unfoldable pub list_prekeys : PreKeyKind → ℕ → Database → List PreKeyRecord
list_prekeys kind limit db = map prekey_from_row (take limit (prekeys_of kind db))

unfoldable pub count_prekeys : PreKeyKind → Database → ℕ
count_prekeys kind db = length (select (of_kind kind) db.prekeys)

unfoldable pub delete_prekey : ℕ → Database → Database
delete_prekey key_id db = record db {
  prekeys = delete (has_key PreKeyRow.key_id key_id) db.prekeys;
}

-- The deletion of the row that was read, if there is one.
abbrev pub delete_taken : Option PreKeyRecord → Database → Database
delete_taken none db = db
delete_taken (some r) db = delete_prekey r.key_id db

unfoldable pub take_one_time_prekey : Database → Database × Option PreKeyRecord
take_one_time_prekey db =
    let record_read : Option PreKeyRecord =
      map_option prekey_from_row (first (prekeys_of one_time db)) in
    (delete_taken record_read db, record_read)

-- The columns that `ON CONFLICT(id) DO UPDATE` sets.
abbrev pub merge_conversation : ConversationRecord → ConversationRecord → ConversationRecord
merge_conversation old new = record old {
  peer_classical = new.peer_classical;
  peer_pq = new.peer_pq;
  is_group = new.is_group;
}

unfoldable pub upsert_conversation : ConversationRecord → Database → StorageResult Database
upsert_conversation r db = bound (r.id ∷ []) (
    ok (record db {
      conversations = upsert ConversationRecord.id merge_conversation r db.conversations;
    }))

unfoldable pub load_conversation : Bytes → Database → StorageResult (Option ConversationRecord)
load_conversation id db = bound (id ∷ []) (ok (find ConversationRecord.id id db.conversations))

unfoldable pub list_conversations : Database → List ConversationRecord
list_conversations db = order_by (λ a b. leb b.created_at a.created_at) db.conversations

abbrev pub sender_key_id : SenderKeyRecord → Bytes × Bytes
sender_key_id r = (r.group_id, r.sender_classical)

abbrev pub merge_sender_key : SenderKeyRecord → SenderKeyRecord → SenderKeyRecord
merge_sender_key old new = record old {
  chain_key = new.chain_key;
  message_index = new.message_index;
  key_id = new.key_id;
  updated_at = new.updated_at;
}

unfoldable pub upsert_sender_key : SenderKeyRecord → Database → StorageResult Database
upsert_sender_key r db =
    bound (r.group_id ∷ [])
      (ok (record db { sender_keys = upsert sender_key_id merge_sender_key r db.sender_keys }))

unfoldable pub load_sender_key : Bytes → Bytes → Database → StorageResult (Option SenderKeyRecord)
load_sender_key group_id sender_classical db =
    bound (group_id ∷ []) (ok (find sender_key_id (group_id, sender_classical) db.sender_keys))

abbrev pub merge_doc : DocRow → DocRow → DocRow
merge_doc old new = record old { ydoc = new.ydoc; updated_at = new.updated_at }

-- `save_doc` at the time `now`.
unfoldable pub save_doc : ℕ → Bytes → Bytes → Database → StorageResult Database
save_doc now id ydoc_bytes db = bound (id ∷ []) (
    ok (record db {
      docs =
          upsert DocRow.id merge_doc (record { id = id; ydoc = ydoc_bytes; updated_at = now })
            db.docs;
    }))

unfoldable pub load_doc : Bytes → Database → StorageResult (Option Bytes)
load_doc id db = bound (id ∷ []) (ok (map_option DocRow.ydoc (find DocRow.id id db.docs)))

unfoldable pub delete_doc : Bytes → Database → StorageResult Database
delete_doc id db = bound (id ∷ []) (ok (record db { docs = delete (has_key DocRow.id id) db.docs }))

abbrev pub merge_device : DeviceRecord → DeviceRecord → DeviceRecord
merge_device old new = record old {
  classical = new.classical;
  pq = new.pq;
  last_seen = new.last_seen;
}

unfoldable pub upsert_device : DeviceRecord → Database → StorageResult Database
upsert_device r db =
    bound (r.device_id ∷ [])
      (ok (record db { devices = upsert DeviceRecord.device_id merge_device r db.devices }))

-- The order of texts, by their bytes.
abbrev pub bytes_leb : Bytes → Bytes → Bool
bytes_leb [] ys = true
bytes_leb (x ∷ xs) [] = false
bytes_leb (x ∷ xs) (y ∷ ys) =
    let rest = bytes_leb xs ys in if ltb x y then true else (x == y && rest)

unfoldable pub list_devices : Database → List DeviceRecord
list_devices db = order_by (λ a b. bytes_leb a.device_id b.device_id) db.devices
