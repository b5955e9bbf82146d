-- ===== src/Storage/Operations/Reachable.antt =====
-- Every run of the statements of presidium-storage/src/store.rs keeps the database well formed.
use presidium.Base.{ok, List, [], ◌∷◌, refl, not, Option, none, some}
use mathlib.Core.Option.{map as map_option}
use presidium.Storage.Models.{PreKeyRecord, DeviceRecord, one_time}
use presidium.Storage.Tables.{
  PreKeyRow, DocRow, Database, empty_database, prekey_params, prekey_from_row,
}
use presidium.Storage.Sql.{
  integer_key, bytes_key, pair_key, has_key, delete, upsert, replace, first,
}
use presidium.Storage.Sql.Keyed.{
  IsKeyed, select-IsKeyed, append-IsKeyed, upsert-IsKeyed, find-delete,
}
use presidium.Storage.Store
use presidium.Storage.Store.Sessions
use presidium.Storage.Store.Messages
use presidium.Storage.Store.{sender_key_id, merge_sender_key, merge_doc, merge_device}
use presidium.Storage.Operations.{Operation, apply, run, settle-bound}
use presidium.Storage.Operations.Invariant.{IsWellFormed, empty_database-IsWellFormed}
use presidium.Storage.Operations.SessionsKept.{
  with_conversation, without_session, with_conversation-ReferencesHold, insert_session-IsWellFormed,
  without_session-ReferencesHold,
}
use presidium.Storage.Operations.MessagesKept.{
  insert_message-IsWellFormed, update_message_status-ReferencesHold, insert_media-IsWellFormed,
}

save_prekey-IsKeyed :
    (row : PreKeyRow) (rows : List PreKeyRow)
    → IsKeyed PreKeyRow.key_id rows
    → IsKeyed PreKeyRow.key_id (replace PreKeyRow.key_id row rows)
save_prekey-IsKeyed row rows h =
    append-IsKeyed PreKeyRow.key_id row (delete (has_key PreKeyRow.key_id row.key_id) rows)
      (find-delete PreKeyRow.key_id row.key_id rows)
      (select-IsKeyed PreKeyRow.key_id (λ r. not (has_key PreKeyRow.key_id row.key_id r)) rows h)

delete_taken-IsWellFormed :
    (taken : Option PreKeyRecord) (db : Database)
    → IsWellFormed db
    → IsWellFormed (Store.delete_taken taken db)
unfolding Store.delete_prekey
delete_taken-IsWellFormed none db h = h
delete_taken-IsWellFormed (some r) db (p, k, o, d, references) = (
  select-IsKeyed PreKeyRow.key_id (λ row. not (has_key PreKeyRow.key_id r.key_id row)) db.prekeys p,
  k,
  o,
  d,
  references,
)

-- A well formed database stays well formed under every statement, one that fails included.
pub apply-IsWellFormed :
    (op : Operation) (db : Database) → IsWellFormed db → IsWellFormed (apply op db)
unfolding apply Store.upsert_conversation Sessions.delete_session Messages.update_message_status
    Store.save_identity Store.save_prekey Store.delete_prekey Store.take_one_time_prekey
    Store.upsert_sender_key Store.save_doc Store.delete_doc Store.upsert_device prekey_params
apply-IsWellFormed (Operation.save_identity r) db h =
    settle-bound IsWellFormed (r.device_id ∷ [])
      (ok (record db { identity = some (Store.keep_identity_time db.identity r) })) db h h
apply-IsWellFormed (Operation.save_prekey r) db (p, k, o, d, references) =
    (save_prekey-IsKeyed (prekey_params r) db.prekeys p, k, o, d, references)
apply-IsWellFormed Operation.take_one_time_prekey db h =
    delete_taken-IsWellFormed (map_option prekey_from_row (first (Store.prekeys_of one_time db))) db
      h
apply-IsWellFormed (Operation.delete_prekey id) db (p, k, o, d, references) = (
  select-IsKeyed PreKeyRow.key_id (λ r. not (has_key PreKeyRow.key_id id r)) db.prekeys p,
  k,
  o,
  d,
  references,
)
apply-IsWellFormed (Operation.upsert_conversation r) db (p, k, o, d, references) =
    settle-bound IsWellFormed (r.id ∷ []) (ok (with_conversation r db)) db (p, k, o, d, references)
      (p, k, o, d, with_conversation-ReferencesHold r db references)
apply-IsWellFormed (Operation.insert_session row) db h = insert_session-IsWellFormed row db h
apply-IsWellFormed (Operation.delete_session id) db (p, k, o, d, references) =
    settle-bound IsWellFormed (id ∷ []) (ok (without_session id db)) db (p, k, o, d, references)
      (p, k, o, d, without_session-ReferencesHold id db references)
apply-IsWellFormed (Operation.insert_message r) db h = insert_message-IsWellFormed r db h
apply-IsWellFormed (Operation.update_message_status id status) db (p, k, o, d, references) =
    (p, k, o, d, update_message_status-ReferencesHold id status db references)
apply-IsWellFormed (Operation.upsert_sender_key r) db (p, k, o, d, references) =
    settle-bound IsWellFormed (r.group_id ∷ [])
      (ok (record db { sender_keys = upsert sender_key_id merge_sender_key r db.sender_keys })) db
      (p, k, o, d, references)
      (
        p,
        upsert-IsKeyed sender_key_id merge_sender_key r db.sender_keys (λ old. refl) k,
        o,
        d,
        references,
      )
apply-IsWellFormed (Operation.insert_media r) db h = insert_media-IsWellFormed r db h
apply-IsWellFormed (Operation.save_doc now id bytes) db (p, k, o, d, references) =
    let row : DocRow = record { id = id; ydoc = bytes; updated_at = now } in
    settle-bound IsWellFormed (id ∷ [])
      (ok (record db { docs = upsert DocRow.id merge_doc row db.docs })) db (p, k, o, d, references)
      (p, k, upsert-IsKeyed DocRow.id merge_doc row db.docs (λ old. refl) o, d, references)
apply-IsWellFormed (Operation.delete_doc id) db (p, k, o, d, references) =
    settle-bound IsWellFormed (id ∷ [])
      (ok (record db { docs = delete (has_key DocRow.id id) db.docs })) db (p, k, o, d, references)
      (p, k, select-IsKeyed DocRow.id (λ r. not (has_key DocRow.id id r)) db.docs o, d, references)
apply-IsWellFormed (Operation.upsert_device r) db (p, k, o, d, references) =
    settle-bound IsWellFormed (r.device_id ∷ [])
      (ok (record db { devices = upsert DeviceRecord.device_id merge_device r db.devices })) db
      (p, k, o, d, references)
      (
        p,
        k,
        o,
        upsert-IsKeyed DeviceRecord.device_id merge_device r db.devices (λ old. refl) d,
        references,
      )

run_keeps-IsWellFormed :
    (ops : List Operation) (db : Database) → IsWellFormed db → IsWellFormed (run ops db)
unfolding run
run_keeps-IsWellFormed [] db h = h
run_keeps-IsWellFormed (op ∷ ops) db h =
    run_keeps-IsWellFormed ops (apply op db) (apply-IsWellFormed op db h)

-- From the empty tables, every run of statements leads to a database in which no key stands twice, every
-- session and message has its conversation, media their message, and no message has an id that was not
-- given out yet.
pub run-IsWellFormed : (ops : List Operation) → IsWellFormed (run ops empty_database)
run-IsWellFormed ops = run_keeps-IsWellFormed ops empty_database empty_database-IsWellFormed
