-- ===== src/Storage/Operations.antt =====
-- The statements of presidium-storage/src/store.rs that write, as the steps of a run of the database. A
-- statement that fails changes nothing.
pub mod Refinement
pub mod Views
pub mod Invariant
pub mod SessionsKept
pub mod MessagesKept
pub mod Reachable
pub mod Run
use presidium.Base.{ℕ, Option, List, [], ◌∷◌, ok, err, ◌≡◌, Bool-cases, inl, inr}
use presidium.Storage.Texts.{any_nul, bound}
use presidium.Crypto.Constants.{Bytes}
use presidium.Storage.Error.{StorageResult}
use presidium.Storage.Models.{
  IdentityRecord, PreKeyRecord, ConversationRecord, MessageRecord, MessageStatus, SenderKeyRecord,
  MediaRecord, DeviceRecord,
}
use presidium.Storage.Tables.{SessionRow, Database, empty_database}
use presidium.Storage.Store
use presidium.Storage.Store.Sessions
use presidium.Storage.Store.Messages

-- `insert_session` is `save_session` behind its serialization.
pub data Operation : Type 0 where
  save_identity : IdentityRecord → Operation
  save_prekey : PreKeyRecord → Operation
  take_one_time_prekey : Operation
  delete_prekey : ℕ → Operation
  upsert_conversation : ConversationRecord → Operation
  insert_session : SessionRow → Operation
  delete_session : Bytes → Operation
  insert_message : MessageRecord → Operation
  update_message_status : ℕ → MessageStatus → Operation
  upsert_sender_key : SenderKeyRecord → Operation
  insert_media : MediaRecord → Operation
  save_doc : ℕ → Bytes → Bytes → Operation
  delete_doc : Bytes → Operation
  upsert_device : DeviceRecord → Operation

abbrev pub settle : Database → StorageResult Database → Database
settle db (err e) = db
settle db (ok db') = db'

abbrev pub settle_message : Database → StorageResult (Database × ℕ) → Database
settle_message db (err e) = db
settle_message db (ok (db', id)) = db'

unfoldable pub apply : Operation → Database → Database
apply (save_identity r) db = settle db (Store.save_identity r db)
apply (save_prekey r) db = Store.save_prekey r db
apply take_one_time_prekey db = (Store.take_one_time_prekey db).0
apply (delete_prekey key_id) db = Store.delete_prekey key_id db
apply (upsert_conversation r) db = settle db (Store.upsert_conversation r db)
apply (insert_session row) db = settle db (Sessions.insert_session row db)
apply (delete_session id) db = settle db (Sessions.delete_session id db)
apply (insert_message r) db = settle_message db (Messages.insert_message r db)
apply (update_message_status id status) db = Messages.update_message_status id status db
apply (upsert_sender_key r) db = settle db (Store.upsert_sender_key r db)
apply (insert_media r) db = settle db (Messages.insert_media r db)
apply (save_doc now id bytes) db = settle db (Store.save_doc now id bytes db)
apply (delete_doc id) db = settle db (Store.delete_doc id db)
apply (upsert_device r) db = settle db (Store.upsert_device r db)

unfoldable pub run : List Operation → Database → Database
run [] db = db
run (op ∷ ops) db = run ops (apply op db)

-- What the database satisfies before a statement and what it satisfies after the statement without the
-- binding, it satisfies after the statement.
pub settle-bound :
    (P : Database → Type 0) (texts : List Bytes) (r : StorageResult Database) (db : Database)
    → P db
    → P (settle db r)
    → P (settle db (bound texts r))
settle-bound P texts r db before after = elim (Bool-cases (any_nul texts)) [
  | inl e ↦ rw e before
  | inr e ↦ rw e after
]

settle_message-bound :
    (P : Database → Type 0) (texts : List Bytes) (r : StorageResult (Database × ℕ)) (db : Database)
    → P db
    → P (settle_message db r)
    → P (settle_message db (bound texts r))
settle_message-bound P texts r db before after = elim (Bool-cases (any_nul texts)) [
  | inl e ↦ rw e before
  | inr e ↦ rw e after
]
