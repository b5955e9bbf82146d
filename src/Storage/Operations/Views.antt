-- ===== src/Storage/Operations/Views.antt =====
-- The statements of presidium-storage/src/store.rs on sessions, messages and media, each seen in the functions
-- of Refinement.
use presidium.Base.{
  ℕ, ◌≡◌, refl, ap, none, some, List, [], ◌∷◌, arith, inl, inr, Bool-cases, Option, ok, ◌∙◌, ◌+◌,
  ◌++◌, ◌||◌, if◌then◌else◌,
}
use presidium.Storage.Models.{
  MessageRecord, MessageStatus, pending, sent, delivered, read, failed, MediaRecord,
  ConversationRecord, status_number, direction_number,
}
use presidium.Storage.Tables.{
  SessionRow, MessageRow, MediaRow, Database, message_params, media_params,
}
use presidium.Storage.Sql.{integer_key, bytes_key, pair_key, exists, has_key, find}
use presidium.Storage.Texts.{any_nul, bound, optional_text}
use presidium.Storage.Operations.MessagesKept.{no_larger_id}
use presidium.Crypto.Constants.{Bytes}
use mathlib.Core.Path.{fun_ext}
use mathlib.Core.Option.{map as map_option}
use presidium.Storage.Sql.References.{find-exists}
use presidium.Storage.Store.Sessions
use presidium.Storage.Store.Messages
use presidium.Storage.Store.Messages.{message_uid, message_exists}
use presidium.Storage.Operations.{Operation, settle, settle_message}
use presidium.Storage.Operations.Invariant.{IsWellFormed}
use presidium.Storage.Operations.Refinement.{
  View, view, change, new_message, new_media, has_message, status_code,
}
use presidium.Storage.Sql.Maps.{
  present, set, exists-append_same, exists-update_same, rows_of-append, rows_of-update,
  rows_of-upsert, exists-find,
}

status_number_lem : (status : MessageStatus) → status_number status ≡ status_code status
unfolding status_number
status_number_lem pending = refl
status_number_lem sent = refl
status_number_lem delivered = refl
status_number_lem read = refl
status_number_lem failed = refl

message_params_lem : (id : ℕ) (r : MessageRecord) → message_params id r ≡ new_message id r
unfolding message_params direction_number
message_params_lem id r = ground (arith, status_number_lem r.status)

pub insert_session-view :
    (row : SessionRow) (db : Database)
    → view (settle db (Sessions.insert_session row db))
      ≡ change (Operation.insert_session row) (view db)
unfolding Sessions.insert_session
insert_session-view row db =
    let same : exists (has_key ConversationRecord.id row.conversation_id) db.conversations
        ≡ present (find ConversationRecord.id row.conversation_id db.conversations) =
      exists-find ConversationRecord.id row.conversation_id db.conversations in
    elim (Bool-cases
      (any_nul (row.conversation_id ∷ row.session_keys ∷ optional_text row.ratchet_state))) [
        | inl nul ↦ rw nul refl
        | inr clean ↦
            elim (Bool-cases
              (exists (has_key ConversationRecord.id row.conversation_id) db.conversations)) [
                | inl e ↦
                    rw (clean, e, ← same, e)
                      (ap (λ f. record (view db) { sessions = f })
                        (rows_of-upsert SessionRow.conversation_id Sessions.merge_session row
                          db.sessions (λ old. refl)))
                | inr e ↦ rw (clean, e, ← same, e) refl
              ]
      ]

-- The row of a message, behind the others, under the id that comes next.
inserted_view :
    (r : MessageRecord) (db : Database)
    → IsWellFormed db
    → let id : ℕ = db.last_message_id + 1 in
      view (record db { messages = db.messages ++ message_params id r ∷ []; last_message_id = id })
      ≡ record (view db) {
        messages = set id (some (new_message id r)) (view db).messages;
        message_uids = λ other.
            (view db).message_uids other || pair_key.same (r.conversation_id, r.message_id) other;
        last_message_id = id;
      }
unfolding message_params status_number direction_number
inserted_view r db h =
    let id : ℕ = db.last_message_id + 1 in
    let row : MessageRow = message_params id r in
    let after : View =
      view (record db { messages = db.messages ++ row ∷ []; last_message_id = id }) in
    let made : row ≡ new_message id r = message_params_lem id r in
    ap (λ f. record after { messages = f })
      (rows_of-append MessageRow.id row db.messages
          (no_larger_id db.messages db.last_message_id h.4.ids_given)
        ∙ ap (λ (m : MessageRow). set id (some m) (view db).messages) made)
    ∙ ap
        (λ f. record after {
          messages = set id (some (new_message id r)) (view db).messages;
          message_uids = f;
        })
        (fun_ext (λ other. exists-append_same (has_key message_uid other) db.messages row))

pub insert_message-view :
    (r : MessageRecord) (db : Database)
    → IsWellFormed db
    → view (settle_message db (Messages.insert_message r db))
      ≡ change (Operation.insert_message r) (view db)
unfolding Messages.insert_message
insert_message-view r db h =
    let same : exists (has_key ConversationRecord.id r.conversation_id) db.conversations
        ≡ present (find ConversationRecord.id r.conversation_id db.conversations) =
      exists-find ConversationRecord.id r.conversation_id db.conversations in
    elim (Bool-cases (any_nul (r.conversation_id ∷ r.header ∷ []))) [
      | inl nul ↦ rw nul refl
      | inr clean ↦
          elim (Bool-cases
            (exists (has_key message_uid (r.conversation_id, r.message_id)) db.messages)) [
              | inl used ↦ rw (clean, used) refl
              | inr fresh ↦
                  elim (Bool-cases
                    (exists (has_key ConversationRecord.id r.conversation_id) db.conversations)) [
                      | inl owned ↦ rw (clean, fresh, owned, ← same, owned) (inserted_view r db h)
                      | inr absent ↦ rw (clean, fresh, absent, ← same, absent) refl
                    ]
            ]
    ]

message_exists-view :
    (id : Option ℕ) (db : Database)
    → message_exists id db.messages ≡ has_message id (view db).messages
message_exists-view none db = refl
message_exists-view (some id) db = exists-find MessageRow.id id db.messages

pub insert_media-view :
    (r : MediaRecord) (db : Database)
    → view (settle db (Messages.insert_media r db)) ≡ change (Operation.insert_media r) (view db)
unfolding Messages.insert_media media_params
insert_media-view r db =
    let same : exists (has_key MediaRow.id r.id) db.media
        ≡ present (find MediaRow.id r.id db.media) =
      exists-find MediaRow.id r.id db.media in
    let there : message_exists r.message_id db.messages
        ≡ has_message r.message_id (view db).messages =
      message_exists-view r.message_id db in
    elim (Bool-cases (any_nul (r.id ∷ r.relative_path ∷ []))) [
      | inl nul ↦ rw nul refl
      | inr clean ↦ elim (Bool-cases (exists (has_key MediaRow.id r.id) db.media)) [
        | inl used ↦ rw (clean, used, ← same, used) refl
        | inr fresh ↦ elim (Bool-cases (message_exists r.message_id db.messages)) [
          | inl owned ↦
              rw (clean, fresh, owned, ← same, fresh, ← there, owned)
                (ap (λ f. record (view db) { media = f })
                  (rows_of-append MediaRow.id (new_media r) db.media
                    (find-exists MediaRow.id r.id db.media fresh)))
          | inr absent ↦ rw (clean, fresh, absent, ← same, fresh, ← there, absent) refl
        ]
      ]
    ]

pub update_message_status-view :
    (id : ℕ) (status : MessageStatus) (db : Database)
    → view (Messages.update_message_status id status db)
      ≡ change (Operation.update_message_status id status) (view db)
unfolding Messages.update_message_status
update_message_status-view id status db =
    let after : View = view (Messages.update_message_status id status db) in
    let f : MessageRow → MessageRow = Messages.set_status status in
    let code : status_number status ≡ status_code status = status_number_lem status in
    ap (λ g. record after { messages = g })
      (rows_of-update MessageRow.id id f db.messages (λ r. refl)
        ∙ ap
            (λ (n : ℕ).
              set id
                (map_option (λ (row : MessageRow). record row { status = n })
                  (find MessageRow.id id db.messages))
                (view db).messages)
            code)
    ∙ ap
        (λ g. record (change (Operation.update_message_status id status) (view db)) {
          message_uids = g;
        })
        (fun_ext (λ other.
          exists-update_same (has_key message_uid other) (has_key MessageRow.id id) f db.messages
            (λ r. refl)))

-- A statement behind the binding of its texts.
pub view-bound :
    (texts : List Bytes) (db db' : Database) (w : View)
    → view db' ≡ w
    → view (settle db (bound texts (ok db'))) ≡ (if any_nul texts then view db else w)
view-bound texts db db' w e = elim (Bool-cases (any_nul texts)) [
  | inl nul ↦ rw nul refl
  | inr clean ↦ rw clean e
]
