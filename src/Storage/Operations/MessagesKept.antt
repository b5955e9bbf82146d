-- ===== src/Storage/Operations/MessagesKept.antt =====
-- The statements on messages and media keep what the schema promises.
use presidium.Base.{
  ℕ, ◌+◌, ◌≤◌, ◌≡◌, refl, Bool, true, Option, none, some, List, [], ◌∷◌, ◌++◌, All, arith,
  Bool-cases, inl, inr,
}
use presidium.Storage.Models.{ConversationRecord, MessageRecord, MessageStatus, MediaRecord}
use presidium.Storage.Tables.{MessageRow, MediaRow, Database, message_params, media_params}
use presidium.Storage.Sql.{integer_key, bytes_key, pair_key, update, exists, has_key, find}
use presidium.Storage.Sql.Keyed.{append-IsKeyed, update-IsKeyed}
use presidium.Storage.Sql.References.{
  All-append, All-update, exists-append, exists-update, find-exists,
}
use presidium.Storage.Sql.Sorted.{All-map}
use presidium.Storage.Store.Messages.{message_uid, message_exists, set_status}
use presidium.Storage.Store.Messages
use presidium.Storage.Texts.{any_nul}
use presidium.Storage.Operations.{settle, settle_message}
use presidium.Storage.Operations.Invariant.{HasConversation, ReferencesHold, IsWellFormed}

pub no_larger_id :
    (rows : List MessageRow) (last : ℕ)
    → All (λ r. r.id ≤ last) rows
    → find MessageRow.id (last + 1) rows ≡ none
no_larger_id [] last h = refl
no_larger_id (r ∷ rows) last (here, h) = ground (arith, no_larger_id rows last h, here)

message_exists-append :
    (id : Option ℕ) (rows : List MessageRow) (new : MessageRow)
    → message_exists id rows ≡ true
    → message_exists id (rows ++ new ∷ []) ≡ true
message_exists-append none rows new h = refl
message_exists-append (some id) rows new h = exists-append (has_key MessageRow.id id) rows new h

pub insert_message-IsWellFormed :
    (r : MessageRecord) (db : Database)
    → IsWellFormed db
    → IsWellFormed (settle_message db (Messages.insert_message r db))
unfolding Messages.insert_message message_params
insert_message-IsWellFormed r db (p, k, o, d, h) =
    let id : ℕ = db.last_message_id + 1 in
    elim (Bool-cases (any_nul (r.conversation_id ∷ r.header ∷ []))) [
      | inl nul ↦ rw nul (p, k, o, d, h)
      | inr clean ↦
          elim (Bool-cases
            (exists (has_key message_uid (r.conversation_id, r.message_id)) db.messages)) [
              | inl used ↦ rw (clean, used) (p, k, o, d, h)
              | inr fresh ↦
                  elim (Bool-cases
                    (exists (has_key ConversationRecord.id r.conversation_id) db.conversations)) [
                      | inr absent ↦ rw (clean, fresh, absent) (p, k, o, d, h)
                      | inl owned ↦
                          rw (clean, fresh, owned)
                            (
                              p,
                              k,
                              o,
                              d,
                              record {
                                conversations_keyed = h.conversations_keyed;
                                sessions_keyed = h.sessions_keyed;
                                media_keyed = h.media_keyed;
                                sessions_owned = h.sessions_owned;
                                messages_keyed =
                                    append-IsKeyed MessageRow.id (message_params id r) db.messages
                                      (no_larger_id db.messages db.last_message_id h.ids_given)
                                      h.messages_keyed;
                                uids_keyed =
                                    append-IsKeyed message_uid (message_params id r) db.messages
                                      (find-exists message_uid (r.conversation_id, r.message_id)
                                        db.messages fresh)
                                      h.uids_keyed;
                                messages_owned =
                                    All-append
                                      (λ m. HasConversation db.conversations m.conversation_id)
                                      db.messages (message_params id r) h.messages_owned owned;
                                media_owned =
                                    All-map (λ m. message_exists m.message_id db.messages ≡ true)
                                      (λ m.
                                        message_exists m.message_id
                                          (db.messages ++ message_params id r ∷ [])
                                        ≡ true)
                                      db.media
                                      (λ m.
                                        message_exists-append m.message_id db.messages
                                          (message_params id r))
                                      h.media_owned;
                                ids_given =
                                    All-append (λ m. m.id ≤ id) db.messages (message_params id r)
                                      (All-map (λ m. m.id ≤ db.last_message_id) (λ m. m.id ≤ id)
                                        db.messages (λ m le. omega arith) h.ids_given)
                                      (omega arith);
                              },
                            )
                    ]
            ]
    ]

message_exists-update :
    (p : MessageRow → Bool) (status : MessageStatus) (rows : List MessageRow) (id : Option ℕ)
    → message_exists id rows ≡ true
    → message_exists id (update p (set_status status) rows) ≡ true
message_exists-update p status rows none h = refl
message_exists-update p status rows (some id) h =
    exists-update (has_key MessageRow.id id) p (set_status status) rows (λ r. refl) h

pub update_message_status-ReferencesHold :
    (id : ℕ) (status : MessageStatus) (db : Database)
    → ReferencesHold db
    → ReferencesHold (Messages.update_message_status id status db)
unfolding Messages.update_message_status
update_message_status-ReferencesHold id status db h =
    let p : MessageRow → Bool = has_key MessageRow.id id in
    let f : MessageRow → MessageRow = set_status status in
    record {
      conversations_keyed = h.conversations_keyed;
      sessions_keyed = h.sessions_keyed;
      media_keyed = h.media_keyed;
      sessions_owned = h.sessions_owned;
      messages_keyed = update-IsKeyed MessageRow.id p f db.messages (λ r. refl) h.messages_keyed;
      uids_keyed = update-IsKeyed message_uid p f db.messages (λ r. refl) h.uids_keyed;
      messages_owned =
          All-update (λ m. HasConversation db.conversations m.conversation_id) p f db.messages
            (λ m owned. owned) h.messages_owned;
      media_owned =
          All-map (λ m. message_exists m.message_id db.messages ≡ true)
            (λ m. message_exists m.message_id (update p f db.messages) ≡ true) db.media
            (λ m. message_exists-update p status db.messages m.message_id) h.media_owned;
      ids_given =
          All-update (λ m. m.id ≤ db.last_message_id) p f db.messages (λ m le. le) h.ids_given;
    }

pub insert_media-IsWellFormed :
    (r : MediaRecord) (db : Database)
    → IsWellFormed db
    → IsWellFormed (settle db (Messages.insert_media r db))
unfolding Messages.insert_media media_params
insert_media-IsWellFormed r db (p, k, o, d, h) =
    elim (Bool-cases (any_nul (r.id ∷ r.relative_path ∷ []))) [
      | inl nul ↦ rw nul (p, k, o, d, h)
      | inr clean ↦ elim (Bool-cases (exists (has_key MediaRow.id r.id) db.media)) [
        | inl used ↦ rw (clean, used) (p, k, o, d, h)
        | inr fresh ↦ elim (Bool-cases (message_exists r.message_id db.messages)) [
          | inr absent ↦ rw (clean, fresh, absent) (p, k, o, d, h)
          | inl owned ↦
              rw (clean, fresh, owned)
                (
                  p,
                  k,
                  o,
                  d,
                  record {
                    conversations_keyed = h.conversations_keyed;
                    sessions_keyed = h.sessions_keyed;
                    messages_keyed = h.messages_keyed;
                    uids_keyed = h.uids_keyed;
                    sessions_owned = h.sessions_owned;
                    messages_owned = h.messages_owned;
                    ids_given = h.ids_given;
                    media_keyed =
                        append-IsKeyed MediaRow.id (media_params r) db.media
                          (find-exists MediaRow.id r.id db.media fresh) h.media_keyed;
                    media_owned =
                        All-append (λ m. message_exists m.message_id db.messages ≡ true) db.media
                          (media_params r) h.media_owned owned;
                  },
                )
        ]
      ]
    ]
