-- ===== src/Storage/Store/Stored.antt =====
-- presidium-storage/src/store.rs: what is read back after a session, a message or a media record was
-- stored, and when the insertion is refused.
use presidium.Base.{
  ◌||◌, ℕ, ◌+◌, ◌<◌, ◌≡◌, ◌≢◌, refl, ◌∙◌, ap, true, false, Option, none, some, List, [], ◌∷◌, ◌++◌,
  arith, ok, err, Bool-cases, ◌⊎◌, inl, inr,
}
use mathlib.Core.Option.{map as map_option}
use presidium.Crypto.Constants.{Bytes}
use presidium.Crypto.Primitives.{Json, JsonLaws}
use presidium.Crypto.Keys.{SessionKeys}
use presidium.Crypto.Identity.{IdentityPublicKey}
use presidium.Storage.Error.{database, nul_text, unique_constraint, foreign_key_constraint}
use presidium.Storage.Models.{ConversationRecord, MessageRecord, MessageStatus}
use presidium.Storage.SessionState.{RatchetSnapshot, SessionState}
use presidium.Storage.Texts.{any_nul, optional_text, bound, TextLaws}
use presidium.Storage.Sqleet.{has_nul}
use presidium.Storage.Tables.{
  SessionRow, MessageRow, Database, message_params, message_from_row,
  message_from_row-message_params,
}
use presidium.Storage.Sql.{integer_key, bytes_key, pair_key, exists, has_key, find, upsert}
use presidium.Storage.Sql.Keyed.{find-upsert, find-upsert-other, first-append, merged}
use presidium.Storage.Sql.References.{find-exists}
use presidium.Storage.Sql.Maps.{find-updated, find-not-updated}
use presidium.Storage.Store.Sessions.{
  merge_session, insert_session, save_session, load_session, session_of_row, ratchet_text,
  ratchet_of_text,
}
use presidium.Storage.Store.Messages.{
  message_uid, insert_message, load_message_by_uid, set_status, update_message_status,
}

abbrev pub HasConversation : Bytes → Database → Type 0
HasConversation id db = exists (has_key ConversationRecord.id id) db.conversations ≡ true

module _ ⦃keys_json : Json (SessionKeys IdentityPublicKey)⦄ ⦃ratchet_json : Json RatchetSnapshot⦄
    (keys_laws : JsonLaws keys_json) (ratchet_laws : JsonLaws ratchet_json)
    (keys_texts : TextLaws keys_laws) (ratchet_texts : TextLaws ratchet_laws) where
  ratchet_of_text-ratchet_text :
      (ratchet : Option RatchetSnapshot)
      → (text : Option Bytes) × (ratchet_text ratchet ≡ ok text)
        × (ratchet_of_text text ≡ ok ratchet)
        × (any_nul (optional_text text) ≡ false)
  unfolding ratchet_text ratchet_of_text
  ratchet_of_text-ratchet_text none = (none, refl, refl, refl)
  ratchet_of_text-ratchet_text (some snapshot) = (
    some (ratchet_laws.text snapshot),
    rw (ratchet_laws.to_vec_text snapshot) refl,
    rw (ratchet_laws.from_slice_text snapshot) refl,
    rw (ratchet_texts.no_nul snapshot) refl,
  )

  -- A row written for a session is read as the session, whether it is new or updates another.
  session_of_row_lem :
      (id : Bytes) (state : SessionState) (text : Option Bytes)
      → ratchet_of_text text ≡ ok state.ratchet
      → (old : Option SessionRow)
      → session_of_row (
          some (
            merged merge_session old (record {
              conversation_id = id;
              is_initiator = state.is_initiator;
              session_keys = keys_laws.text state.session_keys;
              ratchet_state = text;
              last_used = state.last_used;
            })))
        ≡ ok (some state)
  unfolding session_of_row
  session_of_row_lem id state text readable none =
      rw (keys_laws.from_slice_text state.session_keys, readable) refl
  session_of_row_lem id state text readable (some old) =
      rw (keys_laws.from_slice_text state.session_keys, readable) refl

  -- The cases of a save, every other conversation at once.
  pub save_session_cases :
      (id : Bytes) (state : SessionState) (db : Database)
      → (HasConversation id db
          × (has_nul id ≡ false)
          × ((db' : Database) × (save_session id state db ≡ ok db')
              × (load_session id db' ≡ ok (some state))
              × ((other : Bytes) → other ≢ id → load_session other db' ≡ load_session other db)))
        ⊎ ((has_nul id ≡ true) × (save_session id state db ≡ err (database nul_text)))
        ⊎ ((exists (has_key ConversationRecord.id id) db.conversations ≡ false)
            × (save_session id state db ≡ err (database foreign_key_constraint)))
  unfolding save_session load_session insert_session session_of_row
  save_session_cases id state db =
      let (text, written, readable, clean) = ratchet_of_text-ratchet_text state.ratchet in
      let keys_written = keys_laws.to_vec_text state.session_keys in
      let keys_clean : has_nul (keys_laws.text state.session_keys) ≡ false =
        keys_texts.no_nul state.session_keys in
      let row : SessionRow = record {
        conversation_id = id;
        is_initiator = state.is_initiator;
        session_keys = keys_laws.text state.session_keys;
        ratchet_state = text;
        last_used = state.last_used;
      } in
      elim (Bool-cases (has_nul id)) [
        | inl nul ↦ inr (inl (nul, rw (keys_written, written, nul) refl))
        | inr named ↦
            elim (Bool-cases (exists (has_key ConversationRecord.id id) db.conversations)) [
              | inr absent ↦
                  inr (
                    inr (absent, rw (keys_written, written, named, keys_clean, clean, absent) refl))
              | inl owned ↦ inl (
                owned,
                named,
                (
                  record db {
                    sessions = upsert SessionRow.conversation_id merge_session row db.sessions;
                  },
                  rw (keys_written, written, named, keys_clean, clean, owned) refl,
                  rw named (
                      ap session_of_row (
                        find-upsert SessionRow.conversation_id merge_session row db.sessions
                          (λ old. refl))
                      ∙ session_of_row_lem id state text readable
                          (find SessionRow.conversation_id id db.sessions)),
                  λ other d.
                      ap (λ (found : Option SessionRow). bound (other ∷ []) (session_of_row found))
                        (find-upsert-other SessionRow.conversation_id merge_session row db.sessions
                          other (λ old. refl) d),
                ),
              )
            ]
      ]

  -- The session of a conversation that is stored is read back, whatever was stored for it before, and the
  -- session of another conversation is read as before; without its conversation, or with a NUL byte in its
  -- id, it is refused.
  pub load_session-save_session :
      (id other : Bytes) (state : SessionState) (db : Database)
      → other ≢ id
      → (HasConversation id db
          × (has_nul id ≡ false)
          × ((db' : Database) × (save_session id state db ≡ ok db')
              × (load_session id db' ≡ ok (some state))
              × (load_session other db' ≡ load_session other db)))
        ⊎ ((has_nul id ≡ true) × (save_session id state db ≡ err (database nul_text)))
        ⊎ ((exists (has_key ConversationRecord.id id) db.conversations ≡ false)
            × (save_session id state db ≡ err (database foreign_key_constraint)))
  load_session-save_session id other state db d = elim (save_session_cases id state db) [
    | inl (owned, named, (db', saved, loaded, others)) ↦
        inl (owned, named, (db', saved, loaded, others other d))
    | inr refused ↦ inr refused
  ]

-- The row that was inserted behind the others is found by its key.
find_inserted :
    (r : MessageRecord) (id : ℕ) (rows : List MessageRow)
    → exists (has_key message_uid (r.conversation_id, r.message_id)) rows ≡ false
    → find message_uid (r.conversation_id, r.message_id) (rows ++ message_params id r ∷ [])
      ≡ some (message_params id r)
unfolding message_params
find_inserted r id rows fresh =
    let uid : Bytes × Bytes = (r.conversation_id, r.message_id) in
    ground (
      arith,
      first-append (has_key message_uid uid) rows (message_params id r ∷ [])
          (find-exists message_uid uid rows fresh),
      pair_key.same_refl uid,
    )

exists_inserted :
    (r : MessageRecord) (id : ℕ) (rows : List MessageRow)
    → exists
        (has_key message_uid (r.conversation_id, r.message_id))
        (rows ++ message_params id r ∷ [])
      ≡ true
unfolding message_params
exists_inserted r id [] = ground (arith, pair_key.same_refl (r.conversation_id, r.message_id))
exists_inserted r id (row ∷ rows) = ground (arith, exists_inserted r id rows)

-- A message whose conversation id or header has a NUL byte is refused, then one whose own id its
-- conversation already has, then one without a conversation; any other is stored with a row id larger than
-- the last one given out, is found by its own id, and is refused when it is inserted again.
pub insert_message_branches :
    (r : MessageRecord) (db : Database)
    → (((has_nul r.conversation_id || has_nul r.header) ≡ true)
        × (insert_message r db ≡ err (database nul_text)))
      ⊎ ((exists (has_key message_uid (r.conversation_id, r.message_id)) db.messages ≡ true)
          × (insert_message r db ≡ err (database unique_constraint)))
      ⊎ ((exists (has_key ConversationRecord.id r.conversation_id) db.conversations ≡ false)
          × (insert_message r db ≡ err (database foreign_key_constraint)))
      ⊎ ((db' : Database) × (id : ℕ) × (insert_message r db ≡ ok (db', id))
          × (db.last_message_id < id)
          × (load_message_by_uid r.conversation_id r.message_id db'
              ≡ ok (some (record r { id = id })))
          × (insert_message r db' ≡ err (database unique_constraint)))
unfolding insert_message load_message_by_uid
insert_message_branches r db =
    let id : ℕ = db.last_message_id + 1 in
    let uid : Bytes × Bytes = (r.conversation_id, r.message_id) in
    elim (Bool-cases (has_nul r.conversation_id || has_nul r.header)) [
      | inl nul ↦ inl (nul, ground (arith, nul))
      | inr clean ↦
          let named : has_nul r.conversation_id ≡ false = ground (arith, clean) in
          let headed : has_nul r.header ≡ false = ground (arith, clean) in
          elim (Bool-cases (exists (has_key message_uid uid) db.messages)) [
            | inl used ↦ inr (inl (used, rw (named, headed, used) refl))
            | inr fresh ↦
                elim (Bool-cases
                  (exists (has_key ConversationRecord.id r.conversation_id) db.conversations)) [
                    | inr absent ↦ inr (inr (inl (absent, rw (named, headed, fresh, absent) refl)))
                    | inl owned ↦ inr (
                        inr (
                          inr (
                            record db {
                              messages = db.messages ++ message_params id r ∷ [];
                              last_message_id = id;
                            },
                            id,
                            rw (named, headed, fresh, owned) refl,
                            omega arith,
                            rw named (
                                ap ok (
                                  ap (map_option message_from_row)
                                    (find_inserted r id db.messages fresh)
                                  ∙ ap some (message_from_row-message_params id r))),
                            rw (named, headed, exists_inserted r id db.messages) refl,
                          )))
                  ]
          ]
    ]

-- The status of the message with a row id is changed and nothing else of it; the messages with other ids
-- are left as they were.
pub update_message_status_rows :
    (id : ℕ) (status : MessageStatus) (db : Database)
    → (find MessageRow.id id (update_message_status id status db).messages
        ≡ map_option (set_status status) (find MessageRow.id id db.messages))
      × ((other : ℕ)
          → other ≢ id
          → find MessageRow.id other (update_message_status id status db).messages
            ≡ find MessageRow.id other db.messages)
unfolding update_message_status
update_message_status_rows id status db = (
  find-updated MessageRow.id id (set_status status) db.messages (λ r. refl),
  λ other d. find-not-updated MessageRow.id id other (set_status status) db.messages (λ r. refl) d,
)
