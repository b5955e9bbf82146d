-- ===== src/Storage/Examples.antt =====
-- The theorems on store.rs, database.rs and the parameters of sqleet at small tables.
use presidium.Base.{
  ℕ, ◌-◌, ◌<◌, ◌≡◌, ◌⊎◌, refl, true, false, none, some, ok, err, List, [], ◌∷◌, ◌++◌, ◌||◌,
  if◌then◌else◌, map, replicate, arith, Result,
}
use presidium.Crypto.Constants.{Bytes}
use presidium.Storage.Error.{database, nul_text, unique_constraint, foreign_key_constraint}
use presidium.Storage.Models.{
  PreKeyKind, one_time, signed, PreKeyRecord, ConversationRecord, MessageRecord, incoming,
  delivered, read, direction_of, status_of,
}
use presidium.Storage.SessionState.{SessionState}
use presidium.Storage.Tables.{Database, empty_database, MessageRow, message_from_row}
use presidium.Storage.Samples.{
  keys_json, ratchet_json, keys_json-JsonLaws, ratchet_json-JsonLaws, keys_json-TextLaws,
  ratchet_json-TextLaws,
}
use presidium.Storage.Sql.{integer_key, bytes_key, pair_key, exists, has_key}
use presidium.Storage.Sql.Keyed.{IsKeyed}
use presidium.Storage.Store.{list_prekeys, count_prekeys}
use presidium.Storage.Store.Sessions.{save_session, load_session}
use presidium.Storage.Store.Messages.{
  message_uid, insert_message, list_messages, load_message_by_uid,
}
use presidium.Storage.Store.Prekeys.{take_times, take_one_time_prekey-list_prekeys}
use presidium.Storage.Store.Pages.{list_messages_pages}
use presidium.Storage.Store.Stored.{
  HasConversation, load_session-save_session, insert_message_branches,
}
use presidium.Storage.Operations.{Operation, run}
use presidium.Storage.Operations.Invariant.{IsWellFormed}
use presidium.Storage.Operations.Reachable.{run-IsWellFormed}
use presidium.Storage.Migrations.{
  Batch, begin, commit, script, set_user_version, Engine, EngineLaws, run_migrations, migrate_from,
  max, run_migrations_again,
}
use presidium.Storage.Sqleet.{SqlError, Param, Columns, has_nul, nul_in_text, bind_all}
use presidium.Storage.Texts.{any_nul, param_texts, bind_all_branches}

abbrev prekey : ℕ → PreKeyKind → PreKeyRecord
prekey id kind = record {
  key_id = id;
  kind = kind;
  classical = 1 ∷ [];
  pq = 2 ∷ [];
  public_classical = 3 ∷ [];
  public_pq = 4 ∷ [];
  signature = [];
  created_at = 1700;
}

abbrev conversation : ConversationRecord
conversation = record {
  id = 97 ∷ [];
  peer_classical = 5 ∷ [];
  peer_pq = 6 ∷ [];
  is_group = false;
  created_at = 1700;
}

abbrev message : ℕ → MessageRecord
message n = record {
  id = 0;
  conversation_id = 97 ∷ [];
  message_id = n ∷ [];
  sender_classical = 5 ∷ [];
  ciphertext = 7 ∷ [];
  header = 123 ∷ 125 ∷ [];
  content_type = 0;
  direction = incoming;
  status = delivered;
  created_at = 1700;
}

-- Two one-time prekeys and a signed one, a conversation and two messages, and statements that fail.
abbrev operations : List Operation
operations =
    Operation.save_prekey (prekey 9 one_time)
    ∷ Operation.save_prekey (prekey 1 signed)
    ∷ Operation.save_prekey (prekey 4 one_time)
    ∷ Operation.insert_message (message 1)
    ∷ Operation.upsert_conversation conversation
    ∷ Operation.insert_message (message 1)
    ∷ Operation.insert_message (message 1)
    ∷ Operation.insert_message (message 2)
    ∷ Operation.update_message_status 1 read
    ∷ Operation.take_one_time_prekey
    ∷ []

abbrev filled : Database
filled = run operations empty_database

filled-IsWellFormed : IsWellFormed filled
filled-IsWellFormed = run-IsWellFormed operations

run-IsWellFormed_example : IsWellFormed (run operations empty_database)
run-IsWellFormed_example = run-IsWellFormed operations

take_one_time_prekey-list_prekeys_example :
    ((take_times 3 filled).1
      ≡ map some (list_prekeys one_time 3 filled)
        ++ replicate (3 - count_prekeys one_time filled) none)
    × (count_prekeys one_time (take_times 3 filled).0 ≡ count_prekeys one_time filled - 3)
take_one_time_prekey-list_prekeys_example =
    take_one_time_prekey-list_prekeys 3 filled filled-IsWellFormed.0

abbrev state : SessionState
state = record {
  is_initiator = true;
  session_keys = record {
    is_initiator = true;
    root_key = 66 ∷ [];
    sending_chain = 1 ∷ [];
    receiving_chain = 2 ∷ [];
    peer_identity = record { classical = 5 ∷ []; pq = 6 ∷ [] };
    message_count = 3;
  };
  ratchet = none;
  last_used = 1700;
}

load_session-save_session_example :
    (HasConversation (97 ∷ []) filled
      × (has_nul (97 ∷ []) ≡ false)
      × ((db' : Database) × (save_session (97 ∷ []) state filled ≡ ok db')
          × (load_session (97 ∷ []) db' ≡ ok (some state))
          × (load_session (98 ∷ []) db' ≡ load_session (98 ∷ []) filled)))
    ⊎ ((has_nul (97 ∷ []) ≡ true) × (save_session (97 ∷ []) state filled ≡ err (database nul_text)))
    ⊎ ((exists (has_key ConversationRecord.id (97 ∷ [])) filled.conversations ≡ false)
        × (save_session (97 ∷ []) state filled ≡ err (database foreign_key_constraint)))
load_session-save_session_example =
    load_session-save_session keys_json-JsonLaws ratchet_json-JsonLaws keys_json-TextLaws
      ratchet_json-TextLaws (97 ∷ []) (98 ∷ []) state filled (λ e. ground (arith, e))

insert_message_branches_example :
    (((has_nul (97 ∷ []) || has_nul (123 ∷ 125 ∷ [])) ≡ true)
      × (insert_message (message 3) filled ≡ err (database nul_text)))
    ⊎ ((exists (has_key message_uid (97 ∷ [], 3 ∷ [])) filled.messages ≡ true)
        × (insert_message (message 3) filled ≡ err (database unique_constraint)))
    ⊎ ((exists (has_key ConversationRecord.id (97 ∷ [])) filled.conversations ≡ false)
        × (insert_message (message 3) filled ≡ err (database foreign_key_constraint)))
    ⊎ ((db' : Database) × (id : ℕ) × (insert_message (message 3) filled ≡ ok (db', id))
        × (filled.last_message_id < id)
        × (load_message_by_uid (97 ∷ []) (3 ∷ []) db' ≡ ok (some (record (message 3) { id = id })))
        × (insert_message (message 3) db' ≡ err (database unique_constraint)))
insert_message_branches_example = insert_message_branches (message 3) filled

-- A table with two messages.
abbrev row : ℕ → MessageRow
row n = record {
  id = n;
  conversation_id = 97 ∷ [];
  message_id = n ∷ [];
  sender_classical = 5 ∷ [];
  ciphertext = 7 ∷ [];
  header = 123 ∷ 125 ∷ [];
  content_type = 0;
  direction = 0;
  status = 2;
  created_at = 1700;
}

abbrev two_messages : Database
two_messages = record empty_database { messages = row 1 ∷ row 2 ∷ []; last_message_id = 2 }

two_messages-IsKeyed : IsKeyed MessageRow.id two_messages.messages
unfolding IsKeyed
two_messages-IsKeyed = (refl, (refl, tt))

list_messages_pages_example :
    (rest : List MessageRecord) × (list_messages (97 ∷ []) (some 2) 1 two_messages ≡ ok rest)
    × (list_messages (97 ∷ []) none 2 two_messages ≡ ok (record (message 2) { id = 2 } ∷ rest))
unfolding list_messages message_from_row direction_of status_of
list_messages_pages_example =
    list_messages_pages (97 ∷ []) none 1 1 two_messages [] (record (message 2) { id = 2 })
      two_messages-IsKeyed refl

-- An engine whose database is its version, and the batches that it has run.
abbrev run_batch : Batch → ℕ × List Batch → (ℕ × List Batch) × Result SqlError (Unit {0})
run_batch (set_user_version n) db = ((n, set_user_version n ∷ db.1), ok tt)
run_batch batch db = ((db.0, batch ∷ db.1), ok tt)

instance abbrev engine : Engine (ℕ × List Batch)
engine = record { execute_batch = run_batch; user_version = λ db. db.0 }

engine-EngineLaws : EngineLaws engine
engine-EngineLaws = record {
  version_set = λ n db db' e. ground (arith, e);
  version_kept = λ db db' e. ground (arith, e);
}

abbrev migrations : List Bytes
migrations = (67 ∷ []) ∷ (68 ∷ []) ∷ []

abbrev migrated : ℕ × List Batch
migrated = (2, commit ∷ set_user_version 2 ∷ script (68 ∷ []) ∷ begin ∷ [])

run_migrations_again_example :
    (2 ≡ max 1 2) × (run_migrations migrations migrated ≡ (migrated, ok tt))
unfolding run_migrations migrate_from
run_migrations_again_example =
    run_migrations_again engine-EngineLaws migrations (1, []) migrated refl

-- A column that is the parameter stored in it.
instance abbrev columns : Columns Param
columns = record {
  stored = λ p. p;
  is_null = λ p. false;
  column_int64 = λ p. 0;
  column_blob = λ p. none;
}

bind_all_branches_example : bind_all (Param.i64 7 ∷ Param.text (97 ∷ 0 ∷ 98 ∷ []) ∷ []) ≡ (
    if any_nul (param_texts (Param.i64 7 ∷ Param.text (97 ∷ 0 ∷ 98 ∷ []) ∷ []))
    then err nul_in_text
    else ok (Param.i64 7 ∷ Param.text (97 ∷ 0 ∷ 98 ∷ []) ∷ []))
bind_all_branches_example = bind_all_branches (Param.i64 7 ∷ Param.text (97 ∷ 0 ∷ 98 ∷ []) ∷ [])
