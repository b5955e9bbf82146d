-- ===== src/Storage/Store/Sessions.antt =====
-- presidium-storage/src/store.rs: the sessions of conversations, stored as JSON.
use presidium.Base.{[], ◌∷◌, Option, none, some, ok, err, ◌>>=◌, map_err, if◌then◌else◌}
use presidium.Crypto.Constants.{Bytes}
use presidium.Crypto.Primitives.{Json}
use presidium.Crypto.Keys.{SessionKeys}
use presidium.Crypto.Identity.{IdentityPublicKey}
use presidium.Storage.Error.{StorageResult, database, foreign_key_constraint, serialization}
use presidium.Storage.Models.{ConversationRecord}
use presidium.Storage.SessionState.{RatchetSnapshot, SessionState}
use presidium.Storage.Texts.{bound, optional_text}
use presidium.Storage.Tables.{SessionRow, Database}
use presidium.Storage.Sql.{bytes_key, delete, exists, has_key, find, upsert}

abbrev pub merge_session : SessionRow → SessionRow → SessionRow
merge_session old new = record old {
  is_initiator = new.is_initiator;
  session_keys = new.session_keys;
  ratchet_state = new.ratchet_state;
  last_used = new.last_used;
}

-- The insertion of a session; its conversation has to exist.
unfoldable pub insert_session : SessionRow → Database → StorageResult Database
insert_session row db =
    bound (row.conversation_id ∷ row.session_keys ∷ optional_text row.ratchet_state) (
      if exists (has_key ConversationRecord.id row.conversation_id) db.conversations
      then ok
          (record db { sessions = upsert SessionRow.conversation_id merge_session row db.sessions })
      else err (database foreign_key_constraint))

unfoldable pub delete_session : Bytes → Database → StorageResult Database
delete_session conversation_id db = bound (conversation_id ∷ []) (
    ok (record db {
      sessions = delete (has_key SessionRow.conversation_id conversation_id) db.sessions;
    }))

module _ ⦃keys_json : Json (SessionKeys IdentityPublicKey)⦄
    ⦃ratchet_json : Json RatchetSnapshot⦄ where
  -- `.as_ref().map(serde_json::to_string).transpose()`.
  unfoldable pub ratchet_text : Option RatchetSnapshot → StorageResult (Option Bytes)
  ratchet_text none = ok none
  ratchet_text (some snapshot) = do
    text ← map_err serialization (ratchet_json.to_vec snapshot)
    ok (some text)

  unfoldable pub save_session : Bytes → SessionState → Database → StorageResult Database
  save_session conversation_id state db = do
    session_keys ← map_err serialization (keys_json.to_vec state.session_keys)
    ratchet_state ← ratchet_text state.ratchet
    insert_session
        (record {
          conversation_id = conversation_id;
          is_initiator = state.is_initiator;
          session_keys = session_keys;
          ratchet_state = ratchet_state;
          last_used = state.last_used;
        })
        db

  -- `.as_deref().map(serde_json::from_str).transpose()`.
  unfoldable pub ratchet_of_text : Option Bytes → StorageResult (Option RatchetSnapshot)
  ratchet_of_text none = ok none
  ratchet_of_text (some text) = do
    snapshot ← map_err serialization (ratchet_json.from_slice text)
    ok (some snapshot)

  -- The closure of `load_session` on a row.
  unfoldable pub session_of_row : Option SessionRow → StorageResult (Option SessionState)
  session_of_row none = ok none
  session_of_row (some row) = do
    session_keys ← map_err serialization (keys_json.from_slice row.session_keys)
    ratchet ← ratchet_of_text row.ratchet_state
    ok (
        some (record {
          is_initiator = row.is_initiator;
          session_keys = session_keys;
          ratchet = ratchet;
          last_used = row.last_used;
        }))

  unfoldable pub load_session : Bytes → Database → StorageResult (Option SessionState)
  load_session conversation_id db =
      bound (conversation_id ∷ [])
        (session_of_row (find SessionRow.conversation_id conversation_id db.sessions))
