-- ===== src/Demo/App/Examples.antt =====
-- The theorems on main.rs and store.rs of the demo at a small node.
use presidium.Base.{
  arith, ℕ, ◌≡◌, refl, true, false, some, none, ok, err, [], ◌∷◌, replicate, if◌then◌else◌, ◌==◌,
}
use mathlib.Core.Option.{map as map_option}
use presidium.Crypto.Constants.{Bytes}
use presidium.Crypto.Samples.{sample, sum}
use presidium.Crypto.Samples.Schemes.{sample_signatures, sample_kem}
use presidium.Crypto.Samples.Texts.{header_json, signature_json, message_json}
use presidium.Crypto.Samples.Prekeys.{prekey_json}
use presidium.Crypto.Primitives.{Json}
use presidium.Crypto.Ratchet.{DoubleRatchet}
use presidium.Crypto.Identity.{
  IdentityKeyPair, PreKeyBundle, public, generate_identity, verify_hybrid,
}
use presidium.Network.Messages.{NetworkEnvelope, NetworkResponse}
use presidium.Network.Topics.{Hex}
use presidium.Network.Node.{direct_message, direct_delivered}
use presidium.Storage.Samples.{
  keys_json, ratchet_json, keys_json-JsonLaws, ratchet_json-JsonLaws, keys_json-TextLaws,
  ratchet_json-TextLaws,
}
use presidium.Storage.Sql.{integer_key, find}
use presidium.Storage.Store.{save_identity, load_identity}
use presidium.Storage.Tables.{Database, empty_database, MessageRow}
use presidium.Demo.Envelopes.{Hash, bail, kind_direct, verify_envelope, parse_header, signed_bytes}
use presidium.Crypto.Ratchet.{find_skipped, message_nonce}
use presidium.Crypto.Ratchet.Messages.{decrypt, open_message}
use presidium.Demo.Session.{open_payload, advance_ratchet}
use presidium.Demo.Session.{ChatSession, chat_decrypt}
use presidium.Demo.Group.{GroupKeyDistribution, new_group}
use presidium.Demo.NodeStore.{IdentityDraws, load_or_create_identity, persist, resume}
use presidium.Demo.NodeStore.Restart.{load_or_create_identity_again, resume-persist}
use presidium.Demo.App.{App, Fresh, Utf8}
use presidium.Demo.App.Direct.{message_id_bytes, on_chat}
use presidium.Demo.App.Events.{node_event, handle_event, run_app}
use presidium.Demo.App.Routing.{bundle_request_ends_initiator, delivery_settles_last_message}
use presidium.Demo.App.Persisted.{on_chat_persists}

instance abbrev hash : Hash
hash = record { sha256 = λ bytes. sum bytes ∷ [] }

instance abbrev utf8 : Utf8
utf8 = record { is_utf8 = λ bytes. true }

instance abbrev hex : Hex
hex = record { hex_encode = λ bytes. bytes }

-- Bundles and group keys are not read in these examples.
instance abbrev bundle_json : Json PreKeyBundle
bundle_json = record { to_vec = λ bundle. err "no bundle"; from_slice = λ bytes. err "no bundle" }

instance abbrev group_json : Json GroupKeyDistribution
group_json = record { to_vec = λ keys. err "no keys"; from_slice = λ bytes. err "no keys" }

abbrev draws : IdentityDraws
draws = record {
  classical_seed = replicate 32 7;
  pq_seed = replicate 32 8;
  device_bytes = 1 ∷ 2 ∷ [];
  now = 1700;
}

abbrev identity : IdentityKeyPair
identity = record { classical = replicate 32 7; pq = record { key = replicate 32 8 } }

load_or_create_identity_again_example :
    load_or_create_identity
      (record draws { device_bytes = 9 ∷ [] })
      (load_or_create_identity draws empty_database).0
    ≡ ((load_or_create_identity draws empty_database).0, ok (identity, 1 ∷ 2 ∷ []))
unfolding load_or_create_identity load_identity save_identity generate_identity
load_or_create_identity_again_example =
    load_or_create_identity_again draws (record draws { device_bytes = 9 ∷ [] }) empty_database
      identity (1 ∷ 2 ∷ []) (refl, refl) refl

-- A session that has stored the key of the message with number 1.
abbrev ratchet : Bytes → DoubleRatchet
ratchet key = record {
  root_key = record { key = 66 ∷ [] };
  sending_chain = record {
    our_ratchet_key = some (5 ∷ []);
    their_ratchet_public = some (9 ∷ []);
    chain_key = none;
    skipped_message_keys = [];
  };
  receiving_chain = record {
    our_ratchet_key = none;
    their_ratchet_public = some (9 ∷ []);
    chain_key = some (record { key = 4 ∷ []; index = 2 });
    skipped_message_keys = (1, key) ∷ [];
  };
  session_id = "presidium-session";
  associated_data = [];
}

abbrev session : ChatSession
session = record {
  conversation_id = 97 ∷ [];
  peer_identity = public identity;
  is_initiator = true;
  ratchet = ratchet (replicate 32 3);
  session_keys = record {
    is_initiator = true;
    root_key = 66 ∷ [];
    sending_chain = [];
    receiving_chain = [];
    peer_identity = public identity;
    message_count = 0;
  };
}

abbrev message : ℕ → MessageRow
message id = record {
  id = id;
  conversation_id = 97 ∷ [];
  message_id = id ∷ [];
  sender_classical = replicate 32 7;
  ciphertext = 7 ∷ [];
  header = 123 ∷ 125 ∷ [];
  content_type = 0;
  direction = 1;
  status = 1;
  created_at = 1700;
}

-- A conversation and the messages with the row ids 1 and 2, which were sent.
abbrev with_conversation : Database
with_conversation = record empty_database {
  conversations =
      record {
        id = 97 ∷ [];
        peer_classical = replicate 32 7;
        peer_pq = replicate 32 8;
        is_group = false;
        created_at = 1700;
      }
      ∷ [];
  messages = message 1 ∷ message 2 ∷ [];
  last_message_id = 2;
}

resume-persist_example :
    (db' : Database) × (persist 1700 session with_conversation ≡ ok db')
    × (resume (97 ∷ []) db' ≡ ok (some session))
unfolding public
resume-persist_example =
    resume-persist keys_json-JsonLaws ratchet_json-JsonLaws keys_json-TextLaws ratchet_json-TextLaws
      1700 session with_conversation (refl, refl, refl, refl) refl

abbrev fresh : Fresh
fresh = record {
  now = 1700;
  now_millis = 1700000;
  draws = record { classical_secret = []; pq_seed = none; leg = λ n. [] };
  ratchet_key = [];
  group_key = [];
  message_nonce = 1 ∷ 2 ∷ 3 ∷ 4 ∷ [];
}

abbrev app : App ℕ
app = record {
  db = with_conversation;
  identity = identity;
  device_id = 1 ∷ [];
  node = record { closed = false; messages = [] };
  initiator_peer = 5;
  initiator = none;
  responder = none;
  session = some session;
  group = new_group;
  group_topic = [];
  peer = none;
  last_outgoing = some 1;
}

abbrev envelope : Bytes → Bytes → NetworkEnvelope
envelope payload signature = record {
  kind = kind_direct;
  conversation_id = 97 ∷ [];
  sender_device_id = 1 ∷ [];
  timestamp = 1700;
  encrypted_payload = payload;
  mac = [];
  protocol_version = 1;
  nonce = 1 ∷ 1 ∷ 9 ∷ [];
  signature = signature;
}

bundle_request_ends_initiator_example :
    run_app ((fresh, node_event (direct_message 6 (envelope (0 ∷ 1 ∷ []) []))) ∷ []) (app, false)
    ≡ ((record app { peer = some 6 }, false), err (bail "bundle request on initiator"))
bundle_request_ends_initiator_example =
    bundle_request_ends_initiator fresh 6 (envelope (0 ∷ 1 ∷ []) []) (1 ∷ []) app false [] refl refl

abbrev report : NetworkResponse
report = record { status = 1; ack_id = [] }

abbrev reported : App ℕ
reported = (handle_event fresh (direct_delivered 6 (98 ∷ []) report) false app).0.0

delivery_settles_last_message_example :
    (find MessageRow.id 1 reported.db.messages
      ≡ map_option
          (λ (r : MessageRow). record r { status = if report.status == 1 then 2 else 4 })
          (find MessageRow.id 1 app.db.messages))
    × (find MessageRow.id 2 reported.db.messages ≡ find MessageRow.id 2 app.db.messages)
    × ((handle_event fresh (direct_delivered 5 (97 ∷ []) report) false reported).0.0 ≡ reported)
delivery_settles_last_message_example =
    delivery_settles_last_message fresh fresh 6 5 (98 ∷ []) (97 ∷ []) report report app false 1 2
      refl (λ e. ground (arith, e))

-- The payload is two bytes behind the tag that the stored key gives; the signature is the identity's.
abbrev chat : NetworkEnvelope
chat = envelope (114 ∷ 104 ∷ 105 ∷ []) (1 ∷ 238 ∷ replicate 4627 78)

on_chat_persists_example :
    (app' : App ℕ) × (on_chat fresh chat app ≡ (app', ok tt))
    × (app'.session ≡ some session)
    × (resume (97 ∷ []) app'.db ≡ ok (some session))
unfolding chat_decrypt verify_envelope verify_hybrid parse_header public signed_bytes open_payload
    advance_ratchet decrypt find_skipped open_message message_nonce message_id_bytes
on_chat_persists_example =
    on_chat_persists keys_json-JsonLaws ratchet_json-JsonLaws keys_json-TextLaws
      ratchet_json-TextLaws fresh chat session session (104 ∷ 105 ∷ []) app refl refl refl refl
      (refl, refl, refl, refl) refl refl refl
