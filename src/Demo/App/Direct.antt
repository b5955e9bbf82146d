-- ===== src/Demo/App/Direct.antt =====
-- presidium-demo/src/main.rs: `handle_direct`, the routing of a direct message by the first byte of its
-- payload.
use presidium.Base.{
  ℕ, Bool, false, Option, none, some, [], ◌∷◌, ◌++◌, ok, err, map_err, ◌==◌, if◌then◌else◌,
}
use presidium.Base.Words.{to_le}
use presidium.Crypto.Constants.{Bytes, ascii}
use presidium.Crypto.Primitives.{Primitives, Signatures, Kem, Json}
use presidium.Crypto.Ratchet.{RatchetMessageHeader}
use presidium.Crypto.Keys.{SessionKeys}
use presidium.Crypto.Identity.{IdentityPublicKey, HybridSignature, PreKeyBundle}
use presidium.Crypto.Pqxdh.{PqxdhPrekeyMessage}
use presidium.Network.Messages.{NetworkEnvelope}
use presidium.Storage.Models.{incoming}
use presidium.Storage.SessionState.{RatchetSnapshot}
use presidium.Demo.Envelopes.{serde, context, Hash, sync_envelope}
use presidium.Demo.Session.{ChatSession, chat_encrypt, chat_decrypt}
use presidium.Demo.Handshake.{to_bundle, send_prekey, on_prekey, establish, marker_prekey}
use presidium.Demo.Group.{GroupKeyDistribution, create_sender, apply_group_key}
use presidium.Demo.NodeStore.{upsert_conversation, insert_message, persist, resume}
use presidium.Demo.App.{
  App, Fresh, Utf8, from_utf8, Handler, ◌>>=◌, ◌>>◌, lift, get, modify, required, in_context,
  send_to,
}

abbrev pub marker_bundle_req : ℕ
marker_bundle_req = 0

abbrev pub marker_bundle : ℕ
marker_bundle = 1

abbrev pub marker_ratchet_pub : ℕ
marker_ratchet_pub = 3

abbrev pub marker_group_key : ℕ
marker_group_key = 4

-- `message_id_bytes`: the time and four random bytes.
unfoldable pub message_id_bytes : ℕ → Bytes → Bytes
message_id_bytes timestamp nonce = to_le 8 timestamp ++ nonce

-- The peer of a node that knows none yet.
abbrev pub first_peer : Option ℕ → ℕ → Option ℕ
first_peer none from = some from
first_peer (some peer) from = some peer

module _ {Addr : Type 0} ⦃p : Primitives⦄ ⦃s : Signatures⦄ ⦃k : Kem⦄ ⦃hash : Hash⦄ ⦃utf8 : Utf8⦄
    ⦃header_json : Json RatchetMessageHeader⦄ ⦃signature_json : Json HybridSignature⦄
    ⦃prekey_json : Json PqxdhPrekeyMessage⦄ ⦃bundle_json : Json PreKeyBundle⦄
    ⦃group_json : Json GroupKeyDistribution⦄ ⦃keys_json : Json (SessionKeys IdentityPublicKey)⦄
    ⦃ratchet_json : Json RatchetSnapshot⦄ where
  -- `session.persist(&app.store)?`.
  unfoldable pub persist_session : ℕ → ChatSession → Handler Addr (Unit {0})
  persist_session now session app = elim (persist now session app.db) [
    | err e ↦ (app, err e)
    | ok db ↦ (record app { db = db }, ok tt)
  ]

  -- `app.store.upsert_conversation(..)?`.
  unfoldable pub store_conversation : ℕ → Bytes → IdentityPublicKey → Bool → Handler Addr (Unit {0})
  store_conversation now id peer is_group app =
      elim (upsert_conversation now id peer is_group app.db) [
        | err e ↦ (app, err e)
        | ok db ↦ (record app { db = db }, ok tt)
      ]

  -- The arm of `MARKER_BUNDLE_REQ`.
  unfoldable pub on_bundle_request : Fresh → ℕ → Handler Addr (Unit {0})
  on_bundle_request fresh from = do
    app ← get
    responder ← required "bundle request on initiator" app.responder
    bundle ← lift (to_bundle responder.prekey responder.identity)
    body ← lift (map_err serde (bundle_json.to_vec bundle))
    reply ← lift (sync_envelope app.identity app.device_id fresh.now marker_bundle body)
    send_to from reply

  -- The arm of `MARKER_BUNDLE`.
  unfoldable pub on_bundle : Fresh → Bytes → Handler Addr (Unit {0})
  unfolding store_conversation
  on_bundle fresh body = do
    app ← get
    bundle ← lift (map_err (λ e. context "parse bundle" (serde e)) (bundle_json.from_slice body))
    initiator ← required "bundle on responder" app.initiator
    store_conversation fresh.now_millis app.device_id bundle.identity_key false
    let (initiator', message) = send_prekey initiator fresh.draws fresh.now bundle
    modify (λ a. record a { initiator = some initiator' })
    envelope ← lift message
    in_context "send prekey message" (send_to app.initiator_peer envelope)

  -- The arm of `MARKER_PREKEY`.
  unfoldable pub on_prekey_message : Fresh → ℕ → NetworkEnvelope → Bytes → Handler Addr (Unit {0})
  unfolding store_conversation persist_session
  on_prekey_message fresh from envelope body = do
    app ← get
    conversation_id ←
        lift (map_err (context "invalid sender device id") (from_utf8 envelope.sender_device_id))
    responder ← required "prekey on initiator" app.responder
    let (responder', answer) = on_prekey responder fresh.ratchet_key body conversation_id
    modify (λ a. record a { responder = some responder' })
    (ratchet_public, chat) ← lift answer
    peer_identity ← required "no peer identity after prekey" responder'.peer_identity
    store_conversation fresh.now_millis conversation_id peer_identity false
    persist_session fresh.now_millis chat
    modify (λ a. record a { session = some chat })
    reply ←
        lift (sync_envelope app.identity app.device_id fresh.now marker_ratchet_pub ratchet_public)
    send_to from reply

  -- The arm of `MARKER_GROUP_KEY`.
  unfoldable pub on_group_key : Bytes → Handler Addr (Unit {0})
  on_group_key body = do
    app ← get
    distribution ←
        lift (map_err (λ e. context "parse group key" (serde e)) (group_json.from_slice body))
    session ← required "no session for group key" app.session
    modify (λ a. record a { group = apply_group_key a.group distribution session.peer_identity })

  -- The resumption of a node without a session.
  unfoldable pub resume_if_needed : Bytes → Handler Addr (Unit {0})
  resume_if_needed conversation_id app = elim app.session [
    | some session ↦ (app, ok tt)
    | none ↦ elim (resume conversation_id app.db) [
      | err e ↦ (app, err e)
      | ok session ↦ (record app { session = session }, ok tt)
    ]
  ]

  -- `session.decrypt(&envelope)?` on the session of the node.
  unfoldable pub decrypt_chat : ChatSession → NetworkEnvelope → Handler Addr (ChatSession × Bytes)
  decrypt_chat session envelope app =
      let (session', opened) = chat_decrypt session envelope in
      let app' : App Addr = record app { session = some session' } in
      elim opened [ err e ↦ (app', err e) | ok plaintext ↦ (app', ok (session', plaintext)) ]

  -- `app.store.insert_message(..)?` of a message that came in.
  unfoldable pub store_incoming :
      Fresh → Bytes → NetworkEnvelope → IdentityPublicKey → Bytes → Handler Addr (Unit {0})
  unfolding message_id_bytes
  store_incoming fresh conversation_id envelope sender header app =
      elim (insert_message fresh.now_millis conversation_id
        (message_id_bytes envelope.timestamp fresh.message_nonce) sender envelope.encrypted_payload
        header incoming app.db) [
          | err e ↦ (app, err e)
          | ok (db, row) ↦ (record app { db = db }, ok tt)
        ]

  -- The last arm: a chat message.
  unfoldable pub on_chat : Fresh → NetworkEnvelope → Handler Addr (Unit {0})
  unfolding resume_if_needed store_conversation decrypt_chat persist_session store_incoming
  on_chat fresh envelope = do
    conversation_id ← lift (from_utf8 envelope.conversation_id)
    resume_if_needed conversation_id
    app ← get
    session ← required "no session established" app.session
    store_conversation fresh.now_millis conversation_id session.peer_identity false
    (session', plaintext) ← decrypt_chat session envelope
    persist_session fresh.now_millis session'
    header ← lift (from_utf8 envelope.nonce)
    store_incoming fresh conversation_id envelope session'.peer_identity header

  -- The key distribution and the greeting behind a handshake.
  unfoldable pub welcome : Fresh → ℕ → ChatSession → Handler Addr (Unit {0})
  unfolding persist_session
  welcome fresh from chat = do
    app ← get
    let (group, created) = create_sender app.group fresh.group_key app.identity
    modify (λ a. record a { group = group })
    distribution ← lift created
    body ← lift (map_err serde (group_json.to_vec distribution))
    reply ← lift (sync_envelope app.identity app.device_id fresh.now marker_group_key body)
    send_to from reply
    let (chat', greeting) =
        chat_encrypt chat app.identity app.device_id fresh.now
          (ascii "hello from " ++ app.device_id)
    modify (λ a. record a { session = some chat' })
    envelope ← lift greeting
    send_to from envelope
    λ a. ((persist_session fresh.now_millis chat' a).0, ok tt)

  -- The arm of `MARKER_RATCHET_PUB`.
  unfoldable pub on_ratchet_public : Fresh → ℕ → Bytes → Handler Addr (Unit {0})
  unfolding store_conversation persist_session welcome
  on_ratchet_public fresh from body = do
    app ← get
    initiator ← required "ratchet pub on responder" app.initiator
    let (initiator', established) = establish initiator fresh.ratchet_key body
    modify (λ a. record a { initiator = some initiator' })
    chat ← lift established
    peer_identity ← required "no peer identity after establish" initiator'.peer_identity
    store_conversation fresh.now_millis app.device_id peer_identity false
    persist_session fresh.now_millis chat
    modify (λ a. record a { session = some chat })
    welcome fresh from chat

  -- The match of `handle_direct` on the first byte of the payload.
  unfoldable pub route : Fresh → ℕ → NetworkEnvelope → Bytes → Handler Addr (Unit {0})
  unfolding on_bundle_request on_bundle on_prekey_message on_ratchet_public on_group_key on_chat
  route fresh from envelope [] = on_chat fresh envelope
  route fresh from envelope (marker ∷ body) =
      if marker == marker_bundle_req
      then on_bundle_request fresh from
      else if marker == marker_bundle
      then on_bundle fresh body
      else if marker == marker_prekey
      then on_prekey_message fresh from envelope body
      else if marker == marker_ratchet_pub
      then on_ratchet_public fresh from body
      else if marker == marker_group_key
      then on_group_key body
      else on_chat fresh envelope

  unfoldable pub handle_direct : Fresh → ℕ → NetworkEnvelope → Handler Addr (Unit {0})
  unfolding route
  handle_direct fresh from envelope app =
      route fresh from envelope envelope.encrypted_payload
        (record app { peer = first_peer app.peer from })
