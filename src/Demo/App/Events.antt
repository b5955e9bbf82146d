-- ===== src/Demo/App/Events.antt =====
-- presidium-demo/src/main.rs: `handle_event`, `handle_command` and the loop of the demo node. A step that
-- fails ends the loop.
use presidium.Base.{
  ℕ, Bool, true, false, not, Option, none, some, List, [], ◌∷◌, ok, err, ◌==◌, bytes_eq, take, drop,
  length, if◌then◌else◌,
}
use presidium.Crypto.Constants.{Bytes, ascii}
use presidium.Crypto.Primitives.{Primitives, Signatures, Kem, Json}
use presidium.Crypto.Ratchet.{RatchetMessageHeader}
use presidium.Crypto.Keys.{SessionKeys, SenderKeyMessage}
use presidium.Crypto.Identity.{IdentityPublicKey, HybridSignature, PreKeyBundle, public}
use presidium.Crypto.Pqxdh.{PqxdhPrekeyMessage}
use presidium.Network.Messages.{NetworkEnvelope, NetworkResponse}
use presidium.Network.Node.{
  NodeEvent, peer_connected, peer_disconnected, peer_discovered, direct_message, direct_delivered,
  direct_failed, gossip_message,
}
use presidium.Storage.Models.{MessageStatus, delivered, failed, outgoing}
use presidium.Storage.SessionState.{RatchetSnapshot}
use presidium.Demo.Envelopes.{AnyResult, Hash, sync_envelope}
use presidium.Demo.Session.{ChatSession, chat_encrypt}
use presidium.Demo.Handshake.{InitiatorHandshake}
use presidium.Demo.Group.{GroupKeyDistribution, group_decrypt, publish}
use presidium.Demo.NodeStore.{insert_message, update_message_status}
use presidium.Demo.App.{
  App, Fresh, Utf8, from_utf8, Handler, ◌>>=◌, ◌>>◌, lift, get, modify, in_context, send_to,
  publish_to,
}
use presidium.Demo.App.Direct.{
  marker_bundle_req, first_peer, message_id_bytes, handle_direct, persist_session,
  store_conversation, store_incoming,
}

-- What the loop takes next: a line of the terminal, trimmed, or an event of the node.
pub data AppInput (Addr : Type 0) : Type 0 where
  next_line : Bytes → AppInput Addr
  node_event : NodeEvent Addr → AppInput Addr

-- `app.last_outgoing.take()` and the update of its row.
unfoldable pub settle_outgoing : {Addr : Type 0} → MessageStatus → App Addr → App Addr
settle_outgoing status app = elim app.last_outgoing [
  | none ↦ app
  | some row ↦ record app { db = update_message_status row status app.db; last_outgoing = none }
]

abbrev pub delivery_status : NetworkResponse → MessageStatus
delivery_status response = if response.status == 1 then delivered else failed

-- `line.strip_prefix(..)`.
abbrev pub strip_prefix : Bytes → Bytes → Option Bytes
strip_prefix prefix line =
    if bytes_eq (take (length prefix) line) prefix then some (drop (length prefix) line) else none

abbrev pub is_quit : Bytes → Bool
is_quit line =
    if bytes_eq line (ascii "q")
    then true
    else if bytes_eq line (ascii "@quit")
    then true
    else bytes_eq line (ascii "exit")

abbrev pub is_report : Bytes → Bool
is_report line = if bytes_eq line (ascii "@info") then true else bytes_eq line (ascii "@history")

-- The test that starts a handshake: an initiator without a session that has not started one.
abbrev pub starts_handshake : Option InitiatorHandshake → Option ChatSession → Bool → Bool
starts_handshake (some initiator) none started = not started
starts_handshake (some initiator) (some session) started = false
starts_handshake none session started = false

module _ {Addr : Type 0} ⦃p : Primitives⦄ ⦃s : Signatures⦄ ⦃k : Kem⦄ ⦃hash : Hash⦄ ⦃utf8 : Utf8⦄
    ⦃header_json : Json RatchetMessageHeader⦄ ⦃signature_json : Json HybridSignature⦄
    ⦃prekey_json : Json PqxdhPrekeyMessage⦄ ⦃bundle_json : Json PreKeyBundle⦄
    ⦃group_json : Json GroupKeyDistribution⦄ ⦃keys_json : Json (SessionKeys IdentityPublicKey)⦄
    ⦃ratchet_json : Json RatchetSnapshot⦄ ⦃message_json : Json SenderKeyMessage⦄ where
  -- `initiator.request_bundle(&app.node).await?`.
  unfoldable pub request_bundle : Fresh → InitiatorHandshake → Handler Addr (Unit {0})
  request_bundle fresh initiator = do
    app ← get
    envelope ←
        lift (sync_envelope initiator.identity initiator.device_id fresh.now marker_bundle_req [])
    in_context "send bundle request" (send_to app.initiator_peer envelope)

  abbrev pub request_if : Fresh → Option InitiatorHandshake → Handler Addr (Unit {0})
  request_if fresh none app = (app, ok tt)
  request_if fresh (some initiator) app = request_bundle fresh initiator app

  -- The arm of `GossipMessage`. A message that the group does not decrypt is only reported.
  unfoldable pub on_gossip_message : Fresh → NetworkEnvelope → Handler Addr (Unit {0})
  unfolding store_conversation store_incoming
  on_gossip_message fresh envelope app =
      let (group, opened) = group_decrypt app.group envelope in
      let app' : App Addr = record app { group = group } in
      let sender : IdentityPublicKey = elim app.session [
        | none ↦ public app.identity
        | some session ↦ session.peer_identity
      ] in
      elim opened [
        | err e ↦ (app', ok tt)
        | ok plaintext ↦
            (do
              store_conversation fresh.now_millis group.conversation_id sender true
              header ← lift (from_utf8 envelope.nonce)
              store_incoming fresh group.conversation_id envelope sender header)
              app'
      ]

  -- `handle_event`, with `handshake_started`.
  unfoldable pub handle_event :
      Fresh → NodeEvent Addr → Bool → App Addr → (App Addr × Bool) × AnyResult Bool
  unfolding request_bundle on_gossip_message settle_outgoing handle_direct
  handle_event fresh (NodeEvent.listen address) started app = ((app, started), ok true)
  handle_event fresh (peer_connected peer) started app =
      let app' : App Addr = record app { peer = first_peer app.peer peer } in
      if starts_handshake app.initiator app.session started
      then (let (app'', r) = request_if fresh app.initiator app' in
          ((app'', true), elim r [ err e ↦ err e | ok _ ↦ ok true ]))
      else ((app', started), ok true)
  handle_event fresh (peer_discovered peer address) started app = ((app, started), ok true)
  handle_event fresh (direct_message from envelope) started app =
      let (app', r) = handle_direct fresh from envelope app in
      ((app', started), elim r [ err e ↦ err e | ok _ ↦ ok true ])
  handle_event fresh (gossip_message from topic envelope) started app =
      let (app', r) = on_gossip_message fresh envelope app in
      ((app', started), elim r [ err e ↦ err e | ok _ ↦ ok true ])
  handle_event fresh (direct_delivered to conversation_id response) started app =
      ((settle_outgoing (delivery_status response) app, started), ok true)
  handle_event fresh (direct_failed to error) started app =
      ((settle_outgoing failed app, started), ok true)
  handle_event fresh (peer_disconnected peer) started app = ((app, started), ok true)

  -- The end of `handle_command`: a line for the peer.
  unfoldable pub send_line : Fresh → Bytes → ChatSession → ℕ → Handler Addr Bool
  unfolding persist_session message_id_bytes
  send_line fresh line session peer = do
    app ← get
    let (session', sealed) = chat_encrypt session app.identity app.device_id fresh.now line
    modify (λ a. record a { session = some session' })
    envelope ← lift sealed
    header ← lift (from_utf8 envelope.nonce)
    (db, row) ← lift (
        insert_message fresh.now_millis session'.conversation_id
          (message_id_bytes envelope.timestamp fresh.message_nonce) (public app.identity)
          envelope.encrypted_payload header outgoing app.db)
    modify (λ a. record a { db = db; last_outgoing = some row })
    send_to peer envelope
    λ a. ((persist_session fresh.now_millis session' a).0, ok true)

  -- `@group`: nothing is sent before the group has its sender keys.
  unfoldable pub send_group : Fresh → Bytes → Handler Addr Bool
  send_group fresh text app = elim app.group.sender [
    | none ↦ (app, ok true)
    | some keys ↦
        let (group, sealed) = publish app.group app.identity app.device_id fresh.now text in
        (do envelope ← lift sealed; publish_to app.group_topic envelope; lift (ok true))
          (record app { group = group })
  ]

  unfoldable pub handle_command : Fresh → Bytes → Handler Addr Bool
  unfolding send_line send_group
  handle_command fresh line app =
      if is_quit line
      then (app, ok false)
      else if is_report line
      then (app, ok true)
      else elim (strip_prefix (ascii "@group ") line) [
        | some text ↦ send_group fresh text app
        | none ↦ elim app.session [
          | none ↦ (app, ok true)
          | some session ↦ elim app.peer [
            | none ↦ (app, ok true)
            | some peer ↦ send_line fresh line session peer app
          ]
        ]
      ]

  -- A step of `run_loop`: false ends the loop, and so does an error.
  unfoldable pub app_step :
      Fresh → AppInput Addr → App Addr × Bool → (App Addr × Bool) × AnyResult Bool
  unfolding handle_command handle_event
  app_step fresh (next_line []) (app, started) = ((app, started), ok true)
  app_step fresh (next_line (b ∷ text)) (app, started) =
      let (app', r) = handle_command fresh (b ∷ text) app in ((app', started), r)
  app_step fresh (node_event e) (app, started) = handle_event fresh e started app

  -- `run_loop` on the inputs of its life; the result is that of the loop if they end it.
  unfoldable pub run_app :
      List (Fresh × AppInput Addr) → App Addr × Bool → (App Addr × Bool) × AnyResult Bool
  unfolding app_step
  run_app [] state = (state, ok true)
  run_app ((fresh, input) ∷ inputs) state =
      let (state', r) = app_step fresh input state in
      let later = run_app inputs state' in
      elim r [ err e ↦ (state', err e) | ok false ↦ (state', ok false) | ok true ↦ later ]
