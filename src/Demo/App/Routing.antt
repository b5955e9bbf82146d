-- ===== src/Demo/App/Routing.antt =====
-- presidium-demo/src/main.rs: what a direct message and a delivery do to the node.
use presidium.Base.{
  ℕ, ◌≡◌, ◌≢◌, refl, ◌∙◌, ap, Bool, none, some, List, ◌∷◌, err, ◌==◌, if◌then◌else◌, arith,
}
use presidium.Storage.Models.{status_number}
use mathlib.Core.Option.{map as map_option}
use presidium.Crypto.Constants.{Bytes}
use presidium.Crypto.Primitives.{Primitives, Signatures, Kem, Json}
use presidium.Crypto.Ratchet.{RatchetMessageHeader}
use presidium.Crypto.Keys.{SessionKeys, SenderKeyMessage}
use presidium.Crypto.Identity.{IdentityPublicKey, HybridSignature, PreKeyBundle}
use presidium.Crypto.Pqxdh.{PqxdhPrekeyMessage}
use presidium.Network.Messages.{NetworkEnvelope, NetworkResponse}
use presidium.Network.Node.{direct_message, direct_delivered}
use presidium.Storage.SessionState.{RatchetSnapshot}
use presidium.Demo.Envelopes.{bail, Hash}
use presidium.Demo.Group.{GroupKeyDistribution}
use presidium.Demo.NodeStore
use presidium.Storage.Tables.{MessageRow}
use presidium.Storage.Sql.{integer_key, find}
use presidium.Storage.Store.Stored.{update_message_status_rows}
use presidium.Demo.App.{App, Fresh, Utf8}
use presidium.Demo.App.Direct.{first_peer, route, handle_direct, on_bundle_request}
use presidium.Demo.App.Events.{
  AppInput, node_event, handle_event, app_step, run_app, settle_outgoing, delivery_status,
}

status_number-delivery_status :
    (response : NetworkResponse)
    → status_number (delivery_status response) ≡ (if response.status == 1 then 2 else 4)
unfolding status_number
status_number-delivery_status response = ground arith

module _ {Addr : Type 0} ⦃p : Primitives⦄ ⦃s : Signatures⦄ ⦃k : Kem⦄ ⦃hash : Hash⦄ ⦃utf8 : Utf8⦄
    ⦃header_json : Json RatchetMessageHeader⦄ ⦃signature_json : Json HybridSignature⦄
    ⦃prekey_json : Json PqxdhPrekeyMessage⦄ ⦃bundle_json : Json PreKeyBundle⦄
    ⦃group_json : Json GroupKeyDistribution⦄ ⦃keys_json : Json (SessionKeys IdentityPublicKey)⦄
    ⦃ratchet_json : Json RatchetSnapshot⦄ ⦃message_json : Json SenderKeyMessage⦄ where
  -- A direct message whose payload begins with a zero byte, from any peer and with any signature, ends the
  -- loop of a node that is not a responder, whatever would come after; the node's session and database
  -- are left as they were.
  pub bundle_request_ends_initiator :
      (fresh : Fresh) (from : ℕ) (envelope : NetworkEnvelope) (body : Bytes) (app : App Addr)
      (started : Bool) (later : List (Fresh × AppInput Addr))
      → envelope.encrypted_payload ≡ 0 ∷ body
      → app.responder ≡ none
      → run_app ((fresh, node_event (direct_message from envelope)) ∷ later) (app, started) ≡ (
        (record app { peer = first_peer app.peer from }, started),
        err (bail "bundle request on initiator"),
      )
  unfolding run_app app_step handle_event handle_direct route on_bundle_request
  bundle_request_ends_initiator fresh from envelope body app started later zero_first no_responder =
      rw (zero_first, no_responder) refl

  -- A delivery report, for whichever peer and conversation it is, sets the status column of the message that was
  -- sent last, to 2 (delivered) if the status reported is 1 and else to 4 (failed), and changes nothing else
  -- of it and no other message; the report behind it changes nothing.
  pub delivery_settles_last_message :
      (fresh fresh' : Fresh) (to to' : ℕ) (conversation conversation' : Bytes)
      (response response' : NetworkResponse) (app : App Addr) (started : Bool) (row other : ℕ)
      → app.last_outgoing ≡ some row
      → other ≢ row
      → let reported : App Addr =
          (handle_event fresh (direct_delivered to conversation response) started app).0.0 in
        (find MessageRow.id row reported.db.messages
          ≡ map_option
              (λ (r : MessageRow). record r { status = if response.status == 1 then 2 else 4 })
              (find MessageRow.id row app.db.messages))
        × (find MessageRow.id other reported.db.messages ≡ find MessageRow.id other app.db.messages)
        × ((handle_event fresh' (direct_delivered to' conversation' response') started reported).0.0
            ≡ reported)
  unfolding handle_event settle_outgoing NodeStore.update_message_status
  delivery_settles_last_message fresh fresh' to to' conversation conversation' response response'
        app started row other sent d =
      let (changed, others) = update_message_status_rows row (delivery_status response) app.db in
      rw sent (
        changed
            ∙ ap
                (λ (n : ℕ).
                  map_option (λ (r : MessageRow). record r { status = n })
                    (find MessageRow.id row app.db.messages))
                (status_number-delivery_status response),
        others other d,
        refl,
      )
