-- ===== src/Demo/App.antt =====
-- presidium-demo/src/main.rs: the state of the demo node, and the steps of its event loop, which change the
-- state and may fail with an error. What is printed is left out.
pub mod Direct
pub mod Events
pub mod Routing
pub mod Persisted
mod Examples
use presidium.Base.{
  ℕ, ◌≡◌, refl, Bool, true, false, Option, none, some, String, List, [], ◌∷◌, ◌++◌, Result, ok, err,
  map_err,
}
use presidium.Crypto.Constants.{Bytes}
use presidium.Crypto.Identity.{IdentityKeyPair}
use presidium.Network.Messages.{NetworkEnvelope}
use presidium.Network.Topics.{NetworkError}
use presidium.Network.Node.Handle.{Channel, Sent}
use presidium.Network.Node.Handle
use presidium.Storage.Tables.{Database}
use presidium.Demo.Envelopes.{AnyError, AnyResult, bail, context}
use presidium.Demo.Session.{ChatSession}
use presidium.Demo.Handshake.{InitiatorHandshake, ResponderHandshake, Draws}
use presidium.Demo.Group.{GroupChat}

-- The store is its database, the identity and the device id. The topic of the group and the peer of the
-- initiator's driver are fields here.
pub record App (Addr : Type 0) : Type 0 where
  pub db : Database
  pub identity : IdentityKeyPair
  pub device_id : Bytes
  pub node : Channel Addr
  pub initiator_peer : ℕ
  pub initiator : Option InitiatorHandshake
  pub responder : Option ResponderHandshake
  pub session : Option ChatSession
  pub group : GroupChat
  pub group_topic : Bytes
  pub peer : Option ℕ
  pub last_outgoing : Option ℕ

-- The clock and the random bytes that a step may use: the time in seconds and in milliseconds, the keys
-- of a handshake, the chain key of the group and the four random bytes of a message id.
pub record Fresh : Type 0 where
  pub now : ℕ
  pub now_millis : ℕ
  pub draws : Draws
  pub ratchet_key : Bytes
  pub group_key : Bytes
  pub message_nonce : Bytes

-- `String::from_utf8`.
pub record Utf8 : Type 0 where
  pub is_utf8 : Bytes → Bool

abbrev pub from_utf8 : ⦃utf8 : Utf8⦄ → Bytes → AnyResult Bytes
from_utf8 ⦃utf8⦄ bytes = elim (utf8.is_utf8 bytes) [
  | true ↦ ok bytes
  | false ↦ err (bail "invalid utf-8 sequence")
]

abbrev pub Handler : Type 0 → Type 0 → Type 0
Handler Addr A = App Addr → App Addr × AnyResult A

-- The `?` operator behind a call that changes the state: an error ends the step, and what was changed
-- stays.
infixl 5 ◌>>=◌ ◌>>◌
abbrev pub ◌>>=◌ : {Addr A B : Type 0} → Handler Addr A → (A → Handler Addr B) → Handler Addr B
(m >>= f) app = let (app', r) = m app in elim r [ err e ↦ (app', err e) | ok a ↦ f a app' ]

abbrev pub ◌>>◌ : {Addr A B : Type 0} → Handler Addr A → Handler Addr B → Handler Addr B
(m >> n) app = let (app', r) = m app in elim r [ err e ↦ (app', err e) | ok a ↦ n app' ]

abbrev pub lift : {Addr A : Type 0} → AnyResult A → Handler Addr A
lift r app = (app, r)

abbrev pub get : {Addr : Type 0} → Handler Addr (App Addr)
get app = (app, ok app)

abbrev pub modify : {Addr : Type 0} → (App Addr → App Addr) → Handler Addr (Unit {0})
modify f app = (f app, ok tt)

-- A value that may be missing, with the message of `context`.
abbrev pub required : {Addr A : Type 0} → String → Option A → Handler Addr A
required text none app = (app, err (bail text))
required text (some a) app = (app, ok a)

-- `.context(..)?` behind a call that changes the state.
abbrev pub in_context : {Addr A : Type 0} → String → Handler Addr A → Handler Addr A
in_context text m app = let (app', r) = m app in (app', map_err (context text) r)

abbrev network_result : Sent → AnyResult (Unit {0})
network_result (err e) = err (bail "node is not running")
network_result (ok u) = ok u

module _ {Addr : Type 0} where
  -- `app.node.send_direct(peer, envelope).await?`.
  unfoldable pub send_to : ℕ → NetworkEnvelope → Handler Addr (Unit {0})
  send_to peer envelope app =
      let (node, sent) = Handle.send_direct peer envelope app.node in
      (record app { node = node }, network_result sent)

  -- `self.node.publish(topic, envelope).await?` of the group.
  unfoldable pub publish_to : Bytes → NetworkEnvelope → Handler Addr (Unit {0})
  publish_to topic envelope app =
      let (node, sent) = Handle.publish topic envelope app.node in
      (record app { node = node }, network_result sent)
