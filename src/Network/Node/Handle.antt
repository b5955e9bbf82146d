-- ===== src/Network/Node/Handle.antt =====
-- presidium-network/src/node.rs: the methods of `P2pNode`, which put control messages on the channel of the
-- node's task. The channel is closed when the task has ended.
use presidium.Base.{ℕ, Bool, true, false, List, [], ◌∷◌, ◌++◌, Result, ok, err}
use presidium.Crypto.Constants.{Bytes}
use presidium.Network.Topics.{NetworkError, not_running}
use presidium.Network.Messages.{NetworkEnvelope}
use presidium.Network.Node.{Control}
use presidium.Network.Node

abbrev pub Sent : Type 0
Sent = Result NetworkError (Unit {0})

pub record Channel (Addr : Type 0) : Type 0 where
  pub closed : Bool
  pub messages : List (Control Addr)

module _ {Addr : Type 0} where
  unfoldable pub send : Control Addr → Channel Addr → Channel Addr × Sent
  send message channel = elim channel.closed [
    | true ↦ (channel, err not_running)
    | false ↦ (record channel { messages = channel.messages ++ message ∷ [] }, ok tt)
  ]

  unfoldable pub dial : Addr → Channel Addr → Channel Addr × Sent
  unfolding send
  dial addr = send (Node.dial addr)

  unfoldable pub send_direct : ℕ → NetworkEnvelope → Channel Addr → Channel Addr × Sent
  unfolding send
  send_direct peer envelope = send (Node.send_direct peer envelope)

  unfoldable pub publish : Bytes → NetworkEnvelope → Channel Addr → Channel Addr × Sent
  unfolding send
  publish topic envelope = send (Node.publish topic envelope)

  unfoldable pub subscribe : Bytes → Channel Addr → Channel Addr × Sent
  unfolding send
  subscribe topic = send (Node.subscribe topic)

  unfoldable pub unsubscribe : Bytes → Channel Addr → Channel Addr × Sent
  unfolding send
  unsubscribe topic = send (Node.unsubscribe topic)
