-- ===== src/Network/Node.antt =====
-- presidium-network/src/node.rs: the task of a node, between its control channel, the swarm of libp2p and
-- the channel of its events. What the task tells the swarm and the application is the list of its
-- actions, in order; the swarm's answers, the ids of requests among them, are arguments.
pub mod Loop
pub mod Handle
pub mod Requests
mod Examples
use presidium.Base.{
  ℕ, ◌≡◌, Bool, true, false, not, Option, none, some, String, List, [], ◌∷◌, ◌++◌, Result, ok, err,
  ◌==◌, if◌then◌else◌,
}
use presidium.Crypto.Constants.{Bytes}
use presidium.Network.Topics.{NetworkError, not_running}
use presidium.Network.Messages.{NetworkEnvelope, NetworkResponse, status_ok, Prost}

pub data Control (Addr : Type 0) : Type 0 where
  dial : Addr → Control Addr
  send_direct : (peer : ℕ) (envelope : NetworkEnvelope) → Control Addr
  publish : (topic : Bytes) (envelope : NetworkEnvelope) → Control Addr
  subscribe : (topic : Bytes) → Control Addr
  unsubscribe : (topic : Bytes) → Control Addr
  listen_addrs : Control Addr
  shutdown : Control Addr

pub data NodeEvent (Addr : Type 0) : Type 0 where
  listen : Addr → NodeEvent Addr
  peer_connected : (peer : ℕ) → NodeEvent Addr
  peer_disconnected : (peer : ℕ) → NodeEvent Addr
  peer_discovered : (peer : ℕ) (address : Addr) → NodeEvent Addr
  direct_message : (from : ℕ) (envelope : NetworkEnvelope) → NodeEvent Addr
  direct_delivered : (to : ℕ) (conversation_id : Bytes) (status : NetworkResponse) → NodeEvent Addr
  direct_failed : (to : ℕ) (error : String) → NodeEvent Addr
  gossip_message : (from : ℕ) (topic : Bytes) (envelope : NetworkEnvelope) → NodeEvent Addr

-- What the task asks of the swarm.
pub data Command (Addr : Type 0) : Type 0 where
  listen_on : Addr → Command Addr
  swarm_dial : Addr → Command Addr
  add_address : (peer : ℕ) (address : Addr) → Command Addr
  remove_address : (peer : ℕ) (address : Addr) → Command Addr
  send_request : (peer : ℕ) (envelope : NetworkEnvelope) → Command Addr
  send_response : (channel : ℕ) (response : NetworkResponse) → Command Addr
  gossip_publish : (topic data_bytes : Bytes) → Command Addr
  gossip_subscribe : (topic : Bytes) → Command Addr
  gossip_unsubscribe : (topic : Bytes) → Command Addr
  reply_listeners : Command Addr

pub data Action (Addr : Type 0) : Type 0 where
  command : Command Addr → Action Addr
  emit : NodeEvent Addr → Action Addr

-- The events of the swarm that the task tells apart. A request comes with the channel for its response;
-- `ignored` stands for the events that it takes no notice of.
pub data SwarmEvent (Addr : Type 0) : Type 0 where
  new_listen_addr : Addr → SwarmEvent Addr
  connection_established : (peer : ℕ) → SwarmEvent Addr
  connection_closed : (peer : ℕ) → SwarmEvent Addr
  mdns_discovered : List (ℕ × Addr) → SwarmEvent Addr
  mdns_expired : List (ℕ × Addr) → SwarmEvent Addr
  routing_updated : (peer : ℕ) (first_address : Addr) → SwarmEvent Addr
  gossip : (source : ℕ) (topic data_bytes : Bytes) → SwarmEvent Addr
  request : (peer channel : ℕ) (envelope : Option NetworkEnvelope) → SwarmEvent Addr
  response : (request_id : ℕ) (response : NetworkResponse) → SwarmEvent Addr
  outbound_failure : (peer request_id : ℕ) (error : String) → SwarmEvent Addr
  ignored : SwarmEvent Addr

pub record NodeConfig (Addr : Type 0) : Type 0 where
  pub listen : List Addr
  pub bootstrap_peers : List Addr
  pub mdns_enabled : Bool
  pub auto_dial : Bool
  pub subscribe_topics : List Bytes

-- The outbound requests that wait for an answer: their ids, peers and conversation ids.
abbrev pub Pending : Type 0
Pending = List (ℕ × (ℕ × Bytes))

-- `HashMap::remove`: the entry that is taken out, and the others.
abbrev pub taken : ℕ → Pending → Option (ℕ × Bytes)
taken id [] = none
taken id ((k, v) ∷ rest) = let later = taken id rest in if k == id then some v else later

abbrev pub removed : ℕ → Pending → Pending
removed id [] = []
removed id ((k, v) ∷ rest) =
    let later = removed id rest in if k == id then later else (k, v) ∷ later

module _ {Addr : Type 0} where
  -- The arms of `run_loop` on a control message. `request_id` is what `send_request` returns.
  unfoldable pub handle_control :
      ⦃prost : Prost⦄ → Control Addr → ℕ → Pending → Pending × List (Action Addr)
  handle_control ⦃prost⦄ (dial addr) request_id pending = (pending, command (swarm_dial addr) ∷ [])
  handle_control ⦃prost⦄ (send_direct peer envelope) request_id pending = (
    (request_id, (peer, envelope.conversation_id)) ∷ removed request_id pending,
    command (send_request peer envelope) ∷ [],
  )
  handle_control ⦃prost⦄ (publish topic envelope) request_id pending =
      (pending, command (gossip_publish topic (prost.encode_to_vec envelope)) ∷ [])
  handle_control ⦃prost⦄ (subscribe topic) request_id pending =
      (pending, command (gossip_subscribe topic) ∷ [])
  handle_control ⦃prost⦄ (unsubscribe topic) request_id pending =
      (pending, command (gossip_unsubscribe topic) ∷ [])
  handle_control ⦃prost⦄ listen_addrs request_id pending = (pending, command reply_listeners ∷ [])
  handle_control ⦃prost⦄ shutdown request_id pending = (pending, [])

  -- The loop over the peers that mDNS found.
  unfoldable pub report_discovered : Bool → List (ℕ × Addr) → List (Action Addr)
  report_discovered auto_dial [] = []
  report_discovered auto_dial ((peer, address) ∷ rest) =
      let later = report_discovered auto_dial rest in
      command (add_address peer address)
      ∷ emit (peer_discovered peer address)
      ∷ (if auto_dial then command (swarm_dial address) ∷ later else later)

  unfoldable pub forget_expired : List (ℕ × Addr) → List (Action Addr)
  forget_expired [] = []
  forget_expired ((peer, address) ∷ rest) =
      command (remove_address peer address) ∷ forget_expired rest

  abbrev pub on_gossip : ℕ → Bytes → Option NetworkEnvelope → List (Action Addr)
  on_gossip source topic none = []
  on_gossip source topic (some envelope) = emit (gossip_message source topic envelope) ∷ []

  -- The response acknowledges the conversation of the request's envelope.
  abbrev pub on_request : ℕ → ℕ → Option NetworkEnvelope → List (Action Addr)
  on_request peer channel none = []
  on_request peer channel (some envelope) =
      command
        (send_response channel (record { status = status_ok; ack_id = envelope.conversation_id }))
      ∷ emit (direct_message peer envelope)
      ∷ []

  abbrev pub on_response : Option (ℕ × Bytes) → NetworkResponse → List (Action Addr)
  on_response none status = []
  on_response (some (to, conversation_id)) status =
      emit (direct_delivered to conversation_id status) ∷ []

  unfoldable pub handle_swarm_event :
      ⦃prost : Prost⦄ → NodeConfig Addr → SwarmEvent Addr → Pending → Pending × List (Action Addr)
  unfolding report_discovered forget_expired
  handle_swarm_event config (new_listen_addr address) pending =
      (pending, emit (NodeEvent.listen address) ∷ [])
  handle_swarm_event config (connection_established peer) pending =
      (pending, emit (peer_connected peer) ∷ [])
  handle_swarm_event config (connection_closed peer) pending =
      (pending, emit (peer_disconnected peer) ∷ [])
  handle_swarm_event config (mdns_discovered list) pending =
      (pending, if config.mdns_enabled then report_discovered config.auto_dial list else [])
  handle_swarm_event config (mdns_expired list) pending =
      (pending, if config.mdns_enabled then forget_expired list else [])
  handle_swarm_event config (routing_updated peer address) pending =
      (pending, emit (peer_discovered peer address) ∷ [])
  handle_swarm_event ⦃prost⦄ config (gossip source topic data_bytes) pending =
      (pending, on_gossip source topic (prost.decode data_bytes))
  handle_swarm_event config (request peer channel envelope) pending =
      (pending, on_request peer channel envelope)
  handle_swarm_event config (response request_id status) pending =
      (removed request_id pending, on_response (taken request_id pending) status)
  handle_swarm_event config (outbound_failure peer request_id error) pending =
      (removed request_id pending, emit (direct_failed peer error) ∷ [])
  handle_swarm_event config ignored pending = (pending, [])
