-- ===== src/Network/Node/Requests.antt =====
-- presidium-network/src/node.rs: every delivery that the application is told of is that of a message which it
-- sent, and no message is reported as delivered twice.
use presidium.Base.{
  ℕ, ◌+◌, ◌≤◌, ◌≡◌, refl, Bool, true, false, ◌&&◌, Option, none, some, List, [], ◌∷◌, ◌++◌, ◌==◌,
  bytes_eq, if◌then◌else◌, arith, Bool-cases, inl, inr,
}
use presidium.Crypto.Constants.{Bytes}
use presidium.Network.Messages.{NetworkEnvelope, NetworkResponse, Prost}
use presidium.Network.Node.{
  Control, dial, send_direct, publish, subscribe, unsubscribe, listen_addrs, shutdown, NodeEvent,
  direct_delivered, send_request, send_response, Action, command, emit, SwarmEvent, new_listen_addr,
  connection_established, connection_closed, mdns_discovered, mdns_expired, routing_updated, gossip,
  outbound_failure, ignored, request, response, NodeConfig, Pending, taken, removed, handle_control,
  handle_swarm_event, report_discovered, forget_expired, on_gossip, on_response,
}
use presidium.Network.Node.Loop.{Input, control, event, run_loop}

abbrev one_if : Bool → ℕ
one_if true = 1
one_if false = 0

-- Of the peer and the conversation.
abbrev is_for : ℕ → Bytes → ℕ → Bytes → Bool
is_for p c to conversation_id = to == p && bytes_eq conversation_id c

abbrev pub pending_for : ℕ → Bytes → Pending → ℕ
pending_for p c [] = 0
pending_for p c ((id, (to, conversation)) ∷ rest) =
    one_if (is_for p c to conversation) + pending_for p c rest

removed_pending :
    (p : ℕ) (c : Bytes) (id : ℕ) (pending : Pending)
    → pending_for p c (removed id pending) ≤ pending_for p c pending
removed_pending p c id [] = omega arith
removed_pending p c id ((k, v) ∷ rest) = ground (arith, removed_pending p c id rest)

module _ {Addr : Type 0} where
  abbrev delivered_by : ℕ → Bytes → Action Addr → ℕ
  delivered_by p c (emit (direct_delivered to conversation status)) =
      one_if (is_for p c to conversation)
  delivered_by p c _ = 0

  -- The deliveries to a peer in a conversation that the application is told of.
  abbrev pub delivered_to : ℕ → Bytes → List (Action Addr) → ℕ
  delivered_to p c [] = 0
  delivered_to p c (a ∷ rest) = delivered_by p c a + delivered_to p c rest

  -- What the application is told by the actions of a task.
  abbrev pub told : List (Action Addr) → List (NodeEvent Addr)
  told [] = []
  told (emit e ∷ rest) = e ∷ told rest
  told (command c ∷ rest) = told rest

  -- The requests of a task that reach the node `peer`, as the inputs of its task.
  abbrev pub arriving : (peer from channel : ℕ) → List (Action Addr) → List (Input Addr)
  arriving peer from channel [] = []
  arriving peer from channel (command (send_request to envelope) ∷ rest) =
      let later = arriving peer from channel rest in
      if to == peer then event (request from channel (some envelope)) ∷ later else later
  arriving peer from channel (a ∷ rest) = arriving peer from channel rest

  -- The responses of a task on a channel, as inputs of the task whose request with an id opened it.
  abbrev pub returning : (channel id : ℕ) → List (Action Addr) → List (Input Addr)
  returning channel id [] = []
  returning channel id (command (send_response on status) ∷ rest) =
      let later = returning channel id rest in
      if on == channel then event (response id status) ∷ later else later
  returning channel id (a ∷ rest) = returning channel id rest

  abbrev sent_by : ℕ → Bytes → Input Addr → ℕ
  sent_by p c (control (send_direct peer envelope) id) =
      one_if (is_for p c peer envelope.conversation_id)
  sent_by p c _ = 0

  -- The messages to a peer in a conversation that it sends.
  abbrev pub sent_to : ℕ → Bytes → List (Input Addr) → ℕ
  sent_to p c [] = 0
  sent_to p c (i ∷ rest) = sent_by p c i + sent_to p c rest

  delivered_to-append :
      (p : ℕ) (c : Bytes) (xs ys : List (Action Addr))
      → delivered_to p c (xs ++ ys) ≡ delivered_to p c xs + delivered_to p c ys
  delivered_to-append p c [] ys = omega arith
  delivered_to-append p c (x ∷ xs) ys = omega (arith, delivered_to-append p c xs ys)

response_pending :
    (Addr : Type 0) (p : ℕ) (c : Bytes) (id : ℕ) (status : NetworkResponse) (pending : Pending)
    → delivered_to p c (on_response {Addr = Addr} (taken id pending) status)
        + pending_for p c (removed id pending)
      ≤ pending_for p c pending
response_pending Addr p c id status [] = omega arith
response_pending Addr p c id status ((k, (to, conversation)) ∷ rest) = elim (Bool-cases (k == id)) [
  | inl e ↦ rw e (omega (arith, removed_pending p c id rest))
  | inr e ↦ rw e (omega (arith, response_pending Addr p c id status rest))
]

gossip_pending :
    (Addr : Type 0) (p : ℕ) (c : Bytes) (source : ℕ) (topic : Bytes)
    (decoded : Option NetworkEnvelope)
    → delivered_to p c (on_gossip {Addr = Addr} source topic decoded) ≡ 0
gossip_pending Addr p c source topic none = refl
gossip_pending Addr p c source topic (some envelope) = refl

module _ {Addr : Type 0} where
  no_deliveries_found :
      (p : ℕ) (c : Bytes) (auto_dial : Bool) (list : List (ℕ × Addr))
      → delivered_to p c (report_discovered auto_dial list) ≡ 0
  unfolding report_discovered
  no_deliveries_found p c auto_dial [] = refl
  no_deliveries_found p c true ((peer, address) ∷ rest) =
      omega (arith, no_deliveries_found p c true rest)
  no_deliveries_found p c false ((peer, address) ∷ rest) =
      omega (arith, no_deliveries_found p c false rest)

  no_deliveries_expired :
      (p : ℕ) (c : Bytes) (list : List (ℕ × Addr)) → delivered_to p c (forget_expired list) ≡ 0
  unfolding forget_expired
  no_deliveries_expired p c [] = refl
  no_deliveries_expired p c ((peer, address) ∷ rest) = omega (arith, no_deliveries_expired p c rest)

  module _ ⦃prost : Prost⦄ where
    control_pending :
        (p : ℕ) (c : Bytes) (message : Control Addr) (id : ℕ) (pending : Pending)
        → delivered_to p c (handle_control message id pending).1
            + pending_for p c (handle_control message id pending).0
          ≤ sent_by p c (control message id) + pending_for p c pending
    unfolding handle_control
    control_pending p c (dial addr) id pending = omega arith
    control_pending p c (send_direct peer envelope) id pending =
        omega (arith, removed_pending p c id pending)
    control_pending p c (publish topic envelope) id pending = omega arith
    control_pending p c (subscribe topic) id pending = omega arith
    control_pending p c (unsubscribe topic) id pending = omega arith
    control_pending p c listen_addrs id pending = omega arith
    control_pending p c shutdown id pending = omega arith

    event_pending :
        (p : ℕ) (c : Bytes) (config : NodeConfig Addr) (e : SwarmEvent Addr) (pending : Pending)
        → delivered_to p c (handle_swarm_event config e pending).1
            + pending_for p c (handle_swarm_event config e pending).0
          ≤ pending_for p c pending
    unfolding handle_swarm_event
    event_pending p c config (new_listen_addr address) pending = omega arith
    event_pending p c config (connection_established peer) pending = omega arith
    event_pending p c config (connection_closed peer) pending = omega arith
    event_pending p c config (mdns_discovered list) pending =
        ground (arith, no_deliveries_found p c config.auto_dial list)
    event_pending p c config (mdns_expired list) pending =
        ground (arith, no_deliveries_expired p c list)
    event_pending p c config (routing_updated peer address) pending = omega arith
    event_pending p c config (gossip source topic data_bytes) pending =
        omega (arith, gossip_pending Addr p c source topic (prost.decode data_bytes))
    event_pending p c config (request peer channel none) pending = omega arith
    event_pending p c config (request peer channel (some envelope)) pending = omega arith
    event_pending p c config (response id status) pending =
        response_pending Addr p c id status pending
    event_pending p c config (outbound_failure peer id error) pending =
        omega (arith, removed_pending p c id pending)
    event_pending p c config ignored pending = omega arith

    run_pending :
        (p : ℕ) (c : Bytes) (config : NodeConfig Addr) (inputs : List (Input Addr))
        (pending : Pending)
        → delivered_to p c (run_loop config inputs pending).1
            + pending_for p c (run_loop config inputs pending).0
          ≤ sent_to p c inputs + pending_for p c pending
    unfolding run_loop
    run_pending p c config [] pending = omega arith
    run_pending p c config (control shutdown id ∷ inputs) pending = omega arith
    run_pending p c config (control message id ∷ inputs) pending =
        let (pending', actions) = handle_control message id pending in
        omega (
          arith,
          control_pending p c message id pending,
          run_pending p c config inputs pending',
          delivered_to-append p c actions (run_loop config inputs pending').1,
        )
    run_pending p c config (event e ∷ inputs) pending =
        let (pending', actions) = handle_swarm_event config e pending in
        omega (
          arith,
          event_pending p c config e pending,
          run_pending p c config inputs pending',
          delivered_to-append p c actions (run_loop config inputs pending').1,
        )

    -- In every run of the node's task, to each peer and in each conversation: the deliveries that the
    -- application is told of and the requests still pending are together at most the messages that it sent.
    pub deliveries_sent :
        (p : ℕ) (c : Bytes) (config : NodeConfig Addr) (inputs : List (Input Addr))
        → delivered_to p c (run_loop config inputs []).1
            + pending_for p c (run_loop config inputs []).0
          ≤ sent_to p c inputs
    deliveries_sent p c config inputs = omega (arith, run_pending p c config inputs [])
