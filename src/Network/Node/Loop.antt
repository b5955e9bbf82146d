-- ===== src/Network/Node/Loop.antt =====
-- presidium-network/src/node.rs: `run_loop`, from its start to the control message that ends it.
use presidium.Base.{ℕ, Option, none, some, List, [], ◌∷◌, ◌++◌, ok, err}
use presidium.Crypto.Constants.{Bytes}
use presidium.Network.Discovery.{Multiaddrs, parse_bootstrap_peer}
use presidium.Network.Messages.{Prost}
use presidium.Network.Node.{
  Control, shutdown, SwarmEvent, listen_on, swarm_dial, add_address, gossip_subscribe, Action,
  command, NodeConfig, Pending, handle_control, handle_swarm_event,
}

-- What `tokio::select!` takes next: a control message, with the id that the swarm gives to a request it
-- may send, or an event of the swarm.
pub data Input (Addr : Type 0) : Type 0 where
  control : Control Addr → (request_id : ℕ) → Input Addr
  event : SwarmEvent Addr → Input Addr

module _ {Addr : Type 0} where
  abbrev pub listen_all : List Addr → List (Action Addr)
  listen_all [] = []
  listen_all (addr ∷ rest) = command (listen_on addr) ∷ listen_all rest

  -- `any_address` is "/ip4/0.0.0.0/tcp/0".
  abbrev pub listen_addresses : Addr → List Addr → List Addr
  listen_addresses any_address [] = any_address ∷ []
  listen_addresses any_address (addr ∷ rest) = addr ∷ rest

  abbrev pub subscribe_all : List Bytes → List (Action Addr)
  subscribe_all [] = []
  subscribe_all (topic ∷ rest) = command (gossip_subscribe topic) ∷ subscribe_all rest

  abbrev pub known_peer : Option ℕ → Addr → List (Action Addr)
  known_peer none address = []
  known_peer (some peer) address = command (add_address peer address) ∷ []

  module _ ⦃m : Multiaddrs Addr⦄ where
    -- The loop over the bootstrap addresses; one that is not valid is skipped.
    unfoldable pub bootstrap : List Addr → List (Action Addr)
    bootstrap [] = []
    bootstrap (addr ∷ rest) =
        let later = bootstrap rest in
        elim (parse_bootstrap_peer addr) [
          | err e ↦ later
          | ok peer ↦ known_peer peer.peer peer.address ++ command (swarm_dial peer.address) ∷ later
        ]

    -- `run_loop` up to its loop.
    unfoldable pub start_up : Addr → NodeConfig Addr → List (Action Addr)
    unfolding bootstrap
    start_up any_address config =
        listen_all (listen_addresses any_address config.listen)
        ++ (subscribe_all config.subscribe_topics ++ bootstrap config.bootstrap_peers)

  -- The loop of `run_loop`: the requests that are pending after the inputs, and the actions.
  unfoldable pub run_loop :
      ⦃prost : Prost⦄ → NodeConfig Addr → List (Input Addr) → Pending → Pending × List (Action Addr)
  run_loop config [] pending = (pending, [])
  run_loop config (control shutdown id ∷ inputs) pending = (pending, [])
  run_loop config (control c id ∷ inputs) pending =
      let (pending', actions) = handle_control c id pending in
      let (pending'', later) = run_loop config inputs pending' in (pending'', actions ++ later)
  run_loop config (event e ∷ inputs) pending =
      let (pending', actions) = handle_swarm_event config e pending in
      let (pending'', later) = run_loop config inputs pending' in (pending'', actions ++ later)
