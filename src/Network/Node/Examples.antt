-- ===== src/Network/Node/Examples.antt =====
-- The theorems on node.rs at a short run of the task and at one message.
use presidium.Base.{ℕ, ◌+◌, ◌≤◌, true, none, List, [], ◌∷◌}
use presidium.Network.Messages.{NetworkEnvelope, NetworkResponse, Prost}
use presidium.Network.Node.{send_direct, Action, response, NodeConfig, Pending}
use presidium.Network.Node.Loop.{Input, control, event, run_loop}
use presidium.Network.Node.Requests.{
  arriving, returning, pending_for, delivered_to, sent_to, deliveries_sent,
}

abbrev envelope : NetworkEnvelope
envelope = record {
  kind = 1;
  conversation_id = 97 ∷ [];
  sender_device_id = 1 ∷ [];
  timestamp = 1700;
  encrypted_payload = 7 ∷ 8 ∷ [];
  mac = [];
  protocol_version = 1;
  nonce = [];
  signature = [];
}

instance abbrev prost : Prost
prost = record { encode_to_vec = λ e. e.conversation_id; decode = λ bytes. none }

-- Addresses are numbers.
abbrev config : NodeConfig ℕ
config = record {
  listen = [];
  bootstrap_peers = [];
  mdns_enabled = true;
  auto_dial = true;
  subscribe_topics = [];
}

abbrev acknowledgement : NetworkResponse
acknowledgement = record { status = 1; ack_id = 97 ∷ [] }

-- Two messages, and three responses of which the last is one too many.
abbrev inputs : List (Input ℕ)
inputs =
    control (send_direct 5 envelope) 1
    ∷ control (send_direct 5 envelope) 2
    ∷ event (response 2 acknowledgement)
    ∷ event (response 1 acknowledgement)
    ∷ event (response 1 acknowledgement)
    ∷ []

deliveries_sent_example :
    delivered_to 5 (97 ∷ []) (run_loop config inputs []).1
      + pending_for 5 (97 ∷ []) (run_loop config inputs []).0
    ≤ sent_to 5 (97 ∷ []) inputs
deliveries_sent_example = deliveries_sent 5 (97 ∷ []) config inputs

abbrev sent : Pending × List (Action ℕ)
sent = run_loop config (control (send_direct 5 envelope) 1 ∷ []) []

abbrev received : Pending × List (Action ℕ)
received = run_loop config (arriving 5 4 3 sent.1) []

abbrev acknowledged : Pending × List (Action ℕ)
acknowledged = run_loop config (returning 3 1 received.1) sent.0
