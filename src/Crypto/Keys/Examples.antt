-- ===== src/Crypto/Keys/Examples.antt =====
-- The theorems on keys.rs at concrete keys, and tests of the definitions.
use presidium.Base.{ℕ, ◌≡◌, ◌≢◌, refl, inr, true, false, some, none, ok, List, [], ◌∷◌, map, arith}
use presidium.Crypto.Constants.{Bytes}
use presidium.Crypto.Samples.{sample, sample_laws}
use presidium.Crypto.Ratchet.{DoubleRatchet}
use presidium.Crypto.Ratchet.Messages.{dh_ratchet}
use presidium.Crypto.Keys.{SessionKeys, SenderKeys, MediaKey, new_session, to_ratchet}
use presidium.Crypto.Keys.Sessions.{session_agreement}
use presidium.Crypto.Keys.Groups.{exchange, exchange_in_order}
use presidium.Crypto.Keys.Media.{nonces_injective}

abbrev keys : SessionKeys Bytes
keys = record {
  is_initiator = true;
  root_key = 1 ∷ [];
  sending_chain = 2 ∷ [];
  receiving_chain = 3 ∷ [];
  peer_identity = 4 ∷ [];
  message_count = 998;
}

session_agreement_example :
    (keys_a keys_b : SessionKeys Bytes) × (alice bob bob' : DoubleRatchet) × (new_session true
        (8 ∷ [])
        (2 ∷ [])
      ≡ ok keys_a)
    × (new_session false (8 ∷ []) (1 ∷ []) ≡ ok keys_b)
    × (keys_b ≡ record keys_a { is_initiator = false; peer_identity = 1 ∷ [] })
    × (to_ratchet keys_a (5 ∷ []) (some (9 ∷ [])) ≡ ok alice)
    × (to_ratchet keys_b (9 ∷ []) none ≡ ok bob)
    × (dh_ratchet bob (5 ∷ []) ≡ (bob', ok tt))
    × (bob'.root_key ≡ alice.root_key)
    × (bob'.receiving_chain.chain_key ≡ alice.sending_chain.chain_key)
    × (alice.sending_chain.chain_key ≢ none)
session_agreement_example =
    session_agreement sample_laws (8 ∷ []) (5 ∷ []) (9 ∷ []) (1 ∷ []) (2 ∷ [])

abbrev member : SenderKeys
member = record {
  chain_key = 6 ∷ [];
  group_id = 1 ∷ 2 ∷ [];
  sender_identity = record { public = 3 ∷ [] };
  message_index = 41;
  key_id = 7;
}

abbrev texts : List Bytes
texts = (10 ∷ []) ∷ (20 ∷ 21 ∷ []) ∷ []

exchange_in_order_example :
    (s' r' : SenderKeys) × (exchange member member [] texts ≡ ((s', r'), map ok texts))
    × (r'.chain_key ≡ s'.chain_key)
    × (r'.message_index ≡ s'.message_index)
    × (s'.message_index ≡ 43)
exchange_in_order_example =
    exchange_in_order sample_laws [] member member texts refl refl (omega arith) (omega arith)

abbrev media : MediaKey
media = record { key = 11 ∷ []; kind = 0 }

nonces_injective_example : ◌≡◌ {A = ℕ} 5 5
nonces_injective_example = nonces_injective 5 5 (omega arith) (omega arith) (inr (inr refl))
