-- ===== src/Storage/SessionState/Examples.antt =====
-- The theorems on session_state.rs at a concrete ratchet and at a bad snapshot.
use presidium.Base.{◌≡◌, ◌⊎◌, ok, err, some, none, [], ◌∷◌}
use presidium.Crypto.Ratchet.{DoubleRatchet}
use presidium.Storage.SessionState.{
  RatchetSnapshot, ChainSnapshot, HasNoKey, no_chain_key, from_ratchet, to_ratchet,
  to_ratchet_cases,
}

abbrev ratchet : DoubleRatchet
ratchet = record {
  root_key = record { key = 1 ∷ [] };
  sending_chain = record {
    our_ratchet_key = some (2 ∷ []);
    their_ratchet_public = some (3 ∷ []);
    chain_key = some (record { key = 4 ∷ []; index = 12 });
    skipped_message_keys = [];
  };
  receiving_chain = record {
    our_ratchet_key = none;
    their_ratchet_public = some (3 ∷ []);
    chain_key = none;
    skipped_message_keys = (5, 6 ∷ []) ∷ [];
  };
  session_id = "s";
  associated_data = 7 ∷ [];
}

abbrev broken : ChainSnapshot
broken = record {
  our_ratchet_key = none;
  their_ratchet_public = none;
  chain_key = none;
  chain_index = 3;
  skipped_message_keys = [];
}

abbrev snapshot : RatchetSnapshot
snapshot = record { root_key = 1 ∷ []; sending_chain = broken; receiving_chain = broken }

to_ratchet_cases_example :
    ((rebuilt : DoubleRatchet) × (to_ratchet snapshot "s" [] ≡ ok rebuilt)
      × (from_ratchet rebuilt ≡ snapshot)
      × (rebuilt.session_id ≡ "s")
      × (rebuilt.associated_data ≡ []))
    ⊎ ((HasNoKey broken ⊎ HasNoKey broken) × (to_ratchet snapshot "s" [] ≡ err no_chain_key))
to_ratchet_cases_example = to_ratchet_cases snapshot "s" []
