-- ===== src/Crypto/Ratchet/Examples.antt =====
-- The theorems on ratchet.rs at concrete sessions, and tests of the definitions.
use presidium.Base.{ℕ, zero, suc, ◌+◌, ◌≡◌, refl, some, none, ok, List, [], ◌∷◌, map, get_or, arith}
use presidium.Crypto.Constants.{Bytes}
use presidium.Crypto.Samples.{sample, sample_laws}
use presidium.Crypto.Samples.Texts.{header_json, header_json_laws}
use presidium.Crypto.Ratchet.{RatchetMessageHeader, DoubleRatchet, RootKey, init, init_as_responder}
use presidium.Crypto.Ratchet.Messages.{decrypt, dh_ratchet}
use presidium.Crypto.Ratchet.Order.{Delivery, send_all, receive_all}
use presidium.Crypto.Ratchet.Exchange.{pick}
use presidium.Base.{length, ◌≤◌, replicate, length-replicate}
use presidium.Crypto.Ratchet.{find_skipped, ratchet_step}
use presidium.Crypto.Ratchet.Messages.{with_receiving, open_message, header_of}
use presidium.Crypto.Ratchet.Stream.{chain_at, message_key_at}
use presidium.Crypto.Ratchet.Delivery.{encrypt_lem}
use presidium.Crypto.Ratchet.Handshake.{initiator, init_lem}
use presidium.Crypto.Ratchet.Rotation.{initiates, here, then, decrypts, ratchets, ratchet_key_fixed}
use presidium.Crypto.Ratchet.Limits.{
  stored, flood, decrypt_bounded, flood_grows, decrypt_behind, decrypt_consumes, stored_key_shadows,
}
use presidium.Crypto.Ratchet.Session.{initiator_to_responder, responder_to_initiator}

abbrev root : RootKey
root = record { key = 66 ∷ [] }

abbrev hello : List Bytes
hello = (72 ∷ 101 ∷ []) ∷ (108 ∷ []) ∷ (108 ∷ 111 ∷ []) ∷ []

initiator_to_responder_example :
    (alice bob bob' : DoubleRatchet) × (sent : List Delivery) × (init "s" root (5 ∷ []) (9 ∷ []) []
      ≡ ok alice)
    × (init_as_responder "s" root (9 ∷ []) [] ≡ ok bob)
    × (dh_ratchet bob (5 ∷ []) ≡ (bob', ok tt))
    × (bob'.root_key ≡ alice.root_key)
    × (send_all alice hello ≡ ok sent)
    × (receive_all bob' (pick sent (2 ∷ 0 ∷ 1 ∷ []))
        ≡ map (λ i. ok (get_or hello i [])) (2 ∷ 0 ∷ 1 ∷ []))
initiator_to_responder_example =
    initiator_to_responder sample_laws header_json_laws root (5 ∷ []) (9 ∷ []) "s" "s" [] [] hello
      (2 ∷ 0 ∷ 1 ∷ []) (omega arith) (omega arith) (omega arith) (omega arith)

responder_to_initiator_example :
    (alice alice' bob bob' : DoubleRatchet) × (sent : List Delivery) × (init "s" root
        (5 ∷ [])
        (9 ∷ [])
        []
      ≡ ok alice)
    × (init_as_responder "s" root (9 ∷ []) [] ≡ ok bob)
    × (dh_ratchet bob (5 ∷ []) ≡ (bob', ok tt))
    × (dh_ratchet alice (9 ∷ []) ≡ (alice', ok tt))
    × (send_all bob' hello ≡ ok sent)
    × (receive_all alice' (pick sent (1 ∷ 0 ∷ [])) ≡ map (λ i. ok (get_or hello i [])) (1 ∷ 0 ∷ []))
responder_to_initiator_example =
    responder_to_initiator sample_laws header_json_laws root (5 ∷ []) (9 ∷ []) "s" "s" [] [] hello
      (1 ∷ 0 ∷ []) (omega arith) (omega arith) (omega arith) (omega arith)

abbrev start : Bytes
start = 7 ∷ []

-- A session whose two chains start at one key, with stored keys.
abbrev at : List (ℕ × Bytes) → DoubleRatchet
at skipped = record {
  root_key = root;
  sending_chain = record {
    our_ratchet_key = some (5 ∷ []);
    their_ratchet_public = some (9 ∷ []);
    chain_key = some (chain_at sample_laws start 0);
    skipped_message_keys = [];
  };
  receiving_chain = record {
    our_ratchet_key = none;
    their_ratchet_public = some (9 ∷ []);
    chain_key = some (chain_at sample_laws start 0);
    skipped_message_keys = skipped;
  };
  session_id = "s";
  associated_data = [];
}

abbrev message : ℕ → RatchetMessageHeader
message n = record { dh_public_key = 9 ∷ []; message_number = n; previous_message_number = 0 }

ratchet_key_fixed_example :
    (header_of
      (dh_ratchet (initiator sample_laws "s" root (5 ∷ []) (9 ∷ []) []) (9 ∷ [])).0
      0).dh_public_key
    ≡ 5 ∷ []
unfolding ratchet_step
ratchet_key_fixed_example =
    ratchet_key_fixed (5 ∷ []) alice alice' _ (72 ∷ []) _ (header_of alice' 0)
      (initiates "s" root (9 ∷ []) [] (init_lem sample_laws "s" root (5 ∷ []) (9 ∷ []) []))
      (then here (ratchets alice (9 ∷ [])))
      (encrypt_lem sample_laws header_json_laws alice' _ 0 (72 ∷ []) kept (omega arith)
        (omega arith))
  where
    alice : DoubleRatchet
    alice = initiator sample_laws "s" root (5 ∷ []) (9 ∷ []) []

    alice' : DoubleRatchet
    alice' = (dh_ratchet alice (9 ∷ [])).0

    kept : alice'.sending_chain.chain_key ≡ alice.sending_chain.chain_key
    kept = unfold dh_ratchet in refl

decrypt_bounded_example : length (stored (decrypt (at []) (1 ∷ []) (message 5)).0) ≤ 1001
decrypt_bounded_example =
    decrypt_bounded (at []) 1000 (1 ∷ []) (message 5) (omega arith) (omega arith)

-- The key is used, and the chain replaced.
stored_key_shadows_example :
    decrypt
      (dh_ratchet (decrypt (at ((3, 4 ∷ []) ∷ [])) (1 ∷ []) (message 3)).0 (8 ∷ [])).0
      (1 ∷ [])
      (message 3)
    ≡ (
      (dh_ratchet (decrypt (at ((3, 4 ∷ []) ∷ [])) (1 ∷ []) (message 3)).0 (8 ∷ [])).0,
      open_message (4 ∷ []) (message 3) (1 ∷ []),
    )
unfolding find_skipped
stored_key_shadows_example =
    stored_key_shadows (at ((3, 4 ∷ []) ∷ []))
      (dh_ratchet (decrypt (at ((3, 4 ∷ []) ∷ [])) (1 ∷ []) (message 3)).0 (8 ∷ [])).0 (1 ∷ [])
      (4 ∷ []) (message 3) refl
      (then (then here (decrypts (at ((3, 4 ∷ []) ∷ [])) (1 ∷ []) (message 3)))
        (ratchets (decrypt (at ((3, 4 ∷ []) ∷ [])) (1 ∷ []) (message 3)).0 (8 ∷ [])))

decrypt_behind_example : decrypt (at []) (1 ∷ []) (message 0) ≡ (
  with_receiving (at []) (chain_at sample_laws start 1) [],
  open_message (message_key_at sample_laws start 0) (message 0) (1 ∷ []),
)
unfolding find_skipped
decrypt_behind_example =
    decrypt_behind sample_laws (at []) start 0 (message 0) (1 ∷ []) refl refl (omega arith)
      (omega arith)

decrypt_consumes_example :
    (decrypt (decrypt (at []) (1 ∷ []) (message 0)).0 (2 ∷ []) (message 0)).1
    ≡ open_message (message_key_at sample_laws start 1) (message 0) (2 ∷ [])
unfolding find_skipped
decrypt_consumes_example =
    decrypt_consumes sample_laws (at []) start (message 0) (message 0) (1 ∷ []) (2 ∷ []) refl refl
      refl (omega arith)

find_skipped-replicate : (n : ℕ) → find_skipped 8 (replicate n (7, start)) ≡ none
unfolding find_skipped
find_skipped-replicate zero = refl
find_skipped-replicate (suc n) = find_skipped-replicate n

abbrev full : DoubleRatchet
full = at (replicate 1000 (7, start))

flood_grows_example :
    length (stored (flood sample_laws 3 full (1 ∷ []) (message 8))) ≡ length (stored full) + 3
flood_grows_example =
    flood_grows sample_laws 3 0 full start (message 8) (1 ∷ []) refl (find_skipped-replicate 1000)
      (omega arith) (omega (arith, length-replicate {A = ℕ × Bytes} 1000 (7, start)))
