-- ===== src/Crypto/Ratchet/Session.antt =====
-- ratchet.rs: a session from both sides, in both directions.
use presidium.Base.{
  ℕ, suc, ◌≤◌, ◌<◌, ◌≡◌, refl, ap, ◌∙◌, some, ok, String, List, [], map, length, get_or, All,
}
use presidium.Crypto.Constants.{Bytes, max_skip_messages}
use presidium.Crypto.Primitives.{Primitives, PrimitiveLaws, Json, JsonLaws, aead_limit}
use presidium.Crypto.Ratchet.{RootKey, RatchetMessageHeader, DoubleRatchet, init, init_as_responder}
use presidium.Crypto.Ratchet.Messages.{with_sending, dh_ratchet}
use presidium.Crypto.Ratchet.Stream.{chain_at}
use presidium.Crypto.Ratchet.Order.{Delivery, send_all, receive_all}
use presidium.Crypto.Ratchet.Exchange.{pick, NoRepeat, send_all-receive_all}
use presidium.Crypto.Ratchet.Handshake.{
  responder, initiator, init_as_responder_lem, init_lem, dh_ratchet_receiving, ensure_sending_lem,
  send_all-ensure_sending, root_after, chain_after,
}

-- The responder after `dh_ratchet` with the initiator's public key.
module _ ⦃p : Primitives⦄ (laws : PrimitiveLaws p) where
  abbrev pub answered : String → RootKey → Bytes → Bytes → Bytes → DoubleRatchet
  answered sid root a b ad =
      let dh = p.diffie_hellman b (p.x25519_public a) in
      let r = responder sid root b ad in
      record r {
        root_key = root_after laws root dh;
        sending_chain = record r.sending_chain { their_ratchet_public = some (p.x25519_public a) };
        receiving_chain = record r.receiving_chain {
          chain_key = some (chain_at laws (chain_after laws root dh) 0);
        };
      }

module _ ⦃p : Primitives⦄ ⦃json : Json RatchetMessageHeader⦄ (laws : PrimitiveLaws p)
    (json_laws : JsonLaws json) (root : RootKey) (a b : Bytes) (sid sid' : String) (ad ad' : Bytes)
    (plaintexts : List Bytes) (order : List ℕ) (fits : All (λ x. length x ≤ aead_limit) plaintexts)
    (few : length plaintexts ≤ suc max_skip_messages)
    (below : All (λ i. i < length plaintexts) order) (once : NoRepeat order) where
  -- Two sides with the same root key: the responder takes the initiator's ratchet key from the
  -- first header, and then any selection of the initiator's first 1001 messages, in any order and
  -- none twice, is decrypted to its plaintexts.
  pub initiator_to_responder :
      (alice bob bob' : DoubleRatchet) × (sent : List Delivery) × (init sid root a
          (p.x25519_public b)
          ad
        ≡ ok alice)
      × (init_as_responder sid' root b ad' ≡ ok bob)
      × (dh_ratchet bob (p.x25519_public a) ≡ (bob', ok tt))
      × (bob'.root_key ≡ alice.root_key)
      × (send_all alice plaintexts ≡ ok sent)
      × (receive_all bob' (pick sent order) ≡ map (λ i. ok (get_or plaintexts i [])) order)
  initiator_to_responder = (
    alice,
    responder sid' root b ad',
    answered laws sid' root a b ad',
    sent,
    init_lem laws sid root a (p.x25519_public b) ad,
    init_as_responder_lem sid' root b ad',
    dh_ratchet_receiving laws (responder sid' root b ad') b (p.x25519_public a) refl refl,
    ap (λ (dh : Bytes). root_after laws root dh) (laws.dh_comm b a),
    sends,
    receives,
  )
    where
      alice : DoubleRatchet
      alice = initiator laws sid root a (p.x25519_public b) ad

      delivered :
          (sent : List Delivery) × (send_all alice plaintexts ≡ ok sent)
          × (receive_all (answered laws sid' root a b ad') (pick sent order)
              ≡ map (λ i. ok (get_or plaintexts i [])) order)
      delivered =
          send_all-receive_all laws json_laws
            (chain_after laws root (p.diffie_hellman a (p.x25519_public b))) alice
            (answered laws sid' root a b ad') plaintexts order refl
            (ap (λ (dh : Bytes). some (chain_at laws (chain_after laws root dh) 0))
              (laws.dh_comm b a))
            refl fits few below once

      sent : List Delivery
      sent = delivered.0

      sends : send_all alice plaintexts ≡ ok sent
      sends = delivered.1

      receives :
          receive_all (answered laws sid' root a b ad') (pick sent order)
          ≡ map (λ i. ok (get_or plaintexts i [])) order
      receives = delivered.2

  -- The way back: after the responder has taken the initiator's ratchet key, its first 1001 messages
  -- are decrypted by the initiator once that has taken the key of their header.
  pub responder_to_initiator :
      (alice alice' bob bob' : DoubleRatchet) × (sent : List Delivery) × (init sid root a
          (p.x25519_public b)
          ad
        ≡ ok alice)
      × (init_as_responder sid' root b ad' ≡ ok bob)
      × (dh_ratchet bob (p.x25519_public a) ≡ (bob', ok tt))
      × (dh_ratchet alice (p.x25519_public b) ≡ (alice', ok tt))
      × (send_all bob' plaintexts ≡ ok sent)
      × (receive_all alice' (pick sent order) ≡ map (λ i. ok (get_or plaintexts i [])) order)
  responder_to_initiator = (
    alice,
    alice',
    responder sid' root b ad',
    bob',
    delivered.0,
    init_lem laws sid root a (p.x25519_public b) ad,
    init_as_responder_lem sid' root b ad',
    dh_ratchet_receiving laws (responder sid' root b ad') b (p.x25519_public a) refl refl,
    dh_ratchet_receiving laws alice a (p.x25519_public b) refl refl,
    send_all-ensure_sending bob' bob'' (chain_at laws start 0) plaintexts
          (ensure_sending_lem laws bob' b (p.x25519_public a) refl refl refl) refl
        ∙ delivered.1,
    delivered.2,
  )
    where
      alice : DoubleRatchet
      alice = initiator laws sid root a (p.x25519_public b) ad

      bob' : DoubleRatchet
      bob' = answered laws sid' root a b ad'

      start_from : Bytes → Bytes
      start_from dh = chain_after laws (root_after laws root dh) dh

      start : Bytes
      start = start_from (p.diffie_hellman b (p.x25519_public a))

      alice' : DoubleRatchet
      alice' = record alice {
        root_key = root_after laws alice.root_key (p.diffie_hellman a (p.x25519_public b));
        sending_chain = record alice.sending_chain {
          their_ratchet_public = some (p.x25519_public b);
        };
        receiving_chain = record alice.receiving_chain {
          chain_key = some (chain_at laws (start_from (p.diffie_hellman a (p.x25519_public b))) 0);
        };
      }

      bob'' : DoubleRatchet
      bob'' =
          with_sending
            (record bob' {
              root_key = root_after laws bob'.root_key (p.diffie_hellman b (p.x25519_public a));
            })
            (chain_at laws start 0)

      delivered :
          (sent : List Delivery) × (send_all bob'' plaintexts ≡ ok sent)
          × (receive_all alice' (pick sent order) ≡ map (λ i. ok (get_or plaintexts i [])) order)
      delivered =
          send_all-receive_all laws json_laws start bob'' alice' plaintexts order refl
            (ap (λ (dh : Bytes). some (chain_at laws (start_from dh) 0)) (laws.dh_comm a b)) refl
            fits few below once
