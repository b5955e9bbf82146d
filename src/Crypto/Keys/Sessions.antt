-- ===== src/Crypto/Keys/Sessions.antt =====
-- keys.rs, `SessionKeys`: both sides derive the same keys, and rotation counts messages.
use Prim.Native.Nat.{min}
use presidium.Base.{
  ◌-◌, ◌≢◌, ℕ, zero, suc, ◌+◌, ◌≡◌, refl, ap, Bool, true, false, some, none, ok, arith, [], leb,
}
use presidium.Base.Words.{u64_mod, IsU64, saturating_suc}
use presidium.Crypto.Constants.{Bytes, ascii, key_rotation_message_count}
use presidium.Crypto.Primitives.{Primitives, PrimitiveLaws}
use presidium.Crypto.Ratchet.{DoubleRatchet, RootKey}
use presidium.Crypto.Ratchet.Messages.{dh_ratchet}
use presidium.Crypto.Ratchet.Stream.{chain_at}
use presidium.Crypto.Ratchet.Handshake.{
  responder, initiator, init_as_responder_lem, init_lem, dh_ratchet_receiving, root_after,
  chain_after,
}
use presidium.Crypto.Ratchet.Session.{answered}
use presidium.Crypto.Keys.{SessionKeys, new_session, increment_count, needs_rotation, to_ratchet}

module _ {I : Type 0} where
  -- The state after `n` messages have been counted.
  pub count_messages : ℕ → SessionKeys I → SessionKeys I
  count_messages zero keys = keys
  count_messages (suc n) keys = count_messages n (increment_count keys)

  count_one :
      (keys : SessionKeys I)
      → (increment_count keys).message_count ≡ min (keys.message_count + 1) (u64_mod - 1)
  unfolding increment_count saturating_suc
  count_one keys = ground arith

  -- The counter stops at the largest u64.
  message_count-count_messages :
      (n : ℕ) (keys : SessionKeys I)
      → IsU64 keys.message_count
      → (count_messages n keys).message_count ≡ min (keys.message_count + n) (u64_mod - 1)
  unfolding count_messages
  message_count-count_messages zero keys h = omega arith
  message_count-count_messages (suc n) keys h = omega (
    arith,
    count_one keys,
    message_count-count_messages n (increment_count keys) (omega (arith, count_one keys)),
  )

  -- Rotation is due once the messages counted reach 1000, and stays due however many follow.
  needs_rotation-count_messages :
      (n : ℕ) (keys : SessionKeys I)
      → IsU64 keys.message_count
      → needs_rotation (count_messages n keys)
        ≡ leb key_rotation_message_count (keys.message_count + n)
  unfolding needs_rotation
  needs_rotation-count_messages n keys h = ground (arith, message_count-count_messages n keys h)

module _ ⦃p : Primitives⦄ (laws : PrimitiveLaws p) {I : Type 0} where
  session : Bool → Bytes → I → SessionKeys I
  session is_initiator secret peer = record {
    is_initiator = is_initiator;
    root_key = laws.kdf none secret (ascii "ROOT_KEY") 32;
    sending_chain = laws.kdf none secret (ascii "SENDING_CHAIN") 32;
    receiving_chain = laws.kdf none secret (ascii "RECEIVING_CHAIN") 32;
    peer_identity = peer;
    message_count = 0;
  }

  new_session_lem :
      (is_initiator : Bool) (secret : Bytes) (peer : I)
      → new_session is_initiator secret peer ≡ ok (session is_initiator secret peer)
  unfolding new_session session
  new_session_lem is_initiator secret peer = rw (
    laws.hkdf_kdf none secret (ascii "ROOT_KEY") 32 (omega arith),
    laws.hkdf_kdf none secret (ascii "SENDING_CHAIN") 32 (omega arith),
    laws.hkdf_kdf none secret (ascii "RECEIVING_CHAIN") 32 (omega arith),
  )

  -- From one shared secret both sides get the same session keys but for the role and the peer: the same root
  -- key, sending chain and receiving chain. They make ratchets of these keys of which the responder's
  -- receiving chain, once it has taken the initiator's ratchet key, is the initiator's sending chain.
  pub session_agreement :
      (secret a b : Bytes) (peer_a peer_b : I)
      → (keys_a keys_b : SessionKeys I) × (alice bob bob' : DoubleRatchet) × (new_session true
            secret peer_b
          ≡ ok keys_a)
        × (new_session false secret peer_a ≡ ok keys_b)
        × (keys_b ≡ record keys_a { is_initiator = false; peer_identity = peer_a })
        × (to_ratchet keys_a a (some (p.x25519_public b)) ≡ ok alice)
        × (to_ratchet keys_b b none ≡ ok bob)
        × (dh_ratchet bob (p.x25519_public a) ≡ (bob', ok tt))
        × (bob'.root_key ≡ alice.root_key)
        × (bob'.receiving_chain.chain_key ≡ alice.sending_chain.chain_key)
        × (alice.sending_chain.chain_key ≢ none)
  unfolding session to_ratchet
  session_agreement secret a b peer_a peer_b = (
    session true secret peer_b,
    session false secret peer_a,
    initiator laws "presidium-session" root a (p.x25519_public b) [],
    bob,
    answered laws "presidium-session" root a b [],
    new_session_lem true secret peer_b,
    new_session_lem false secret peer_a,
    refl,
    init_lem laws "presidium-session" root a (p.x25519_public b) [],
    init_as_responder_lem "presidium-session" root b [],
    dh_ratchet_receiving laws bob b (p.x25519_public a) refl refl,
    ap (λ (dh : Bytes). root_after laws root dh) (laws.dh_comm b a),
    ap (λ (dh : Bytes). some (chain_at laws (chain_after laws root dh) 0)) (laws.dh_comm b a),
    λ e. cc,
  )
    where
      root : RootKey
      root = record { key = laws.kdf none secret (ascii "ROOT_KEY") 32 }

      bob : DoubleRatchet
      bob = responder "presidium-session" root b []
