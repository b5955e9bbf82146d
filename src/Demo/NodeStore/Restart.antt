-- ===== src/Demo/NodeStore/Restart.antt =====
-- presidium-demo/src/store.rs and session.rs: a node that is started again has the same identity, and goes
-- on with the sessions that it persisted.
use presidium.Base.{ℕ, ◌≡◌, refl, false, some, [], length, ok, arith, inl, inr, Option-cases}
use presidium.Crypto.Constants.{Bytes}
use presidium.Crypto.Primitives.{Json, JsonLaws}
use presidium.Crypto.Keys.{SessionKeys}
use presidium.Crypto.Identity.{
  IdentityKeyPair, IdentityPublicKey, from_seed, generate_identity, seeds,
}
use presidium.Network.Topics.{Hex}
use presidium.Storage.SessionState.{
  RatchetSnapshot, SessionState, from_ratchet, to_ratchet, to_ratchet-from_ratchet,
}
use presidium.Storage.Sqleet.{has_nul}
use presidium.Storage.Texts.{TextLaws}
use presidium.Storage.Tables.{Database}
use presidium.Storage.Store.{save_identity, load_identity}
use presidium.Storage.Store.Stored.{HasConversation, save_session_cases}
use presidium.Demo.Session.{ChatSession}
use presidium.Demo.NodeStore.{
  IdentityDraws, load_or_create_identity, session_id, rebuild_ratchet, resume_state, persist,
  resume, save_session, load_session,
}

-- The random seeds have the sizes of the source.
abbrev pub HasSeedSizes : IdentityDraws → Type 0
HasSeedSizes draws = (length draws.classical_seed ≡ 32) × (length draws.pq_seed ≡ 32)

-- A node that was started once is, whatever it draws later, started again with the identity and the device
-- id of its first start, and its database is left alone.
pub load_or_create_identity_again :
    ⦃h : Hex⦄ (draws later : IdentityDraws) (db : Database) (identity : IdentityKeyPair)
    (device_id : Bytes)
    → HasSeedSizes draws
    → (load_or_create_identity draws db).1 ≡ ok (identity, device_id)
    → load_or_create_identity later (load_or_create_identity draws db).0
      ≡ ((load_or_create_identity draws db).0, ok (identity, device_id))
unfolding load_or_create_identity load_identity save_identity generate_identity seeds from_seed
load_or_create_identity_again draws later db identity device_id (hc, hp) e =
    elim (Option-cases db.identity) [
      | inl new ↦ ground (arith, e, new, hc, hp)
      | inr (r, old) ↦ ground (arith, e, old)
    ]

-- What `persist` and `resume` rely on: the ratchet has the session id and no associated data, the peer of
-- the session is that of its keys, and the conversation id has no NUL byte.
abbrev pub IsResumable : ChatSession → Type 0
IsResumable session =
    (session.ratchet.session_id ≡ session_id)
    × (session.ratchet.associated_data ≡ [])
    × (session.session_keys.peer_identity ≡ session.peer_identity)
    × (has_nul session.conversation_id ≡ false)

module _ ⦃keys_json : Json (SessionKeys IdentityPublicKey)⦄ ⦃ratchet_json : Json RatchetSnapshot⦄
    (keys_laws : JsonLaws keys_json) (ratchet_laws : JsonLaws ratchet_json)
    (keys_texts : TextLaws keys_laws) (ratchet_texts : TextLaws ratchet_laws) where
  -- A session of which `IsResumable` holds can be persisted in a database with its conversation, and is then
  -- resumed as it was.
  pub resume-persist :
      (now : ℕ) (session : ChatSession) (db : Database)
      → IsResumable session
      → HasConversation session.conversation_id db
      → (db' : Database) × (persist now session db ≡ ok db')
        × (resume session.conversation_id db' ≡ ok (some session))
  unfolding persist resume save_session load_session rebuild_ratchet resume_state
  resume-persist now session db (is_session, no_data, same_peer, named) owned =
      let state : SessionState = record {
        is_initiator = session.is_initiator;
        session_keys = session.session_keys;
        ratchet = some (from_ratchet session.ratchet);
        last_used = now;
      } in
      let rebuilt : to_ratchet (from_ratchet session.ratchet) session_id [] ≡ ok session.ratchet =
        rw (← is_session, ← no_data) (to_ratchet-from_ratchet session.ratchet) in
      elim (save_session_cases keys_laws ratchet_laws keys_texts ratchet_texts
        session.conversation_id state db) [
          | inr (inl (nul, refused)) ↦ absurd (ground (arith, nul, named))
          | inr (inr (absent, refused)) ↦ absurd (ground (arith, absent, owned))
          | inl (_, _, (db', saved, loaded, _)) ↦
              (db', rw saved refl, rw (loaded, rebuilt) (rw same_peer refl))
        ]
