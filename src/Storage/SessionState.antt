-- ===== src/Storage/SessionState.antt =====
-- presidium-storage/src/session_state.rs: the snapshot of a ratchet that is stored, and its rebuilding.
mod Examples
use presidium.Base.{
  ℕ, zero, suc, ◌≡◌, ◌≢◌, refl, Bool, String, Option, none, some, List, Result, ok, err, ◌>>=◌, ◌⊎◌,
  inl, inr, arith, Result-cases, >>=-eq-ok,
}
use presidium.Crypto.Constants.{Bytes}
use presidium.Crypto.Keys.{SessionKeys}
use presidium.Crypto.Identity.{IdentityPublicKey}
use presidium.Storage.Error.{StorageError, invalid_data}
use presidium.Crypto.Ratchet.{ChainKey, RootKey, RatchetChain, DoubleRatchet}

pub record ChainSnapshot : Type 0 where
  pub our_ratchet_key : Option Bytes
  pub their_ratchet_public : Option Bytes
  pub chain_key : Option Bytes
  pub chain_index : ℕ
  pub skipped_message_keys : List (ℕ × Bytes)

pub record RatchetSnapshot : Type 0 where
  pub root_key : Bytes
  pub sending_chain : ChainSnapshot
  pub receiving_chain : ChainSnapshot

pub record SessionState : Type 0 where
  pub is_initiator : Bool
  pub session_keys : SessionKeys IdentityPublicKey
  pub ratchet : Option RatchetSnapshot
  pub last_used : ℕ

abbrev key_bytes : Option ChainKey → Option Bytes
key_bytes none = none
key_bytes (some ck) = some ck.key

abbrev key_index : Option ChainKey → ℕ
key_index none = 0
key_index (some ck) = ck.index

unfoldable pub from_chain : RatchetChain → ChainSnapshot
from_chain chain = record {
  our_ratchet_key = chain.our_ratchet_key;
  their_ratchet_public = chain.their_ratchet_public;
  chain_key = key_bytes chain.chain_key;
  chain_index = key_index chain.chain_key;
  skipped_message_keys = chain.skipped_message_keys;
}

-- The match of `to_chain` on the key and the index.
abbrev to_chain_key : Option Bytes → ℕ → Result StorageError (Option ChainKey)
to_chain_key (some key) index = ok (some (record { key = key; index = index }))
to_chain_key none zero = ok none
to_chain_key none (suc n) = err (invalid_data "chain snapshot has an index but no chain key")

unfoldable pub to_chain : ChainSnapshot → Result StorageError RatchetChain
to_chain snapshot = do
  chain_key ← to_chain_key snapshot.chain_key snapshot.chain_index
  ok (record {
    our_ratchet_key = snapshot.our_ratchet_key;
    their_ratchet_public = snapshot.their_ratchet_public;
    chain_key = chain_key;
    skipped_message_keys = snapshot.skipped_message_keys;
  })

unfoldable pub from_ratchet : DoubleRatchet → RatchetSnapshot
unfolding from_chain
from_ratchet ratchet = record {
  root_key = ratchet.root_key.key;
  sending_chain = from_chain ratchet.sending_chain;
  receiving_chain = from_chain ratchet.receiving_chain;
}

unfoldable pub to_ratchet : RatchetSnapshot → String → Bytes → Result StorageError DoubleRatchet
unfolding to_chain
to_ratchet snapshot session_id associated_data = do
  sending_chain ← to_chain snapshot.sending_chain
  receiving_chain ← to_chain snapshot.receiving_chain
  ok (record {
    root_key = record { key = snapshot.root_key };
    sending_chain = sending_chain;
    receiving_chain = receiving_chain;
    session_id = session_id;
    associated_data = associated_data;
  })

to_chain-from_chain : (chain : RatchetChain) → to_chain (from_chain chain) ≡ ok chain
unfolding to_chain from_chain
to_chain-from_chain chain = ground arith

-- A ratchet is rebuilt from its snapshot, its session id and its associated data.
pub to_ratchet-from_ratchet :
    (ratchet : DoubleRatchet)
    → to_ratchet (from_ratchet ratchet) ratchet.session_id ratchet.associated_data ≡ ok ratchet
unfolding to_ratchet from_ratchet
to_ratchet-from_ratchet ratchet =
    rw (to_chain-from_chain ratchet.sending_chain, to_chain-from_chain ratchet.receiving_chain)

-- The error of a chain with an index and no key.
abbrev pub no_chain_key : StorageError
no_chain_key = invalid_data "chain snapshot has an index but no chain key"

abbrev pub HasNoKey : ChainSnapshot → Type 0
HasNoKey c = (c.chain_key ≡ none) × (c.chain_index ≢ 0)

abbrev Rebuilds : ChainSnapshot → Type 0
Rebuilds c = (chain : RatchetChain) × (to_chain c ≡ ok chain) × (from_chain chain ≡ c)

to_chain_key_cases :
    (key : Option Bytes) (index : ℕ)
    → ((o : Option ChainKey) × (to_chain_key key index ≡ ok o)
        × (key_bytes o ≡ key)
        × (key_index o ≡ index))
      ⊎ ((key ≡ none) × (index ≢ 0) × (to_chain_key key index ≡ err no_chain_key))
to_chain_key_cases (some key) index =
    inl (some (record { key = key; index = index }), refl, refl, refl)
to_chain_key_cases none zero = inl (none, refl, refl, refl)
to_chain_key_cases none (suc n) = inr (refl, omega arith, refl)

to_chain_cases : (c : ChainSnapshot) → Rebuilds c ⊎ (HasNoKey c × (to_chain c ≡ err no_chain_key))
unfolding to_chain from_chain
to_chain_cases c = elim (to_chain_key_cases c.chain_key c.chain_index) [
  | inl (o, h, bytes, index) ↦ inl (
    record {
      our_ratchet_key = c.our_ratchet_key;
      their_ratchet_public = c.their_ratchet_public;
      chain_key = o;
      skipped_message_keys = c.skipped_message_keys;
    },
    rw h,
    ground (arith, bytes, index),
  )
  | inr (none_key, positive, h) ↦ inr ((none_key, positive), rw h)
]

-- A snapshot in which a chain has an index and no key is refused. Every other snapshot is rebuilt
-- into a ratchet of the session given, and this ratchet has the snapshot.
pub to_ratchet_cases :
    (snapshot : RatchetSnapshot) (session_id : String) (associated_data : Bytes)
    → ((ratchet : DoubleRatchet) × (to_ratchet snapshot session_id associated_data ≡ ok ratchet)
        × (from_ratchet ratchet ≡ snapshot)
        × (ratchet.session_id ≡ session_id)
        × (ratchet.associated_data ≡ associated_data))
      ⊎ ((HasNoKey snapshot.sending_chain ⊎ HasNoKey snapshot.receiving_chain)
          × (to_ratchet snapshot session_id associated_data ≡ err no_chain_key))
unfolding to_ratchet from_ratchet
to_ratchet_cases snapshot session_id associated_data =
    elim (to_chain_cases snapshot.sending_chain) [
      | inr (broken, h) ↦ inr (inl broken, rw h)
      | inl (sending, hs, es) ↦ elim (to_chain_cases snapshot.receiving_chain) [
        | inr (broken, h) ↦ inr (inr broken, rw (hs, h))
        | inl (receiving, hr, er) ↦ inl (
          record {
            root_key = record { key = snapshot.root_key };
            sending_chain = sending;
            receiving_chain = receiving;
            session_id = session_id;
            associated_data = associated_data;
          },
          rw (hs, hr),
          ground (arith, es, er),
          refl,
          refl,
        )
      ]
    ]
