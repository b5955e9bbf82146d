-- ===== src/Crypto/Ratchet/Handshake.antt =====
-- ratchet.rs: how two sides of a session come to the same chains.
use presidium.Base.{◌≡◌, refl, some, none, ok, String, List, [], ◌∷◌, arith}
use presidium.Crypto.Constants.{Bytes, ascii, root_key_size, chain_key_size}
use presidium.Crypto.Primitives.{Primitives, PrimitiveLaws, Json}
use presidium.Crypto.Ratchet.{
  RootKey, ChainKey, RatchetMessageHeader, DoubleRatchet, ratchet_step, init, init_as_responder,
}
use presidium.Crypto.Ratchet.Messages.{with_sending, ensure_sending, encrypt, dh_ratchet}
use presidium.Crypto.Ratchet.Stream.{chain_at, chain_at-zero}
use presidium.Crypto.Ratchet.Order.{send_all}

-- The responder's session before the first message.
abbrev pub responder : String → RootKey → Bytes → Bytes → DoubleRatchet
responder session_id root our_ratchet_key associated_data = record {
  root_key = root;
  sending_chain = record {
    our_ratchet_key = some our_ratchet_key;
    their_ratchet_public = none;
    chain_key = none;
    skipped_message_keys = [];
  };
  receiving_chain = record {
    our_ratchet_key = none;
    their_ratchet_public = none;
    chain_key = none;
    skipped_message_keys = [];
  };
  session_id = session_id;
  associated_data = associated_data;
}

pub init_as_responder_lem :
    (session_id : String) (root : RootKey) (key associated_data : Bytes)
    → init_as_responder session_id root key associated_data
      ≡ ok (responder session_id root key associated_data)
unfolding init_as_responder
init_as_responder_lem session_id root key associated_data = refl

module _ ⦃p : Primitives⦄ (laws : PrimitiveLaws p) where
  pub root_after : RootKey → Bytes → RootKey
  root_after root dh = record {
    key = laws.kdf (some root.key) dh (ascii "presidium-ratchet-root") root_key_size;
  }

  pub chain_after : RootKey → Bytes → Bytes
  chain_after root dh = laws.kdf (some root.key) dh (ascii "presidium-ratchet-chain") chain_key_size

  pub ratchet_step_lem :
      (root : RootKey) (dh : Bytes)
      → ratchet_step root dh ≡ ok (root_after root dh, chain_at laws (chain_after root dh) 0)
  unfolding ratchet_step root_after chain_after
  ratchet_step_lem root dh = rw (
    chain_at-zero laws (chain_after root dh),
    laws.hkdf_kdf (some root.key) dh (ascii "presidium-ratchet-root") 32 (omega arith),
    laws.hkdf_kdf (some root.key) dh (ascii "presidium-ratchet-chain") 32 (omega arith),
  )

  -- The state that `init` returns.
  abbrev pub initiator : String → RootKey → Bytes → Bytes → Bytes → DoubleRatchet
  initiator session_id root our peer associated_data =
      let dh = p.diffie_hellman our peer in
      record {
        root_key = root_after root dh;
        sending_chain = record {
          our_ratchet_key = some our;
          their_ratchet_public = some peer;
          chain_key = some (chain_at laws (chain_after root dh) 0);
          skipped_message_keys = [];
        };
        receiving_chain = record {
          our_ratchet_key = none;
          their_ratchet_public = some peer;
          chain_key = none;
          skipped_message_keys = [];
        };
        session_id = session_id;
        associated_data = associated_data;
      }

  pub init_lem :
      (session_id : String) (root : RootKey) (our peer associated_data : Bytes)
      → init session_id root our peer associated_data
        ≡ ok (initiator session_id root our peer associated_data)
  unfolding init
  init_lem session_id root our peer associated_data =
      rw (ratchet_step_lem root (p.diffie_hellman our peer))

  -- `dh_ratchet` where the receiving chain holds no ratchet key of ours: the new chain receives.
  pub dh_ratchet_receiving :
      (r : DoubleRatchet) (our peer : Bytes)
      → r.receiving_chain.our_ratchet_key ≡ none
      → r.sending_chain.our_ratchet_key ≡ some our
      → let dh = p.diffie_hellman our peer in
        dh_ratchet r peer ≡ (
          record r {
            root_key = root_after r.root_key dh;
            sending_chain = record r.sending_chain { their_ratchet_public = some peer };
            receiving_chain = record r.receiving_chain {
              chain_key = some (chain_at laws (chain_after r.root_key dh) 0);
            };
          },
          ok tt,
        )
  unfolding dh_ratchet
  dh_ratchet_receiving r our peer e e' =
      ground (arith, ratchet_step_lem r.root_key (p.diffie_hellman our peer))

  -- `ensure_sending` where there is no sending chain yet.
  pub ensure_sending_lem :
      (r : DoubleRatchet) (our peer : Bytes)
      → r.sending_chain.chain_key ≡ none
      → r.sending_chain.our_ratchet_key ≡ some our
      → r.sending_chain.their_ratchet_public ≡ some peer
      → let dh = p.diffie_hellman our peer in
        ensure_sending r
        ≡ ok (
            with_sending
              (record r { root_key = root_after r.root_key dh })
              (chain_at laws (chain_after r.root_key dh) 0))
  unfolding ensure_sending
  ensure_sending_lem r our peer e e' e'' =
      ground (arith, ratchet_step_lem r.root_key (p.diffie_hellman our peer))

module _ ⦃p : Primitives⦄ ⦃json : Json RatchetMessageHeader⦄ where
  -- `encrypt` starts from the state with its sending chain.
  pub send_all-ensure_sending :
      (r r' : DoubleRatchet) (chain : ChainKey) (plaintexts : List Bytes)
      → ensure_sending r ≡ ok r'
      → r'.sending_chain.chain_key ≡ some chain
      → send_all r plaintexts ≡ send_all r' plaintexts
  unfolding send_all
  send_all-ensure_sending r r' chain [] e e' = refl
  send_all-ensure_sending r r' chain (x ∷ xs) e e' = rw same
    where
      again : ensure_sending r' ≡ ok r'
      again = unfold ensure_sending in ground arith

      same : encrypt r x ≡ encrypt r' x
      same = unfold encrypt in ground (arith, again)
