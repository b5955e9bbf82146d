-- ===== src/Crypto/Ratchet/Messages.antt =====
-- presidium-crypto/src/ratchet.rs: `DoubleRatchet::encrypt`, `decrypt` and `dh_ratchet`.
use presidium.Base.{
  ℕ, zero, suc, ◌-◌, true, false, Option, none, some, List, [], ◌∷◌, ◌++◌, ok, err, ◌>>=◌, ok_or,
  length, replicate, ltb,
}
use presidium.Crypto.Constants.{Bytes, x25519_public_key_size, max_skip_messages}
use presidium.Crypto.Error.{
  CryptoResult, from_json, decryption_failed, encryption_failed, ratchet_error,
}
use presidium.Crypto.Primitives.{Primitives, Json}
use presidium.Crypto.Ratchet.{
  MessageKeys, ChainKey, RatchetMessageHeader, DoubleRatchet, message_nonce, find_skipped,
  message_key, next, ratchet_step,
}

-- `Option::or_else`.
abbrev or_else : Option Bytes → Option Bytes → Option Bytes
or_else (some a) b = some a
or_else none b = b

-- The state after a failure is the one before it.
abbrev keep_on_error :
    DoubleRatchet → CryptoResult DoubleRatchet → DoubleRatchet × CryptoResult Unit
keep_on_error r (ok r') = (r', ok tt)
keep_on_error r (err e) = (r, err e)

-- Writing `chain_key` of the sending and of the receiving chain.
abbrev pub with_sending : DoubleRatchet → ChainKey → DoubleRatchet
with_sending r chain = record r {
  sending_chain = record r.sending_chain { chain_key = some chain };
}

abbrev pub with_receiving : DoubleRatchet → ChainKey → List (ℕ × Bytes) → DoubleRatchet
with_receiving r chain skipped = record r {
  receiving_chain = record r.receiving_chain {
    chain_key = some chain;
    skipped_message_keys = skipped;
  };
}

module _ ⦃p : Primitives⦄ where
  -- The first block of `encrypt`: derive the sending chain if there is none yet.
  unfoldable pub ensure_sending : DoubleRatchet → CryptoResult DoubleRatchet
  ensure_sending r = elim r.sending_chain.chain_key [
    | some _ ↦ ok r
    | none ↦ do
      our_key ← ok_or r.sending_chain.our_ratchet_key (ratchet_error "No sending ratchet key")
      their_bytes ← ok_or r.sending_chain.their_ratchet_public (ratchet_error "No peer ratchet key")
      (new_root, chain) ← ratchet_step r.root_key (p.diffie_hellman our_key their_bytes)
      ok (with_sending (record r { root_key = new_root }) chain)
  ]

  -- `chain.message_key()?` and `chain.next()?`, where nothing is written in between.
  unfoldable pub step_chain : ChainKey → CryptoResult (MessageKeys × ChainKey)
  step_chain chain = do
    message_key ← message_key chain
    chain' ← next chain
    ok (message_key, chain')

  -- The header of `encrypt`, with our ratchet public key.
  unfoldable pub header_of : DoubleRatchet → ℕ → RatchetMessageHeader
  header_of r index = record {
    dh_public_key = elim r.sending_chain.our_ratchet_key [
      | some key ↦ p.x25519_public key
      | none ↦ replicate x25519_public_key_size 0
    ];
    message_number = index;
    previous_message_number = 0;
  }

  -- The body of the `while` loop of `decrypt`: store the key of the chain's index, and move on.
  unfoldable pub skip_round :
      ChainKey → List (ℕ × Bytes) → (ChainKey × List (ℕ × Bytes)) × CryptoResult Unit
  skip_round chain skipped = elim (message_key chain) [
    | err e ↦ ((chain, skipped), err e)
    | ok key ↦
        let skipped' = skipped ++ (key.index, key.key) ∷ [] in
        elim (ltb max_skip_messages (length skipped')) [
          | true ↦ ((chain, skipped'), err (ratchet_error "Too many skipped messages"))
          | false ↦ elim (next chain) [
            | err e ↦ ((chain, skipped'), err e)
            | ok chain' ↦ ((chain', skipped'), ok tt)
          ]
        ]
  ]

  -- The loop runs while the chain's index is below the message number, and each round adds one to
  -- the index: `message_number - index` rounds.
  unfoldable pub skip_loop :
      ℕ → ChainKey → List (ℕ × Bytes) → (ChainKey × List (ℕ × Bytes)) × CryptoResult Unit
  skip_loop zero chain skipped = ((chain, skipped), ok tt)
  skip_loop (suc rounds) chain skipped =
      let ((chain', skipped'), result) = skip_round chain skipped in
      elim result [ err e ↦ ((chain', skipped'), err e) | ok _ ↦ skip_loop rounds chain' skipped' ]

  -- `dh_ratchet`: advance the root key, and set the chain that the derived key belongs to.
  unfoldable pub dh_ratchet : DoubleRatchet → Bytes → DoubleRatchet × CryptoResult Unit
  dh_ratchet r peer_ratchet_public = keep_on_error r do
    our_key ←
        ok_or (or_else r.receiving_chain.our_ratchet_key r.sending_chain.our_ratchet_key)
          (ratchet_error "No ratchet key available")
    (new_root, new_chain) ← ratchet_step r.root_key (p.diffie_hellman our_key peer_ratchet_public)
    let sending = record r.sending_chain { their_ratchet_public = some peer_ratchet_public }
    ok (elim r.receiving_chain.our_ratchet_key [
      | some key ↦ record r {
        root_key = new_root;
        sending_chain = record sending { our_ratchet_key = some key; chain_key = some new_chain };
        receiving_chain = record r.receiving_chain { our_ratchet_key = none };
      }
      | none ↦ record r {
        root_key = new_root;
        sending_chain = sending;
        receiving_chain = record r.receiving_chain { chain_key = some new_chain };
      }
    ])

module _ ⦃p : Primitives⦄ ⦃json : Json RatchetMessageHeader⦄ where
  -- Sealing under a message key, with the header as associated data.
  unfoldable pub seal_message : MessageKeys → RatchetMessageHeader → Bytes → CryptoResult Bytes
  seal_message key header plaintext = do
    serialized_header ← from_json (json.to_vec header)
    ok_or (p.aead_encrypt key.key (message_nonce key.index) serialized_header plaintext)
        (encryption_failed "Ratchet encryption failed")

  -- Opening under a message key: the same lines stand on both paths of `decrypt`.
  unfoldable pub open_message : Bytes → RatchetMessageHeader → Bytes → CryptoResult Bytes
  open_message key header ciphertext = do
    serialized_header ← from_json (json.to_vec header)
    ok_or (p.aead_decrypt key (message_nonce header.message_number) serialized_header ciphertext)
        decryption_failed

  -- `encrypt` after its first block.
  unfoldable pub encrypt_next :
      DoubleRatchet → Bytes → DoubleRatchet × CryptoResult (Bytes × RatchetMessageHeader)
  unfolding step_chain header_of seal_message
  encrypt_next r plaintext = elim r.sending_chain.chain_key [
    | none ↦ (r, err (ratchet_error "No sending chain"))
    | some chain ↦ elim (step_chain chain) [
      | err e ↦ (r, err e)
      | ok (key, chain') ↦
          let header = header_of r key.index in
          (
            with_sending r chain',
            do ciphertext ← seal_message key header plaintext; ok (ciphertext, header),
          )
    ]
  ]

  unfoldable pub encrypt :
      DoubleRatchet → Bytes → DoubleRatchet × CryptoResult (Bytes × RatchetMessageHeader)
  unfolding ensure_sending encrypt_next
  encrypt r plaintext = elim (ensure_sending r) [
    | err e ↦ (r, err e)
    | ok r' ↦ encrypt_next r' plaintext
  ]

  -- `decrypt` after the loop: take the key of the chain's index and move the chain on.
  unfoldable pub decrypt_at :
      DoubleRatchet → ChainKey → Bytes → RatchetMessageHeader → DoubleRatchet × CryptoResult Bytes
  unfolding step_chain open_message
  decrypt_at r chain ciphertext header = elim (step_chain chain) [
    | err e ↦ (r, err e)
    | ok (key, chain') ↦ (
      with_receiving r chain' r.receiving_chain.skipped_message_keys,
      open_message key.key header ciphertext,
    )
  ]

  -- `decrypt` when no key is stored for the message.
  unfoldable pub decrypt_fresh :
      DoubleRatchet → Bytes → RatchetMessageHeader → DoubleRatchet × CryptoResult Bytes
  unfolding decrypt_at skip_loop
  decrypt_fresh r ciphertext header = elim r.receiving_chain.chain_key [
    | none ↦ (r, err (ratchet_error "No receiving chain established"))
    | some chain ↦
        let ((chain', skipped), result) =
          skip_loop (header.message_number - chain.index) chain
            r.receiving_chain.skipped_message_keys in
        let r' = with_receiving r chain' skipped in
        elim result [ err e ↦ (r', err e) | ok _ ↦ decrypt_at r' chain' ciphertext header ]
  ]

  unfoldable pub decrypt :
      DoubleRatchet → Bytes → RatchetMessageHeader → DoubleRatchet × CryptoResult Bytes
  unfolding find_skipped decrypt_fresh
  decrypt r ciphertext header =
      elim (find_skipped header.message_number r.receiving_chain.skipped_message_keys) [
        | some key ↦ (r, open_message key header ciphertext)
        | none ↦ decrypt_fresh r ciphertext header
      ]
