-- ===== src/Crypto/Ratchet/Limits.antt =====
-- ratchet.rs: what `decrypt` keeps, stores and consumes beside the messages that arrive well.
use presidium.Base.{
  ℕ, zero, suc, ◌+◌, ◌-◌, ◌≤◌, ◌<◌, ◌≡◌, refl, ap, ◌∙◌, some, none, err, Option-cases, Result-cases,
  inl, inr, [], ◌∷◌, ◌++◌, length, length-append, arith,
}
use presidium.Base.Words.{IsU64}
use presidium.Crypto.Constants.{Bytes, max_skip_messages}
use presidium.Crypto.Error.{ratchet_error}
use presidium.Crypto.Primitives.{Primitives, PrimitiveLaws, Json}
use presidium.Crypto.Ratchet.{
  RatchetMessageHeader, DoubleRatchet, ChainKey, find_skipped, message_key,
}
use presidium.Crypto.Ratchet.Rotation.{Step, encrypts, decrypts, ratchets, Reach, here, then}
use presidium.Crypto.Ratchet.Messages.{
  encrypt, skip_round, with_receiving, decrypt, decrypt_fresh, decrypt_at, skip_loop, dh_ratchet,
  open_message,
}
use presidium.Crypto.Ratchet.Stream.{chain_at, message_key_at, step_chain_lem}
use presidium.Crypto.Ratchet.Skipping.{
  Skipped, skip_loop_bounded, skip_loop_full_lem, find_skipped-append, find_skipped-append_left,
}

abbrev pub stored : DoubleRatchet → Skipped
stored r = r.receiving_chain.skipped_message_keys

find_skipped_below : (n m : ℕ) (key : Bytes) → m < n → find_skipped n ((m, key) ∷ []) ≡ none
unfolding find_skipped
find_skipped_below n m key h = ground arith

module _ ⦃p : Primitives⦄ ⦃json : Json RatchetMessageHeader⦄ where
  decrypt_at-stored :
      (r : DoubleRatchet) (chain : _) (ciphertext : Bytes) (header : RatchetMessageHeader)
      → stored (decrypt_at r chain ciphertext header).0 ≡ stored r
  unfolding decrypt_at
  decrypt_at-stored r chain ciphertext header = ground arith

  decrypt_found :
      (r : DoubleRatchet) (ciphertext key : Bytes) (header : RatchetMessageHeader)
      → find_skipped header.message_number (stored r) ≡ some key
      → decrypt r ciphertext header ≡ (r, open_message key header ciphertext)
  unfolding decrypt
  decrypt_found r ciphertext key header found = ground arith

  decrypt_fresh_bounded :
      (r : DoubleRatchet) (bound : ℕ) (ciphertext : Bytes) (header : RatchetMessageHeader)
      → max_skip_messages ≤ bound
      → length (stored r) ≤ bound
      → length (stored (decrypt_fresh r ciphertext header).0) ≤ suc bound
  unfolding decrypt_fresh
  decrypt_fresh_bounded r bound ciphertext header h l =
      elim (Option-cases r.receiving_chain.chain_key) [
        | inl e ↦ ground arith
        | inr (chain, e) ↦ ground (
          arith,
          skip_loop_bounded (header.message_number - chain.index) bound chain (stored r) h l,
        )
      ]

  -- Whatever the primitives do and whatever is received, one call of `decrypt` leaves at most one
  -- stored key more than the larger of the limit and what was stored before.
  pub decrypt_bounded :
      (r : DoubleRatchet) (bound : ℕ) (ciphertext : Bytes) (header : RatchetMessageHeader)
      → max_skip_messages ≤ bound
      → length (stored r) ≤ bound
      → length (stored (decrypt r ciphertext header).0) ≤ suc bound
  unfolding decrypt
  decrypt_bounded r bound ciphertext header h l =
      ground (arith, decrypt_fresh_bounded r bound ciphertext header h l)

  -- `dh_ratchet` keeps the keys stored for the chain that it replaces.
  dh_ratchet-stored : (r : DoubleRatchet) (peer : Bytes) → stored (dh_ratchet r peer).0 ≡ stored r
  unfolding dh_ratchet
  dh_ratchet-stored r peer = ground arith

  encrypt-stored :
      (r : DoubleRatchet) (plaintext : Bytes) → stored (encrypt r plaintext).0 ≡ stored r
  unfolding encrypt
  encrypt-stored r plaintext = ground arith

  skip_round-found :
      (chain : ChainKey) (skipped : Skipped) (n : ℕ) (key : Bytes)
      → find_skipped n skipped ≡ some key
      → find_skipped n (skip_round chain skipped).0.1 ≡ some key
  unfolding skip_round
  skip_round-found chain skipped n key found = elim (Result-cases (message_key chain)) [
    | inr (e, q) ↦ ground (arith, found, q)
    | inl (k, q) ↦ ground (
      arith,
      found,
      q,
      find_skipped-append_left n skipped ((k.index, k.key) ∷ []) {key = key} found,
    )
  ]

  skip_loop-found :
      (rounds : ℕ) (chain : ChainKey) (skipped : Skipped) (n : ℕ) (key : Bytes)
      → find_skipped n skipped ≡ some key
      → find_skipped n (skip_loop rounds chain skipped).0.1 ≡ some key
  unfolding skip_loop
  skip_loop-found zero chain skipped n key found = found
  skip_loop-found (suc rounds) chain skipped n key found =
      let kept = skip_round-found chain skipped n key found in
      elim (Result-cases (skip_round chain skipped).1) [
        | inr (e, q) ↦ rw (q, skip_loop) kept
        | inl (u, q) ↦
            rw (q, skip_loop)
              (skip_loop-found rounds (skip_round chain skipped).0.0 (skip_round chain skipped).0.1
                n key kept)
      ]

  decrypt_fresh-found :
      (r : DoubleRatchet) (ciphertext : Bytes) (header : RatchetMessageHeader) (n : ℕ) (key : Bytes)
      → find_skipped n (stored r) ≡ some key
      → find_skipped n (stored (decrypt_fresh r ciphertext header).0) ≡ some key
  unfolding decrypt_fresh
  decrypt_fresh-found r ciphertext header n key found =
      elim (Option-cases r.receiving_chain.chain_key) [
        | inl e ↦ ground (arith, found, e)
        | inr (chain, e) ↦ ground (
          arith,
          e,
          skip_loop-found (header.message_number - chain.index) chain (stored r) n key found,
        )
      ]

  Step-found :
      {r s : DoubleRatchet} (n : ℕ) (key : Bytes)
      → Step r s
      → find_skipped n (stored r) ≡ some key
      → find_skipped n (stored s) ≡ some key
  unfolding decrypt
  Step-found n key (encrypts r plaintext) found = rw (encrypt-stored r plaintext) found
  Step-found n key (decrypts r ciphertext header) found =
      ground (arith, found, decrypt_fresh-found r ciphertext header n key found)
  Step-found n key (ratchets r peer) found = rw (dh_ratchet-stored r peer) found

  Reach-found :
      {r s : DoubleRatchet} (n : ℕ) (key : Bytes)
      → Reach r s
      → find_skipped n (stored r) ≡ some key
      → find_skipped n (stored s) ≡ some key
  Reach-found n key here found = found
  Reach-found n key (then reach step) found = Step-found n key step (Reach-found n key reach found)

  -- Once a key is stored for a number, then after any calls of `encrypt`, `decrypt` and `dh_ratchet`, failed ones
  -- included, a message of that number is opened under this key and changes nothing: the key is not
  -- removed when it is used, and not when the chain is replaced.
  pub stored_key_shadows :
      (r s : DoubleRatchet) (ciphertext key : Bytes) (header : RatchetMessageHeader)
      → find_skipped header.message_number (stored r) ≡ some key
      → Reach r s
      → decrypt s ciphertext header ≡ (s, open_message key header ciphertext)
  stored_key_shadows r s ciphertext key header found reach =
      decrypt_found s ciphertext key header (Reach-found header.message_number key reach found)

module _ ⦃p : Primitives⦄ ⦃json : Json RatchetMessageHeader⦄ (laws : PrimitiveLaws p) where
  -- A message whose number the chain has reached or passed, with no key stored for it, is opened
  -- under the key of the chain's index, and the chain moves on, whether the message opens or not.
  pub decrypt_behind :
      (r : DoubleRatchet) (start : Bytes) (m : ℕ) (header : RatchetMessageHeader)
      (ciphertext : Bytes)
      → r.receiving_chain.chain_key ≡ some (chain_at laws start m)
      → find_skipped header.message_number (stored r) ≡ none
      → header.message_number ≤ m
      → IsU64 (suc m)
      → decrypt r ciphertext header ≡ (
        with_receiving r (chain_at laws start (suc m)) (stored r),
        open_message (message_key_at laws start m) header ciphertext,
      )
  unfolding decrypt skip_loop
  decrypt_behind r start m header ciphertext e missing le u =
      let none_left : header.message_number - m ≡ 0 = omega arith in
      ground (arith, step_chain_lem laws start m u, none_left)

  -- One message of the next number, whatever it holds, uses up that number's key: a message of the
  -- same number that arrives after it is opened under the key of the number above.
  pub decrypt_consumes :
      (r : DoubleRatchet) (start : Bytes) (forged genuine : RatchetMessageHeader) (x y : Bytes)
      → r.receiving_chain.chain_key ≡ some (chain_at laws start forged.message_number)
      → genuine.message_number ≡ forged.message_number
      → find_skipped forged.message_number (stored r) ≡ none
      → IsU64 (suc (suc forged.message_number))
      → (decrypt (decrypt r x forged).0 y genuine).1
        ≡ open_message (message_key_at laws start (suc forged.message_number)) genuine y
  decrypt_consumes r start forged genuine x y e same missing u =
      let first =
        decrypt_behind r start forged.message_number forged x e missing (omega arith)
          (omega arith) in
      let moved = with_receiving r (chain_at laws start (suc forged.message_number)) (stored r) in
      let missing' : find_skipped genuine.message_number (stored r) ≡ none = rw same missing in
      rw first (
        ap (λ (z : DoubleRatchet × _). z.1)
          (decrypt_behind moved start (suc forged.message_number) genuine y refl missing'
            (omega arith) u))

  -- With the store at its limit, a message ahead of the chain is refused, and its call stores one
  -- key more.
  decrypt_full :
      (r : DoubleRatchet) (start : Bytes) (m : ℕ) (header : RatchetMessageHeader)
      (ciphertext : Bytes)
      → r.receiving_chain.chain_key ≡ some (chain_at laws start m)
      → find_skipped header.message_number (stored r) ≡ none
      → m < header.message_number
      → max_skip_messages ≤ length (stored r)
      → decrypt r ciphertext header ≡ (
        with_receiving r
            (chain_at laws start m)
            (stored r ++ (m, message_key_at laws start m) ∷ []),
        err (ratchet_error "Too many skipped messages"),
      )
  unfolding decrypt
  decrypt_full r start m header ciphertext e missing ahead full = ground (
    arith,
    skip_loop_full_lem laws start (header.message_number - m) m (stored r) (omega arith) full,
  )

  -- The state after `count` such calls.
  pub flood : ℕ → DoubleRatchet → Bytes → RatchetMessageHeader → DoubleRatchet
  flood zero r ciphertext header = r
  flood (suc count) r ciphertext header =
      flood count (decrypt r ciphertext header).0 ciphertext header

  -- So the limit does not bound the store: `count` refused calls add `count` keys to it.
  pub flood_grows :
      (count m : ℕ) (r : DoubleRatchet) (start : Bytes) (header : RatchetMessageHeader)
      (ciphertext : Bytes)
      → r.receiving_chain.chain_key ≡ some (chain_at laws start m)
      → find_skipped header.message_number (stored r) ≡ none
      → m < header.message_number
      → max_skip_messages ≤ length (stored r)
      → length (stored (flood count r ciphertext header)) ≡ length (stored r) + count
  unfolding flood
  flood_grows zero m r start header ciphertext e missing ahead full = omega arith
  flood_grows (suc count) m r start header ciphertext e missing ahead full =
      let entry : ℕ × Bytes = (m, message_key_at laws start m) in
      let r' = with_receiving r (chain_at laws start m) (stored r ++ entry ∷ []) in
      let still : find_skipped header.message_number (stored r ++ entry ∷ []) ≡ none =
        find_skipped-append header.message_number (stored r) (entry ∷ []) missing
        ∙ find_skipped_below header.message_number m (message_key_at laws start m) ahead in
      rw (decrypt_full r start m header ciphertext e missing ahead full) (
        omega (
          arith,
          length-append (stored r) (entry ∷ []),
          flood_grows count m r' start header ciphertext refl still ahead
              (omega (arith, length-append (stored r) (entry ∷ []))),
        ))
