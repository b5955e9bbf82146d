-- ===== src/Crypto/Ratchet/Order.antt =====
-- The messages of one chain of ratchet.rs, delivered in any order.
use native.Mathlib.Decide.{dec_lt}
use presidium.Base.{
  ℕ, suc, ◌-◌, ◌≤◌, ◌≡◌, ◌≢◌, refl, ap, ◌∙◌, ◌⊎◌, inl, inr, some, none, ok, List, [], ◌∷◌, ◌++◌,
  map, length, length-append, All, arith, ◌>>=◌,
}
use presidium.Crypto.Constants.{Bytes, max_skip_messages}
use presidium.Crypto.Error.{CryptoResult}
use presidium.Crypto.Primitives.{Primitives, PrimitiveLaws, Json, JsonLaws, aead_limit}
use presidium.Crypto.Ratchet.{RatchetMessageHeader, DoubleRatchet, find_skipped}
use presidium.Crypto.Ratchet.Messages.{with_receiving, encrypt, decrypt, open_message}
use presidium.Crypto.Ratchet.Stream.{chain_at, message_key_at, sealed, open_message-sealed}
use presidium.Crypto.Ratchet.Skipping.{
  Skipped, keys_from, find_skipped-append, find_skipped-append_left, find_skipped-keys_from,
  find_skipped-keys_from_outside, length-keys_from,
}
use presidium.Crypto.Ratchet.Delivery.{decrypt_ahead, decrypt_stored}

-- A message with its plaintext.
pub record Delivery : Type 0 where
  pub plaintext : Bytes
  pub ciphertext : Bytes
  pub header : RatchetMessageHeader

abbrev pub number : Delivery → ℕ
number d = d.header.message_number

-- No two of the messages have the same number.
abbrev pub Distinct : List Delivery → Type 0
Distinct [] = Unit {0}
Distinct (d ∷ ds) = All (λ (e : Delivery). number d ≢ number e) ds × Distinct ds

module _ ⦃p : Primitives⦄ ⦃json : Json RatchetMessageHeader⦄ where
  -- Encrypting plaintexts one after the other, and decrypting messages one after the other.
  unfoldable pub send_all : DoubleRatchet → List Bytes → CryptoResult (List Delivery)
  send_all r [] = ok []
  send_all r (plaintext ∷ rest) = do
    let (r', result) = encrypt r plaintext
    (ciphertext, header) ← result
    sent ← send_all r' rest
    ok (record { plaintext = plaintext; ciphertext = ciphertext; header = header } ∷ sent)

  unfoldable pub receive_all : DoubleRatchet → List Delivery → List (CryptoResult Bytes)
  receive_all r [] = []
  receive_all r (d ∷ ds) =
      let (r', result) = decrypt r d.ciphertext d.header in result ∷ receive_all r' ds

module _ ⦃p : Primitives⦄ ⦃json : Json RatchetMessageHeader⦄ (laws : PrimitiveLaws p)
    (json_laws : JsonLaws json) (start : Bytes) where
  -- The ciphertext is sealed under the key of the message's number.
  pub record IsSent (d : Delivery) : Type 0 where
    pub fits : length d.plaintext ≤ aead_limit
    pub sealed_at :
        d.ciphertext
        ≡ sealed laws json_laws (message_key_at laws start (number d)) d.header d.plaintext

  -- The receiver can open message `n`: its key is stored, or the chain has not reached it.
  abbrev IsReady : ℕ → Skipped → ℕ → Type 0
  IsReady m skipped n =
      (find_skipped n skipped ≡ some (message_key_at laws start n))
      ⊎ ((m ≤ n) × (find_skipped n skipped ≡ none))

  record IsReceiving (r : DoubleRatchet) (m : ℕ) (ds : List Delivery) : Type 0 where
    chain : r.receiving_chain.chain_key ≡ some (chain_at laws start m)
    stored : length r.receiving_chain.skipped_message_keys ≤ m
    ready : All (λ d. IsReady m r.receiving_chain.skipped_message_keys (number d)) ds

  -- Storing the keys from `m` below `n`, and taking that of `n`, leaves every other message ready.
  IsReady-ahead :
      (m n k : ℕ) (skipped : Skipped)
      → m ≤ n
      → n ≢ k
      → IsReady m skipped k
      → IsReady (suc n) (skipped ++ keys_from laws start m (n - m)) k
  IsReady-ahead m n k skipped h ne (inl found) = inl (find_skipped-append_left k skipped _ found)
  IsReady-ahead m n k skipped h ne (inr (le, missing)) = elim (dec_lt k n) [
    | yes before ↦ inl (
        find_skipped-append k skipped _ missing
        ∙ find_skipped-keys_from laws start m (n - m) k le (omega arith))
    | no after ↦ inr (
      omega arith,
      find_skipped-append k skipped _ missing
          ∙ find_skipped-keys_from_outside laws start m (n - m) k (omega arith),
    )
  ]

  IsReady-ahead-All :
      (m n : ℕ) (skipped : Skipped) (ds : List Delivery)
      → m ≤ n
      → All (λ d. n ≢ number d) ds
      → All (λ d. IsReady m skipped (number d)) ds
      → All (λ d. IsReady (suc n) (skipped ++ keys_from laws start m (n - m)) (number d)) ds
  IsReady-ahead-All m n skipped [] h ne ready = tt
  IsReady-ahead-All m n skipped (d ∷ ds) h ne ready = (
    IsReady-ahead m n (number d) skipped h ne.0 ready.0,
    IsReady-ahead-All m n skipped ds h ne.1 ready.1,
  )

  open_message-IsSent :
      (d : Delivery)
      → IsSent d
      → open_message (message_key_at laws start (number d)) d.header d.ciphertext ≡ ok d.plaintext
  open_message-IsSent d sent = rw sent.sealed_at (
      open_message-sealed laws json_laws (message_key_at laws start (number d)) d.header d.plaintext
        sent.fits)

  -- A ready message is opened, and the others stay ready.
  decrypt-IsReceiving :
      (r : DoubleRatchet) (m : ℕ) (d : Delivery) (ds : List Delivery)
      → IsReceiving r m (d ∷ ds)
      → IsSent d
      → number d ≤ max_skip_messages
      → All (λ e. number d ≢ number e) ds
      → (r' : DoubleRatchet) × (m' : ℕ) × (decrypt r d.ciphertext d.header ≡ (r', ok d.plaintext))
        × IsReceiving r' m' ds
  decrypt-IsReceiving r m d ds v sent below ne = elim v.ready.0 [
    | inl found ↦ (
      r,
      m,
      decrypt_stored laws json_laws r d.header d.ciphertext (message_key_at laws start (number d))
            found
          ∙ ap (λ x. (r, x)) (open_message-IsSent d sent),
      record { chain = v.chain; stored = v.stored; ready = v.ready.1 },
    )
    | inr (le, missing) ↦
        let skipped = r.receiving_chain.skipped_message_keys in
        let skipped' = skipped ++ keys_from laws start m (number d - m) in
        (
          with_receiving r (chain_at laws start (suc (number d))) skipped',
          suc (number d),
          decrypt_ahead laws json_laws r start m d.header d.ciphertext v.chain missing le
                (omega arith) (omega (arith, v.stored))
              ∙ ap (λ x. (with_receiving r (chain_at laws start (suc (number d))) skipped', x))
                  (open_message-IsSent d sent),
          record {
            chain = refl;
            stored = omega (
              arith,
              v.stored,
              length-append skipped (keys_from laws start m (number d - m)),
              length-keys_from laws start m (number d - m),
            );
            ready = IsReady-ahead-All m (number d) skipped ds le ne v.ready.1;
          },
        )
  ]

  receive_all_lem :
      (r : DoubleRatchet) (m : ℕ) (ds : List Delivery)
      → IsReceiving r m ds
      → All IsSent ds
      → All (λ d. number d ≤ max_skip_messages) ds
      → Distinct ds
      → receive_all r ds ≡ map (λ d. ok d.plaintext) ds
  unfolding receive_all
  receive_all_lem r m [] v sent below distinct = refl
  receive_all_lem r m (d ∷ ds) v sent below distinct =
      let (r', m', opened, v') = decrypt-IsReceiving r m d ds v sent.0 below.0 distinct.0 in
      rw (opened, receive_all)
        (ap (λ rest. ok d.plaintext ∷ rest) (receive_all_lem r' m' ds v' sent.1 below.1 distinct.1))

  All-IsReady : (ds : List Delivery) → All (λ d. IsReady 0 [] (number d)) ds
  unfolding find_skipped
  All-IsReady [] = tt
  All-IsReady (d ∷ ds) = (inr (omega arith, refl), All-IsReady ds)

  -- On a fresh receiving chain, messages of the chain with distinct numbers up to 1000 are all
  -- decrypted, in whatever order they arrive and however many of them are lost.
  pub receive_all-any_order :
      (r : DoubleRatchet) (ds : List Delivery)
      → r.receiving_chain.chain_key ≡ some (chain_at laws start 0)
      → r.receiving_chain.skipped_message_keys ≡ []
      → All IsSent ds
      → All (λ d. number d ≤ max_skip_messages) ds
      → Distinct ds
      → receive_all r ds ≡ map (λ d. ok d.plaintext) ds
  receive_all-any_order r ds chain skipped sent below distinct =
      receive_all_lem r 0 ds
        (record {
          chain = chain;
          stored = rw skipped (omega arith);
          ready = rw skipped (All-IsReady ds);
        })
        sent below distinct
