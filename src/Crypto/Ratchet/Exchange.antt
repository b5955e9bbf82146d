-- ===== src/Crypto/Ratchet/Exchange.antt =====
-- A sender and a receiver of one chain of ratchet.rs, from plaintexts to plaintexts.
use mathlib.Core.Path.{ap₂}
use presidium.Base.{
  ℕ, zero, suc, ◌+◌, ◌≤◌, ◌<◌, ◌≡◌, ◌≢◌, refl, ◌∙◌, some, ok, List, [], ◌∷◌, map, length, get_or,
  All, arith,
}
use presidium.Base.Words.{IsU64}
use presidium.Crypto.Constants.{Bytes, max_skip_messages}
use presidium.Crypto.Error.{CryptoResult}
use presidium.Crypto.Primitives.{Primitives, PrimitiveLaws, Json, JsonLaws, aead_limit}
use presidium.Crypto.Ratchet.{RatchetMessageHeader, DoubleRatchet}
use presidium.Crypto.Ratchet.Messages.{with_sending, header_of}
use presidium.Crypto.Ratchet.Stream.{chain_at, message_key_at, sealed}
use presidium.Crypto.Ratchet.Delivery.{encrypt_lem}
use presidium.Crypto.Ratchet.Order.{
  Delivery, number, Distinct, send_all, receive_all, IsSent, receive_all-any_order,
}

-- No index stands in the list twice.
abbrev pub NoRepeat : List ℕ → Type 0
NoRepeat [] = Unit {0}
NoRepeat (i ∷ is) = All (λ (j : ℕ). i ≢ j) is × NoRepeat is

abbrev blank : Delivery
blank = record {
  plaintext = [];
  ciphertext = [];
  header = record { dh_public_key = []; message_number = 0; previous_message_number = 0 };
}

-- The messages at the given places of a list, in the order of the places.
abbrev pub pick : List Delivery → List ℕ → List Delivery
pick sent order = map (λ i. get_or sent i blank) order

module _ ⦃p : Primitives⦄ ⦃json : Json RatchetMessageHeader⦄ (laws : PrimitiveLaws p)
    (json_laws : JsonLaws json) (start : Bytes) where
  -- The messages that `send_all` makes on a chain at index `n`.
  pub deliveries : DoubleRatchet → ℕ → List Bytes → List Delivery
  deliveries r n [] = []
  deliveries r n (plaintext ∷ rest) =
      record {
        plaintext = plaintext;
        ciphertext = sealed laws json_laws (message_key_at laws start n) (header_of r n) plaintext;
        header = header_of r n;
      }
      ∷ deliveries (with_sending r (chain_at laws start (suc n))) (suc n) rest

  pub send_all_lem :
      (r : DoubleRatchet) (n : ℕ) (plaintexts : List Bytes)
      → r.sending_chain.chain_key ≡ some (chain_at laws start n)
      → IsU64 (n + length plaintexts)
      → All (λ x. length x ≤ aead_limit) plaintexts
      → send_all r plaintexts ≡ ok (deliveries r n plaintexts)
  unfolding send_all deliveries
  send_all_lem r n [] e u fits = refl
  send_all_lem r n (x ∷ xs) e u fits =
      rw (encrypt_lem laws json_laws r start n x e (omega arith) fits.0, send_all)
        (rw (
          send_all_lem (with_sending r (chain_at laws start (suc n))) (suc n) xs refl (omega arith)
            fits.1))

  -- Each of them carries the number of its place, and is sealed under the key of that number.
  deliveries-IsSent :
      (r : DoubleRatchet) (n i : ℕ) (plaintexts : List Bytes)
      → All (λ x. length x ≤ aead_limit) plaintexts
      → i < length plaintexts
      → IsSent laws json_laws start (get_or (deliveries r n plaintexts) i blank)
        × (number (get_or (deliveries r n plaintexts) i blank) ≡ n + i)
        × ((get_or (deliveries r n plaintexts) i blank).plaintext ≡ get_or plaintexts i [])
  unfolding deliveries header_of
  deliveries-IsSent r n i [] fits h = absurd (omega arith)
  deliveries-IsSent r n zero (x ∷ xs) fits h =
      (record { fits = fits.0; sealed_at = refl }, omega arith, refl)
  deliveries-IsSent r n (suc i) (x ∷ xs) fits h =
      let (sent, at, same) =
        deliveries-IsSent (with_sending r (chain_at laws start (suc n))) (suc n) i xs fits.1
          (omega arith) in
      (sent, omega arith, same)

  -- What the receiver is handed, for an order of places.
  record IsSelection (sent : List Delivery) (plaintexts : List Bytes) (order : List ℕ)
      : Type 0 where
    all_sent : All (IsSent laws json_laws start) (pick sent order)
    in_range : All (λ d. number d ≤ max_skip_messages) (pick sent order)
    distinct : Distinct (pick sent order)
    same :
        ◌≡◌ {A = List (CryptoResult Bytes)}
          (map (λ d. ok d.plaintext) (pick sent order))
          (map (λ i. ok (get_or plaintexts i [])) order)

  module _ (r : DoubleRatchet) (plaintexts : List Bytes)
      (fits : All (λ x. length x ≤ aead_limit) plaintexts)
      (few : length plaintexts ≤ suc max_skip_messages) where
    ne_numbers :
        (i : ℕ) (order : List ℕ)
        → i < length plaintexts
        → All (λ j. j < length plaintexts) order
        → All (λ j. i ≢ j) order
        → All
            (λ e. number (get_or (deliveries r 0 plaintexts) i blank) ≢ number e)
            (pick (deliveries r 0 plaintexts) order)
    ne_numbers i [] h below ne = tt
    ne_numbers i (j ∷ order) h below ne =
        let (_, at_i, _) = deliveries-IsSent r 0 i plaintexts fits h in
        let (_, at_j, _) = deliveries-IsSent r 0 j plaintexts fits below.0 in
        (λ e. ne.0 (omega arith), ne_numbers i order h below.1 ne.1)

    deliveries-IsSelection :
        (order : List ℕ)
        → All (λ j. j < length plaintexts) order
        → NoRepeat order
        → IsSelection (deliveries r 0 plaintexts) plaintexts order
    deliveries-IsSelection [] below once = record {
      all_sent = tt;
      in_range = tt;
      distinct = tt;
      same = refl;
    }
    deliveries-IsSelection (i ∷ order) below once =
        let (sent, at, same) = deliveries-IsSent r 0 i plaintexts fits below.0 in
        let rest = deliveries-IsSelection order below.1 once.1 in
        record {
          all_sent = (sent, rest.all_sent);
          in_range = (omega arith, rest.in_range);
          distinct = (ne_numbers i order below.0 below.1 once.0, rest.distinct);
          same = ap₂ (λ (x : Bytes) (xs : List (CryptoResult Bytes)). ok x ∷ xs) same rest.same;
        }

  -- A sender and a receiver whose chains start at the same key: up to 1001 messages are all
  -- encrypted, and any selection of them, delivered in any order and none twice, is decrypted to
  -- the plaintexts of the places selected.
  pub send_all-receive_all :
      (sender receiver : DoubleRatchet) (plaintexts : List Bytes) (order : List ℕ)
      → sender.sending_chain.chain_key ≡ some (chain_at laws start 0)
      → receiver.receiving_chain.chain_key ≡ some (chain_at laws start 0)
      → receiver.receiving_chain.skipped_message_keys ≡ []
      → All (λ x. length x ≤ aead_limit) plaintexts
      → length plaintexts ≤ suc max_skip_messages
      → All (λ i. i < length plaintexts) order
      → NoRepeat order
      → (sent : List Delivery) × (send_all sender plaintexts ≡ ok sent)
        × (receive_all receiver (pick sent order) ≡ map (λ i. ok (get_or plaintexts i [])) order)
  send_all-receive_all sender receiver plaintexts order s r skipped fits few below once =
      let selected = deliveries-IsSelection sender plaintexts fits few order below once in
      (
        deliveries sender 0 plaintexts,
        send_all_lem sender 0 plaintexts s (omega arith) fits,
        receive_all-any_order laws json_laws start receiver
              (pick (deliveries sender 0 plaintexts) order) r skipped selected.all_sent
              selected.in_range selected.distinct
            ∙ selected.same,
      )
