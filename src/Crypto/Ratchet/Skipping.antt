-- ===== src/Crypto/Ratchet/Skipping.antt =====
-- The `while` loop of `DoubleRatchet::decrypt`, and the store of skipped message keys.
use mathlib.Core.List.{append_assoc, append-nil}
use native.Mathlib.Decide.{dec_le}
use presidium.Base.{
  ℕ, zero, suc, ◌+◌, ◌≤◌, ◌<◌, ◌≡◌, refl, ap, ◌∙◌, inl, inr, some, none, ok, err, List, [], ◌∷◌,
  ◌++◌, Bool-cases, Result-cases, length, length-append, All, ◌==◌, arith, true, false, ltb,
}
use presidium.Base.Words.{IsU64}
use presidium.Crypto.Constants.{Bytes, max_skip_messages}
use presidium.Crypto.Error.{CryptoError, ratchet_error}
use presidium.Crypto.Primitives.{Primitives, PrimitiveLaws}
use presidium.Crypto.Ratchet.{ChainKey, find_skipped, message_key}
use presidium.Crypto.Ratchet.Messages.{skip_round, skip_loop}
use presidium.Crypto.Ratchet.Stream.{chain_at, message_key_at, message_key_lem, next_lem}

abbrev pub Skipped : Type 0
Skipped = List (ℕ × Bytes)

pub find_skipped-append :
    (n : ℕ) (xs ys : Skipped)
    → find_skipped n xs ≡ none
    → find_skipped n (xs ++ ys) ≡ find_skipped n ys
unfolding find_skipped
find_skipped-append n [] ys h = refl
find_skipped-append n ((i, k) ∷ xs) ys h = ground (arith, find_skipped-append n xs ys)

pub find_skipped-append_left :
    (n : ℕ) (xs ys : Skipped) {key : Bytes}
    → find_skipped n xs ≡ some key
    → find_skipped n (xs ++ ys) ≡ some key
unfolding find_skipped
find_skipped-append_left n [] ys h = cc
find_skipped-append_left n ((i, k) ∷ xs) ys {key} h = elim (Bool-cases (i == n)) [
  | inl hit ↦ ground arith
  | inr miss ↦
      let stored : find_skipped n xs ≡ some key = ground arith in
      ground (arith, find_skipped-append_left n xs ys stored)
]

-- No key is stored for an index that no entry has.
pub find_skipped_above : (n : ℕ) (xs : Skipped) → All (λ e. e.0 < n) xs → find_skipped n xs ≡ none
unfolding find_skipped
find_skipped_above n [] h = refl
find_skipped_above n ((i, k) ∷ xs) h = ground (arith, find_skipped_above n xs h.1)

skip_round_bounded :
    ⦃p : Primitives⦄ (chain : ChainKey) (skipped : Skipped)
    → (length (skip_round chain skipped).0.1 ≤ suc (length skipped))
      × ((skip_round chain skipped).1 ≡ ok tt
          → length (skip_round chain skipped).0.1 ≤ max_skip_messages)
unfolding skip_round
skip_round_bounded chain skipped = elim (Result-cases (message_key chain)) [
  | inr (e, q) ↦ ground arith
  | inl (key, q) ↦ ground (arith, length-append skipped ((key.index, key.key) ∷ []))
]

-- A round of the loop, by the outcome of its body.
skip_loop-ok :
    ⦃p : Primitives⦄ (rounds : ℕ) (chain chain' : ChainKey) (skipped skipped' : Skipped)
    → skip_round chain skipped ≡ ((chain', skipped'), ok tt)
    → skip_loop (suc rounds) chain skipped ≡ skip_loop rounds chain' skipped'
unfolding skip_loop
skip_loop-ok rounds chain chain' skipped skipped' e = ground arith

skip_loop-err :
    ⦃p : Primitives⦄ (rounds : ℕ) (chain chain' : ChainKey) (skipped skipped' : Skipped)
    (x : CryptoError)
    → skip_round chain skipped ≡ ((chain', skipped'), err x)
    → skip_loop (suc rounds) chain skipped ≡ ((chain', skipped'), err x)
unfolding skip_loop
skip_loop-err rounds chain chain' skipped skipped' x e = ground arith

-- Whatever the primitives do, the loop stores at most one key beyond the limit, or beyond what was
-- stored before it.
pub skip_loop_bounded :
    ⦃p : Primitives⦄ (rounds bound : ℕ) (chain : ChainKey) (skipped : Skipped)
    → max_skip_messages ≤ bound
    → length skipped ≤ bound
    → length (skip_loop rounds chain skipped).0.1 ≤ suc bound
unfolding skip_loop
skip_loop_bounded zero bound chain skipped h l = omega arith
skip_loop_bounded (suc rounds) bound chain skipped h l =
    let (stored, went_on) = skip_round_bounded chain skipped in
    elim (Result-cases (skip_round chain skipped).1) [
      | inr (e, q) ↦ rw (q, skip_loop) (omega arith)
      | inl (u, q) ↦
          rw (q, skip_loop)
            (skip_loop_bounded rounds bound (skip_round chain skipped).0.0
              (skip_round chain skipped).0.1 h (omega (arith, went_on q)))
    ]

module _ ⦃p : Primitives⦄ (laws : PrimitiveLaws p) where
  -- The stored form of the `count` message keys from index `m` on.
  pub keys_from : Bytes → ℕ → ℕ → Skipped
  keys_from start m zero = []
  keys_from start m (suc count) = (m, message_key_at laws start m) ∷ keys_from start (suc m) count

  pub length-keys_from : (start : Bytes) (m count : ℕ) → length (keys_from start m count) ≡ count
  unfolding keys_from
  length-keys_from start m zero = refl
  length-keys_from start m (suc count) = ap suc (length-keys_from start (suc m) count)

  -- Every index from `m` below `m + count` is found, with its key.
  pub find_skipped-keys_from :
      (start : Bytes) (m count n : ℕ)
      → m ≤ n
      → n < m + count
      → find_skipped n (keys_from start m count) ≡ some (message_key_at laws start n)
  unfolding keys_from find_skipped
  find_skipped-keys_from start m zero n h l = absurd (omega arith)
  find_skipped-keys_from start m (suc count) n h l =
      ground (arith, find_skipped-keys_from start (suc m) count n)

  -- No other index is.
  pub find_skipped-keys_from_outside :
      (start : Bytes) (m count n : ℕ)
      → m + count ≤ n
      → find_skipped n (keys_from start m count) ≡ none
  unfolding keys_from find_skipped
  find_skipped-keys_from_outside start m zero n h = refl
  find_skipped-keys_from_outside start m (suc count) n h =
      ground (arith, find_skipped-keys_from_outside start (suc m) count n)

  skip_round_room :
      (start : Bytes) (m : ℕ) (skipped : Skipped)
      → IsU64 (suc m)
      → length skipped < max_skip_messages
      → skip_round (chain_at laws start m) skipped
        ≡ ((chain_at laws start (suc m), skipped ++ (m, message_key_at laws start m) ∷ []), ok tt)
  unfolding skip_round
  skip_round_room start m skipped u h =
      let room : ltb max_skip_messages (length (skipped ++ (m, message_key_at laws start m) ∷ []))
          ≡ false =
        ground (arith, length-append skipped ((m, message_key_at laws start m) ∷ [])) in
      rw (message_key_lem laws start m, skip_round) (rw room (rw (next_lem laws start m u)))

  skip_round_full :
      (start : Bytes) (m : ℕ) (skipped : Skipped)
      → max_skip_messages ≤ length skipped
      → skip_round (chain_at laws start m) skipped ≡ (
        (chain_at laws start m, skipped ++ (m, message_key_at laws start m) ∷ []),
        err (ratchet_error "Too many skipped messages"),
      )
  unfolding skip_round
  skip_round_full start m skipped h =
      let full : ltb max_skip_messages (length (skipped ++ (m, message_key_at laws start m) ∷ []))
          ≡ true =
        ground (arith, length-append skipped ((m, message_key_at laws start m) ∷ [])) in
      rw (message_key_lem laws start m, skip_round) (rw full)

  -- With room for the keys, the loop stores all of them and leaves the chain at the message's index.
  pub skip_loop_room :
      (start : Bytes) (rounds m n : ℕ) (skipped : Skipped)
      → m + rounds ≡ n
      → IsU64 n
      → length skipped + rounds ≤ max_skip_messages
      → skip_loop rounds (chain_at laws start m) skipped
        ≡ ((chain_at laws start n, skipped ++ keys_from start m rounds), ok tt)
  unfolding skip_loop keys_from
  skip_loop_room start zero m n skipped e u h =
      let q : m ≡ n = omega arith in rw (append-nil skipped) (rw q)
  skip_loop_room start (suc rounds) m n skipped e u h =
      rw (skip_loop-ok rounds _ _ _ _ (skip_round_room start m skipped (omega arith) (omega arith)))
        (skip_loop_room start rounds (suc m) n (skipped ++ (m, message_key_at laws start m) ∷ [])
            (omega arith) u
            (omega (arith, length-append skipped ((m, message_key_at laws start m) ∷ [])))
          ∙ rw append_assoc)

  -- Without it, the loop fails, and one key more than the limit stays stored.
  pub skip_loop_full :
      (start : Bytes) (rounds m : ℕ) (skipped : Skipped)
      → IsU64 (m + rounds)
      → length skipped ≤ max_skip_messages
      → max_skip_messages < length skipped + rounds
      → ((skip_loop rounds (chain_at laws start m) skipped).1
          ≡ err (ratchet_error "Too many skipped messages"))
        × (length (skip_loop rounds (chain_at laws start m) skipped).0.1 ≡ suc max_skip_messages)
  unfolding skip_loop
  skip_loop_full start zero m skipped u l h = absurd (omega arith)
  skip_loop_full start (suc rounds) m skipped u l h =
      elim (dec_le max_skip_messages (length skipped)) [
        | yes full ↦
            rw (skip_loop-err rounds _ _ _ _ _ (skip_round_full start m skipped full))
              (refl, omega (arith, length-append skipped ((m, message_key_at laws start m) ∷ [])))
        | no room ↦
            rw
              (skip_loop-ok rounds _ _ _ _
                (skip_round_room start m skipped (omega arith) (omega arith)))
              (skip_loop_full start rounds (suc m)
                (skipped ++ (m, message_key_at laws start m) ∷ []) (omega arith)
                (omega (arith, length-append skipped ((m, message_key_at laws start m) ∷ [])))
                (omega (arith, length-append skipped ((m, message_key_at laws start m) ∷ []))))
      ]

  -- With no room left, the loop fails at its first key, which stays stored.
  pub skip_loop_full_lem :
      (start : Bytes) (rounds m : ℕ) (skipped : Skipped)
      → 0 < rounds
      → max_skip_messages ≤ length skipped
      → skip_loop rounds (chain_at laws start m) skipped ≡ (
        (chain_at laws start m, skipped ++ (m, message_key_at laws start m) ∷ []),
        err (ratchet_error "Too many skipped messages"),
      )
  skip_loop_full_lem start zero m skipped h full = absurd (omega arith)
  skip_loop_full_lem start (suc rounds) m skipped h full =
      skip_loop-err rounds _ _ _ _ _ (skip_round_full start m skipped full)
