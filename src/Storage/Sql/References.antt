-- ===== src/Storage/Sql/References.antt =====
-- Conditions on all rows of a table, and references to a row, under the statements that write.
use presidium.Base.{
  ◌≡◌, refl, Bool, true, false, none, some, List, [], ◌∷◌, ◌++◌, All, arith, Bool-cases, inl, inr,
  subst, if◌then◌else◌,
}
use presidium.Storage.Sql.{KeyEq, select, update, exists, first, has_key, find, upsert}
use presidium.Storage.Sql.Keyed.{IsKeyed}
use presidium.Storage.Sql.Sorted.{All-map}

module _ {R : Type 0} where
  pub All-append : (P : R → Type 0) (xs : List R) (y : R) → All P xs → P y → All P (xs ++ y ∷ [])
  All-append P [] y h py = (py, tt)
  All-append P (x ∷ xs) y (here, h) py = (here, All-append P xs y h py)

  pub All-update :
      (P : R → Type 0) (p : R → Bool) (f : R → R) (rs : List R)
      → ((r : R) → P r → P (f r))
      → All P rs
      → All P (update p f rs)
  All-update P p f [] keeps h = tt
  All-update P p f (r ∷ rs) keeps (here, h) = elim (Bool-cases (p r)) [
    | inl e ↦ rw e (keeps r here, All-update P p f rs keeps h)
    | inr e ↦ rw e (here, All-update P p f rs keeps h)
  ]

  pub exists-append :
      (p : R → Bool) (xs : List R) (y : R) → exists p xs ≡ true → exists p (xs ++ y ∷ []) ≡ true
  exists-append p [] y h = cc
  exists-append p (x ∷ xs) y h = ground (arith, exists-append p xs y)

  pub exists-update :
      (p q : R → Bool) (f : R → R) (rs : List R)
      → ((r : R) → p (f r) ≡ p r)
      → exists p rs ≡ true
      → exists p (update q f rs) ≡ true
  exists-update p q f [] keeps h = h
  exists-update p q f (r ∷ rs) keeps h = ground (arith, keeps r, exists-update p q f rs keeps)

module _ {R : Type 0} where
  pub All-zip : (P Q : R → Type 0) (rs : List R) → All P rs → All Q rs → All (λ r. P r × Q r) rs
  All-zip P Q [] h k = tt
  All-zip P Q (r ∷ rs) (p, h) (q, k) = ((p, q), All-zip P Q rs h k)

  pub select-All : (p : R → Bool) (rs : List R) → All (λ r. p r ≡ true) (select p rs)
  select-All p [] = tt
  select-All p (r ∷ rs) = elim (Bool-cases (p r)) [
    | inl e ↦ rw e (e, select-All p rs)
    | inr e ↦ rw e (select-All p rs)
  ]

  pub All-select-inv :
      (P : R → Type 0) (p : R → Bool) (rs : List R)
      → All P (select p rs)
      → All (λ r. p r ≡ true → P r) rs
  All-select-inv P p [] h = tt
  All-select-inv P p (r ∷ rs) h = elim (Bool-cases (p r)) [
    | inl e ↦
        let (here, rest) = subst (λ b. All P (if b then r ∷ select p rs else select p rs)) e h in
        (λ same. here, All-select-inv P p rs rest)
    | inr e ↦ (
      λ same. absurd (ground (arith, e, same)),
      All-select-inv P p rs (subst (λ b. All P (if b then r ∷ select p rs else select p rs)) e h),
    )
  ]

  pub All-first :
      (P : R → Type 0) (p : R → Bool) (rs : List R) (r : R)
      → All P rs
      → first (select p rs) ≡ some r
      → P r
  All-first P p [] r h found = cc
  All-first P p (x ∷ rs) r (here, h) found = elim (Bool-cases (p x)) [
    | inl e ↦ subst P (ground (arith, found, e)) here
    | inr e ↦ All-first P p rs r h (ground (arith, found, e))
  ]

module _ {R K : Type 0} ⦃eq : KeyEq K⦄ (key : R → K) where
  pub All-upsert :
      (P : R → Type 0) (merge : R → R → R) (new : R) (rs : List R)
      → P new
      → ((old : R) → P old → P (merge old new))
      → All P rs
      → All P (upsert key merge new rs)
  All-upsert P merge new [] pn keeps h = (pn, tt)
  All-upsert P merge new (r ∷ rs) pn keeps (here, h) = elim (Bool-cases (has_key key (key new) r)) [
    | inl e ↦ rw e (keeps r here, h)
    | inr e ↦ rw e (here, All-upsert P merge new rs pn keeps h)
  ]

  pub exists-upsert :
      (k : K) (merge : R → R → R) (new : R) (rs : List R)
      → ((old : R) → key (merge old new) ≡ key old)
      → exists (has_key key k) rs ≡ true
      → exists (has_key key k) (upsert key merge new rs) ≡ true
  exists-upsert k merge new [] keeps h = cc
  exists-upsert k merge new (r ∷ rs) keeps h =
      ground (arith, keeps r, exists-upsert k merge new rs keeps)

  pub upsert-exists :
      (merge : R → R → R) (new : R) (rs : List R)
      → ((old : R) → key (merge old new) ≡ key old)
      → exists (has_key key (key new)) (upsert key merge new rs) ≡ true
  upsert-exists merge new [] keeps = ground (arith, eq.same_refl (key new))
  upsert-exists merge new (r ∷ rs) keeps = ground (arith, keeps r, upsert-exists merge new rs keeps)

  pub find-exists : (k : K) (rs : List R) → exists (has_key key k) rs ≡ false → find key k rs ≡ none
  find-exists k [] h = refl
  find-exists k (r ∷ rs) h = ground (arith, find-exists k rs)

  -- In a keyed table every row is the row of its key.
  pub IsKeyed-find : (rs : List R) → IsKeyed key rs → All (λ r. find key (key r) rs ≡ some r) rs
  unfolding IsKeyed
  IsKeyed-find [] h = tt
  IsKeyed-find (r ∷ rs) (absent, h) = (
    ground (arith, eq.same_refl (key r)),
    All-map (λ s. find key (key s) rs ≡ some s) (λ s. find key (key s) (r ∷ rs) ≡ some s) rs
        (λ s found. ground (arith, found, absent, eq.same_sound (key r) (key s)))
        (IsKeyed-find rs h),
  )
