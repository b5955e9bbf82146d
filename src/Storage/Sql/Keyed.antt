-- ===== src/Storage/Sql/Keyed.antt =====
-- Statements on a table with a key: what the row of each key is afterwards, and that no key stands twice.
use presidium.Base.{
  ◌≡◌, refl, sym, ◌∙◌, Bool, false, Option, none, some, List, [], ◌∷◌, ◌++◌, arith, ◌≢◌, Bool-cases,
  inl, inr,
}
use presidium.Storage.Sql.{select, delete, update, first, KeyEq, has_key, find, upsert, replace}

module _ {R : Type 0} where
  -- What `ON CONFLICT DO UPDATE` leaves of the old row.
  abbrev pub merged : (R → R → R) → Option R → R → R
  merged merge none new = new
  merged merge (some old) new = merge old new

  -- Keeping more rows out keeps an absent one absent.
  first-select-select :
      (p q : R → Bool) (rs : List R)
      → first (select p rs) ≡ none
      → first (select p (select q rs)) ≡ none
  first-select-select p q [] h = refl
  first-select-select p q (r ∷ rs) h = ground (arith, first-select-select p q rs)

  pub first-append :
      (p : R → Bool) (xs ys : List R)
      → first (select p xs) ≡ none
      → first (select p (xs ++ ys)) ≡ first (select p ys)
  first-append p [] ys h = refl
  first-append p (x ∷ xs) ys h = ground (arith, first-append p xs ys)

module _ {R K : Type 0} ⦃eq : KeyEq K⦄ (key : R → K) where
  pub same-≢ : (k l : K) → k ≢ l → eq.same k l ≡ false
  same-≢ k l h = elim (Bool-cases (eq.same k l)) [
    | inl e ↦ absurd (h (eq.same_sound k l e))
    | inr e ↦ e
  ]

  -- The row of the key inserted.
  pub find-upsert :
      (merge : R → R → R) (new : R) (rs : List R)
      → ((old : R) → key (merge old new) ≡ key old)
      → find key (key new) (upsert key merge new rs)
        ≡ some (merged merge (find key (key new) rs) new)
  find-upsert merge new [] h = ground (arith, eq.same_refl (key new))
  find-upsert merge new (r ∷ rs) h = ground (arith, h r, find-upsert merge new rs h)

  -- The rows of the other keys.
  pub find-upsert-other :
      (merge : R → R → R) (new : R) (rs : List R) (k : K)
      → ((old : R) → key (merge old new) ≡ key old)
      → k ≢ key new
      → find key k (upsert key merge new rs) ≡ find key k rs
  find-upsert-other merge new [] k h d = ground (arith, same-≢ (key new) k (λ e. d (sym e)))
  find-upsert-other merge new (r ∷ rs) k h d = ground (
    arith,
    h r,
    find-upsert-other merge new rs k h d,
    eq.same_sound (key r) k,
    eq.same_sound (key r) (key new),
  )

  pub find-delete : (k : K) (rs : List R) → find key k (delete (has_key key k) rs) ≡ none
  find-delete k [] = refl
  find-delete k (r ∷ rs) = ground (arith, find-delete k rs)

  pub find-delete-other :
      (k l : K) (rs : List R) → l ≢ k → find key l (delete (has_key key k) rs) ≡ find key l rs
  find-delete-other k l [] d = refl
  find-delete-other k l (r ∷ rs) d =
      ground (arith, find-delete-other k l rs d, eq.same_sound (key r) k, eq.same_sound (key r) l)

  pub find-replace : (new : R) (rs : List R) → find key (key new) (replace key new rs) ≡ some new
  find-replace new rs = ground (
    arith,
    first-append (has_key key (key new)) (delete (has_key key (key new)) rs) (new ∷ [])
        (find-delete (key new) rs),
    eq.same_refl (key new),
  )

  pub find-append-other :
      (k : K) (new : R) (rs : List R) → k ≢ key new → find key k (rs ++ new ∷ []) ≡ find key k rs
  find-append-other k new [] d = ground (arith, same-≢ (key new) k (λ e. d (sym e)))
  find-append-other k new (r ∷ rs) d = ground (arith, find-append-other k new rs d)

  pub find-replace-other :
      (new : R) (rs : List R) (k : K)
      → k ≢ key new
      → find key k (replace key new rs) ≡ find key k rs
  find-replace-other new rs k d =
      find-append-other k new (delete (has_key key (key new)) rs) d
      ∙ find-delete-other (key new) k rs d

  -- No key stands twice.
  unfoldable pub IsKeyed : List R → Type 0
  IsKeyed [] = Unit
  IsKeyed (r ∷ rs) = (find key (key r) rs ≡ none) × IsKeyed rs

  pub select-IsKeyed : (p : R → Bool) (rs : List R) → IsKeyed rs → IsKeyed (select p rs)
  unfolding IsKeyed
  select-IsKeyed p [] h = tt
  select-IsKeyed p (r ∷ rs) (absent, h) = elim (Bool-cases (p r)) [
    | inl e ↦ rw e (first-select-select (has_key key (key r)) p rs absent, select-IsKeyed p rs h)
    | inr e ↦ rw e (select-IsKeyed p rs h)
  ]

  pub append-IsKeyed :
      (new : R) (rs : List R) → find key (key new) rs ≡ none → IsKeyed rs → IsKeyed (rs ++ new ∷ [])
  unfolding IsKeyed
  append-IsKeyed new [] absent h = (refl, tt)
  append-IsKeyed new (r ∷ rs) absent (other, h) = elim (Bool-cases (has_key key (key new) r)) [
    | inl e ↦ absurd (ground (arith, absent, e))
    | inr e ↦ (
      find-append-other (key r) new rs
            (λ same. absurd (ground (arith, e, eq.same_refl (key new), same)))
          ∙ other,
      append-IsKeyed new rs (ground (arith, absent, e)) h,
    )
  ]

  pub upsert-IsKeyed :
      (merge : R → R → R) (new : R) (rs : List R)
      → ((old : R) → key (merge old new) ≡ key old)
      → IsKeyed rs
      → IsKeyed (upsert key merge new rs)
  unfolding IsKeyed
  upsert-IsKeyed merge new [] keeps h = (refl, tt)
  upsert-IsKeyed merge new (r ∷ rs) keeps (absent, h) =
      elim (Bool-cases (has_key key (key new) r)) [
        | inl e ↦ rw e (rw (keeps r) absent, h)
        | inr e ↦ rw e (
          find-upsert-other merge new rs (key r) keeps
                (λ same. absurd (ground (arith, e, eq.same_refl (key new), same)))
              ∙ absent,
          upsert-IsKeyed merge new rs keeps h,
        )
      ]

  -- An update that leaves the keys alone.
  find-update :
      (p : R → Bool) (f : R → R) (rs : List R) (k : K)
      → ((r : R) → key (f r) ≡ key r)
      → find key k rs ≡ none
      → find key k (update p f rs) ≡ none
  find-update p f [] k keeps h = refl
  find-update p f (r ∷ rs) k keeps h = ground (arith, keeps r, find-update p f rs k keeps)

  pub update-IsKeyed :
      (p : R → Bool) (f : R → R) (rs : List R)
      → ((r : R) → key (f r) ≡ key r)
      → IsKeyed rs
      → IsKeyed (update p f rs)
  unfolding IsKeyed
  update-IsKeyed p f [] keeps h = tt
  update-IsKeyed p f (r ∷ rs) keeps (absent, h) = elim (Bool-cases (p r)) [
    | inl e ↦
        rw (e, keeps r) (find-update p f rs (key r) keeps absent, update-IsKeyed p f rs keeps h)
    | inr e ↦ rw e (find-update p f rs (key r) keeps absent, update-IsKeyed p f rs keeps h)
  ]
