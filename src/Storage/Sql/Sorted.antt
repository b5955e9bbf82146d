-- ===== src/Storage/Sql/Sorted.antt =====
-- `ORDER BY`: the rows come out sorted, they are the rows that went in, and a selection may be made
-- before or after.
use presidium.Base.{
  ◌≡◌, refl, Bool, true, false, none, List, [], ◌∷◌, arith, Bool-cases, inl, inr, All, length, suc,
  ◌&&◌, subst, if◌then◌else◌,
}
use presidium.Storage.Sql.{select, delete, place, order_by, KeyEq, has_key, find}
use presidium.Storage.Sql.Keyed.{IsKeyed}

module _ {R : Type 0} where
  pub select-select :
      (p q : R → Bool) (rs : List R) → select p (select q rs) ≡ select q (select p rs)
  select-select p q [] = refl
  select-select p q (r ∷ rs) = ground (arith, select-select p q rs)

  pub select-both :
      (p q : R → Bool) (rs : List R) → select (λ r. p r && q r) rs ≡ select q (select p rs)
  select-both p q [] = refl
  select-both p q (r ∷ rs) = ground (arith, select-both p q rs)

  pub All-select : (P : R → Type 0) (p : R → Bool) (rs : List R) → All P rs → All P (select p rs)
  All-select P p [] h = tt
  All-select P p (r ∷ rs) (here, h) = elim (Bool-cases (p r)) [
    | inl e ↦ rw e (here, All-select P p rs h)
    | inr e ↦ rw e (All-select P p rs h)
  ]

  pub All-map : (P Q : R → Type 0) (rs : List R) → ((r : R) → P r → Q r) → All P rs → All Q rs
  All-map P Q [] f h = tt
  All-map P Q (r ∷ rs) f (here, h) = (f r here, All-map P Q rs f h)

module _ {R : Type 0} (le : R → R → Bool) where
  All-place : (P : R → Type 0) (x : R) (ys : List R) → P x → All P ys → All P (place le x ys)
  All-place P x [] px h = (px, tt)
  All-place P x (y ∷ ys) px (here, h) = elim (Bool-cases (le x y)) [
    | inl e ↦ rw e (px, (here, h))
    | inr e ↦ rw e (here, All-place P x ys px h)
  ]

  pub All-order_by : (P : R → Type 0) (xs : List R) → All P xs → All P (order_by le xs)
  All-order_by P [] h = tt
  All-order_by P (x ∷ xs) (px, h) = All-place P x (order_by le xs) px (All-order_by P xs h)

  All-place-inv : (P : R → Type 0) (x : R) (ys : List R) → All P (place le x ys) → P x × All P ys
  All-place-inv P x [] (px, h) = (px, tt)
  All-place-inv P x (y ∷ ys) h = elim (Bool-cases (le x y)) [
    | inl e ↦ subst (λ b. All P (if b then x ∷ y ∷ ys else y ∷ place le x ys)) e h
    | inr e ↦
        let (py, rest) = subst (λ b. All P (if b then x ∷ y ∷ ys else y ∷ place le x ys)) e h in
        let (px, others) = All-place-inv P x ys rest in (px, (py, others))
  ]

  -- What holds of all rows that come out holds of all that went in.
  pub All-order_by-inv : (P : R → Type 0) (xs : List R) → All P (order_by le xs) → All P xs
  All-order_by-inv P [] h = tt
  All-order_by-inv P (x ∷ xs) h =
      let (px, others) = All-place-inv P x (order_by le xs) h in (px, All-order_by-inv P xs others)

  length-place : (x : R) (ys : List R) → length (place le x ys) ≡ suc (length ys)
  length-place x [] = refl
  length-place x (y ∷ ys) = ground (arith, length-place x ys)

  pub length-order_by : (xs : List R) → length (order_by le xs) ≡ length xs
  length-order_by [] = refl
  length-order_by (x ∷ xs) = ground (arith, length-place x (order_by le xs), length-order_by xs)

  -- Every row may stand before those behind it.
  unfoldable pub IsSorted : List R → Type 0
  IsSorted [] = Unit
  IsSorted (x ∷ xs) = All (λ y. le x y ≡ true) xs × IsSorted xs

-- A total preorder.
module _ {R : Type 0} (le : R → R → Bool) (total : (a b : R) → le a b ≡ false → le b a ≡ true)
    (trans : (a b c : R) → le a b ≡ true → le b c ≡ true → le a c ≡ true) where
  place-IsSorted : (x : R) (ys : List R) → IsSorted le ys → IsSorted le (place le x ys)
  unfolding IsSorted
  place-IsSorted x [] h = (tt, tt)
  place-IsSorted x (y ∷ ys) (least, h) = elim (Bool-cases (le x y)) [
    | inl e ↦ rw e (
      (e, All-map (λ z. le y z ≡ true) (λ z. le x z ≡ true) ys (λ z. trans x y z e) least),
      (least, h),
    )
    | inr e ↦
        rw e (All-place le (λ z. le y z ≡ true) x ys (total x y e) least, place-IsSorted x ys h)
  ]

  pub order_by-IsSorted : (xs : List R) → IsSorted le (order_by le xs)
  unfolding IsSorted
  order_by-IsSorted [] = tt
  order_by-IsSorted (x ∷ xs) = place-IsSorted x (order_by le xs) (order_by-IsSorted xs)

  place-first : (x : R) (ys : List R) → All (λ y. le x y ≡ true) ys → place le x ys ≡ x ∷ ys
  place-first x [] h = refl
  place-first x (y ∷ ys) (e, h) = rw e

  select-place :
      (p : R → Bool) (x : R) (ys : List R)
      → IsSorted le ys
      → p x ≡ true
      → select p (place le x ys) ≡ place le x (select p ys)
  unfolding IsSorted
  select-place p x [] h px = rw px
  select-place p x (y ∷ ys) (least, h) px = elim (Bool-cases (le x y)) [
    | inl e ↦
        let before_all : All (λ z. le x z ≡ true) (y ∷ ys) =
          (e, All-map (λ z. le y z ≡ true) (λ z. le x z ≡ true) ys (λ z. trans x y z e) least) in
        rw (e, px)
          (rw (
            place-first x (select p (y ∷ ys))
              (All-select (λ z. le x z ≡ true) p (y ∷ ys) before_all)))
    | inr e ↦ ground (arith, select-place p x ys h px, e)
  ]

  select-place-other :
      (p : R → Bool) (x : R) (ys : List R) → p x ≡ false → select p (place le x ys) ≡ select p ys
  select-place-other p x [] px = rw px
  select-place-other p x (y ∷ ys) px = ground (arith, select-place-other p x ys px)

  pub select-order_by :
      (p : R → Bool) (xs : List R) → select p (order_by le xs) ≡ order_by le (select p xs)
  select-order_by p [] = refl
  select-order_by p (x ∷ xs) = ground (
    arith,
    select-place p x (order_by le xs) (order_by-IsSorted xs),
    select-place-other p x (order_by le xs),
    select-order_by p xs,
  )

module _ {R K : Type 0} ⦃eq : KeyEq K⦄ (key : R → K) (le : R → R → Bool) where
  pub delete-absent : (k : K) (rs : List R) → find key k rs ≡ none → delete (has_key key k) rs ≡ rs
  delete-absent k [] h = refl
  delete-absent k (r ∷ rs) h = ground (arith, delete-absent k rs)

  find-place :
      (k : K) (x : R) (ys : List R) → find key k (x ∷ ys) ≡ none → find key k (place le x ys) ≡ none
  find-place k x [] h = h
  find-place k x (y ∷ ys) h = ground (arith, find-place k x ys, h)

  find-order_by : (k : K) (xs : List R) → find key k xs ≡ none → find key k (order_by le xs) ≡ none
  find-order_by k [] h = refl
  find-order_by k (x ∷ xs) h =
      find-place k x (order_by le xs) (ground (arith, find-order_by k xs, h))

  place-IsKeyed :
      (x : R) (ys : List R)
      → find key (key x) ys ≡ none
      → IsKeyed key ys
      → IsKeyed key (place le x ys)
  unfolding IsKeyed
  place-IsKeyed x [] absent h = (absent, tt)
  place-IsKeyed x (y ∷ ys) absent (other, h) = elim (Bool-cases (le x y)) [
    | inl e ↦ rw e (absent, (other, h))
    | inr e ↦ rw e (
      find-place (key y) x ys
          (ground (arith, absent, other, eq.same_sound (key x) (key y), eq.same_refl (key x))),
      place-IsKeyed x ys (ground (arith, absent)) h,
    )
  ]

  pub order_by-IsKeyed : (xs : List R) → IsKeyed key xs → IsKeyed key (order_by le xs)
  unfolding IsKeyed
  order_by-IsKeyed [] h = tt
  order_by-IsKeyed (x ∷ xs) (absent, h) =
      place-IsKeyed x (order_by le xs) (find-order_by (key x) xs absent) (order_by-IsKeyed xs h)
