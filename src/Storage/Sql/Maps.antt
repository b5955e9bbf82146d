-- ===== src/Storage/Sql/Maps.antt =====
-- The rows of a table as a function of their keys, and what the statements of SQL change of it.
use presidium.Base.{
  ◌≡◌, ◌≢◌, refl, Bool, true, false, Option, none, some, List, [], ◌∷◌, ◌++◌, ◌||◌, if◌then◌else◌,
  arith, Bool-cases, inl, inr,
}
use mathlib.Core.Path.{fun_ext}
use mathlib.Core.Option.{map as map_option}
use presidium.Storage.Sql.{
  integer_key, bytes_key, pair_key, KeyEq, delete, update, exists, has_key, find, upsert, replace,
}
use presidium.Storage.Sql.Keyed.{
  merged, first-append, find-append-other, find-upsert, find-upsert-other, find-delete,
  find-delete-other, find-replace, find-replace-other,
}

-- Whether a key has a row.
abbrev pub present {ℓ} : {R : Type ℓ} → Option R → Bool
present none = false
present (some r) = true

module _ {R : Type 0} where
  pub exists-append_same :
      (p : R → Bool) (rs : List R) (new : R) → exists p (rs ++ new ∷ []) ≡ (exists p rs || p new)
  exists-append_same p [] new = ground arith
  exists-append_same p (r ∷ rs) new = ground (arith, exists-append_same p rs new)

  pub exists-update_same :
      (p q : R → Bool) (f : R → R) (rs : List R)
      → ((r : R) → p (f r) ≡ p r)
      → exists p (update q f rs) ≡ exists p rs
  exists-update_same p q f [] keeps = refl
  exists-update_same p q f (r ∷ rs) keeps =
      ground (arith, keeps r, exists-update_same p q f rs keeps)

module _ {R K : Type 0} ⦃eq : KeyEq K⦄ where
  -- A function changed at one key.
  abbrev pub set : K → Option R → (K → Option R) → K → Option R
  set k value f l = if eq.same l k then value else f l

  set_unique :
      (k : K) (value : Option R) (f g : K → Option R)
      → g k ≡ value
      → ((l : K) → l ≢ k → g l ≡ f l)
      → g ≡ set k value f
  set_unique k value f g at_k other = fun_ext (λ l. elim (Bool-cases (eq.same l k)) [
    | inl e ↦ rw (e, eq.same_sound l k e) at_k
    | inr e ↦ rw e (other l (λ same. absurd (ground (arith, e, same, eq.same_refl k))))
  ])

  abbrev pub rows_of : (R → K) → List R → K → Option R
  rows_of key rs k = find key k rs

  pub find-updated :
      (key : R → K) (k : K) (f : R → R) (rs : List R)
      → ((r : R) → key (f r) ≡ key r)
      → find key k (update (has_key key k) f rs) ≡ map_option f (find key k rs)
  find-updated key k f [] keeps = refl
  find-updated key k f (r ∷ rs) keeps = elim (Bool-cases (has_key key k r)) [
    | inl e ↦ ground (arith, e, keeps r)
    | inr e ↦ ground (arith, e, find-updated key k f rs keeps)
  ]

  pub find-not-updated :
      (key : R → K) (k l : K) (f : R → R) (rs : List R)
      → ((r : R) → key (f r) ≡ key r)
      → l ≢ k
      → find key l (update (has_key key k) f rs) ≡ find key l rs
  find-not-updated key k l f [] keeps d = refl
  find-not-updated key k l f (r ∷ rs) keeps d =
      let later = find-not-updated key k l f rs keeps d in
      elim (Bool-cases (has_key key k r)) [
        | inl e ↦
            let at_k : key r ≡ k = eq.same_sound (key r) k e in
            elim (Bool-cases (has_key key l r)) [
              | inl same ↦ absurd (d (ground (arith, at_k, eq.same_sound (key r) l same)))
              | inr other ↦ ground (arith, e, other, keeps r, later)
            ]
        | inr e ↦ ground (arith, e, later)
      ]

  pub rows_of-upsert :
      (key : R → K) (merge : R → R → R) (new : R) (rs : List R)
      → ((old : R) → key (merge old new) ≡ key old)
      → rows_of key (upsert key merge new rs)
        ≡ set (key new) (some (merged merge (rows_of key rs (key new)) new)) (rows_of key rs)
  rows_of-upsert key merge new rs keeps =
      set_unique (key new) (some (merged merge (find key (key new) rs) new)) (rows_of key rs)
        (rows_of key (upsert key merge new rs)) (find-upsert key merge new rs keeps)
        (λ l d. find-upsert-other key merge new rs l keeps d)

  pub rows_of-replace :
      (key : R → K) (new : R) (rs : List R)
      → rows_of key (replace key new rs) ≡ set (key new) (some new) (rows_of key rs)
  rows_of-replace key new rs =
      set_unique (key new) (some new) (rows_of key rs) (rows_of key (replace key new rs))
        (find-replace key new rs) (λ l d. find-replace-other key new rs l d)

  pub rows_of-delete :
      (key : R → K) (k : K) (rs : List R)
      → rows_of key (delete (has_key key k) rs) ≡ set k none (rows_of key rs)
  rows_of-delete key k rs =
      set_unique k none (rows_of key rs) (rows_of key (delete (has_key key k) rs))
        (find-delete key k rs) (λ l d. find-delete-other key k l rs d)

  pub rows_of-append :
      (key : R → K) (new : R) (rs : List R)
      → find key (key new) rs ≡ none
      → rows_of key (rs ++ new ∷ []) ≡ set (key new) (some new) (rows_of key rs)
  rows_of-append key new rs absent =
      set_unique (key new) (some new) (rows_of key rs) (rows_of key (rs ++ new ∷ []))
        (ground (
          arith,
          first-append (has_key key (key new)) rs (new ∷ []) absent,
          eq.same_refl (key new),
        ))
        (λ l d. find-append-other key l new rs d)

  pub rows_of-update :
      (key : R → K) (k : K) (f : R → R) (rs : List R)
      → ((r : R) → key (f r) ≡ key r)
      → rows_of key (update (has_key key k) f rs)
        ≡ set k (map_option f (find key k rs)) (rows_of key rs)
  rows_of-update key k f rs keeps =
      set_unique k (map_option f (find key k rs)) (rows_of key rs)
        (rows_of key (update (has_key key k) f rs)) (find-updated key k f rs keeps)
        (λ l d. find-not-updated key k l f rs keeps d)

  pub exists-find :
      (key : R → K) (k : K) (rs : List R) → exists (has_key key k) rs ≡ present (find key k rs)
  exists-find key k [] = refl
  exists-find key k (r ∷ rs) = ground (arith, exists-find key k rs)
