-- ===== src/Storage/Sql.antt =====
-- The clauses of SQL that the statements of presidium-storage/src/store.rs are written in. A table is the
-- list of its rows, in the order in which they were inserted.
pub mod Keyed
pub mod Maps
pub mod Sorted
pub mod References
use presidium.Base.{
  ℕ, ◌≡◌, refl, Bool, true, false, not, ◌&&◌, ◌||◌, Option, none, some, List, [], ◌∷◌, ◌++◌, ◌==◌,
  ==_refl, bytes_eq, bytes_eq_refl, bytes_eq_sound, if◌then◌else◌, arith,
}
use presidium.Crypto.Constants.{Bytes}

module _ {R : Type 0} where
  -- `SELECT .. WHERE p`.
  abbrev pub select : (R → Bool) → List R → List R
  select p [] = []
  select p (r ∷ rs) = let rest = select p rs in if p r then r ∷ rest else rest

  -- `DELETE .. WHERE p`.
  abbrev pub delete : (R → Bool) → List R → List R
  delete p rs = select (λ r. not (p r)) rs

  -- `UPDATE .. SET f WHERE p`.
  abbrev pub update : (R → Bool) → (R → R) → List R → List R
  update p f [] = []
  update p f (r ∷ rs) = (if p r then f r else r) ∷ update p f rs

  -- Whether a row satisfies `p`.
  abbrev pub exists : (R → Bool) → List R → Bool
  exists p [] = false
  exists p (r ∷ rs) = p r || exists p rs

  -- The row that a query of at most one row returns.
  abbrev pub first : List R → Option R
  first [] = none
  first (r ∷ rs) = some r

  -- `ORDER BY`: `le a b` says that `a` may stand before `b`.
  abbrev pub place : (R → R → Bool) → R → List R → List R
  place le x [] = x ∷ []
  place le x (y ∷ ys) = let rest = place le x ys in if le x y then x ∷ y ∷ ys else y ∷ rest

  abbrev pub order_by : (R → R → Bool) → List R → List R
  order_by le [] = []
  order_by le (x ∷ xs) = place le x (order_by le xs)

-- Keys that are compared by a test.
pub record KeyEq (K : Type 0) : Type 0 where
  pub same : K → K → Bool
  pub same_refl : (k : K) → same k k ≡ true
  pub same_sound : (k l : K) → same k l ≡ true → k ≡ l

pub ==_sound : (k l : ℕ) → (k == l) ≡ true → k ≡ l
==_sound k l h = ground arith

instance abbrev pub integer_key : KeyEq ℕ
integer_key = record { same = ◌==◌; same_refl = ==_refl; same_sound = ==_sound }

instance abbrev pub bytes_key : KeyEq Bytes
bytes_key = record { same = bytes_eq; same_refl = bytes_eq_refl; same_sound = bytes_eq_sound }

abbrev pub both : Bytes × Bytes → Bytes × Bytes → Bool
both (a, b) (c, d) = bytes_eq a c && bytes_eq b d

pub both_refl : (k : Bytes × Bytes) → both k k ≡ true
both_refl (a, b) = ground (arith, bytes_eq_refl a, bytes_eq_refl b)

pub both_sound : (k l : Bytes × Bytes) → both k l ≡ true → k ≡ l
both_sound (a, b) (c, d) h = ground (arith, bytes_eq_sound a c, bytes_eq_sound b d)

-- A primary key or a unique index of two columns.
instance abbrev pub pair_key : KeyEq (Bytes × Bytes)
pair_key = record { same = both; same_refl = both_refl; same_sound = both_sound }

module _ {R K : Type 0} ⦃eq : KeyEq K⦄ (key : R → K) where
  abbrev pub has_key : K → R → Bool
  has_key k r = eq.same (key r) k

  -- The row of a key.
  abbrev pub find : K → List R → Option R
  find k rs = first (select (has_key k) rs)

  -- `INSERT .. ON CONFLICT(key) DO UPDATE SET ..`: `merge old new` is the row after the update.
  abbrev pub upsert : (R → R → R) → R → List R → List R
  upsert merge new [] = new ∷ []
  upsert merge new (r ∷ rs) =
      let rest = upsert merge new rs in if has_key (key new) r then merge r new ∷ rs else r ∷ rest

  -- `INSERT OR REPLACE`.
  abbrev pub replace : R → List R → List R
  replace new rs = delete (has_key (key new)) rs ++ new ∷ []
