-- ===== src/Storage/Store/Prekeys.antt =====
-- presidium-storage/src/store.rs: one-time prekeys are handed out in the order of their ids, each of them
-- once.
use presidium.Base.{
  ℕ, zero, suc, ◌-◌, ◌≡◌, refl, sym, ◌∙◌, ap, subst, true, false, not, Option, none, some, List, [],
  ◌∷◌, map, length, take, drop, replicate, ◌++◌, length-drop, arith,
}
use mathlib.Core.Option.{map as map_option}
use presidium.Storage.Models.{PreKeyRecord, one_time}
use presidium.Storage.Tables.{PreKeyRow, Database, prekey_from_row}
use presidium.Storage.Sql.{integer_key, select, delete, first, order_by, has_key}
use presidium.Storage.Sql.Keyed.{IsKeyed, select-IsKeyed}
use presidium.Storage.Sql.Sorted.{
  select-select, select-order_by, delete-absent, order_by-IsKeyed, length-order_by,
}
use presidium.Storage.Store.{
  of_kind, by_key_id, prekeys_of, list_prekeys, count_prekeys, delete_prekey, delete_taken,
  take_one_time_prekey,
}

by_key_id_total : (a b : PreKeyRow) → by_key_id a b ≡ false → by_key_id b a ≡ true
by_key_id_total a b h = ground arith

by_key_id_trans :
    (a b c : PreKeyRow) → by_key_id a b ≡ true → by_key_id b c ≡ true → by_key_id a c ≡ true
by_key_id_trans a b c h k = ground arith

-- The one-time prekeys that are left when one is deleted.
prekeys_of-delete_prekey :
    (key_id : ℕ) (db : Database)
    → prekeys_of one_time (delete_prekey key_id db)
      ≡ delete (has_key PreKeyRow.key_id key_id) (prekeys_of one_time db)
unfolding delete_prekey
prekeys_of-delete_prekey key_id db =
    ap (order_by by_key_id)
      (select-select (of_kind one_time) (λ r. not (has_key PreKeyRow.key_id key_id r)) db.prekeys)
    ∙ sym (
        select-order_by by_key_id by_key_id_total by_key_id_trans
          (λ r. not (has_key PreKeyRow.key_id key_id r)) (select (of_kind one_time) db.prekeys))

abbrev HasPrekeys : Database → List PreKeyRow → Type 0
HasPrekeys db rows = prekeys_of one_time db ≡ rows

prekeys_of-IsKeyed :
    (db : Database)
    → IsKeyed PreKeyRow.key_id db.prekeys
    → IsKeyed PreKeyRow.key_id (prekeys_of one_time db)
prekeys_of-IsKeyed db h =
    order_by-IsKeyed PreKeyRow.key_id by_key_id (select (of_kind one_time) db.prekeys)
      (select-IsKeyed PreKeyRow.key_id (of_kind one_time) db.prekeys h)

delete-head :
    (r : PreKeyRow) (rows : List PreKeyRow)
    → IsKeyed PreKeyRow.key_id (r ∷ rows)
    → delete (has_key PreKeyRow.key_id r.key_id) (r ∷ rows) ≡ rows
unfolding IsKeyed
delete-head r rows (absent, h) =
    ground (arith, delete-absent PreKeyRow.key_id by_key_id r.key_id rows absent)

-- The prekey that is taken is the first one, and the others are left.
take_one_time_prekey_head :
    (db : Database) (r : PreKeyRow) (rows : List PreKeyRow)
    → IsKeyed PreKeyRow.key_id db.prekeys
    → HasPrekeys db (r ∷ rows)
    → ((take_one_time_prekey db).1 ≡ some (prekey_from_row r))
      × HasPrekeys (take_one_time_prekey db).0 rows
unfolding take_one_time_prekey prekey_from_row
take_one_time_prekey_head db r rows h e = (
  rw e,
  rw e (
      prekeys_of-delete_prekey r.key_id db
      ∙ rw e (delete-head r rows (subst (IsKeyed PreKeyRow.key_id) e (prekeys_of-IsKeyed db h)))),
)

take_one_time_prekey_empty :
    (db : Database) → HasPrekeys db [] → take_one_time_prekey db ≡ (db, none)
unfolding take_one_time_prekey
take_one_time_prekey_empty db e = rw e

delete_taken-IsKeyed :
    (taken : Option PreKeyRecord) (db : Database)
    → IsKeyed PreKeyRow.key_id db.prekeys
    → IsKeyed PreKeyRow.key_id (delete_taken taken db).prekeys
unfolding delete_prekey
delete_taken-IsKeyed none db h = h
delete_taken-IsKeyed (some r) db h =
    select-IsKeyed PreKeyRow.key_id (λ s. not (has_key PreKeyRow.key_id r.key_id s)) db.prekeys h

take_one_time_prekey-IsKeyed :
    (db : Database)
    → IsKeyed PreKeyRow.key_id db.prekeys
    → IsKeyed PreKeyRow.key_id (take_one_time_prekey db).0.prekeys
unfolding take_one_time_prekey
take_one_time_prekey-IsKeyed db h =
    delete_taken-IsKeyed (map_option prekey_from_row (first (prekeys_of one_time db))) db h

-- A number of handshakes, each of which takes a one-time prekey.
unfoldable pub take_times : ℕ → Database → Database × List (Option PreKeyRecord)
take_times zero db = (db, [])
take_times (suc n) db =
    let (db', taken) = take_one_time_prekey db in
    let (db'', later) = take_times n db' in (db'', taken ∷ later)

-- What is handed out when the prekeys are the rows given.
abbrev handed_out : ℕ → List PreKeyRow → List (Option PreKeyRecord)
handed_out n rows = map some (map prekey_from_row (take n rows)) ++ replicate (n - length rows) none

handed_out-none : (n : ℕ) → handed_out n [] ≡ replicate n none
handed_out-none zero = refl
handed_out-none (suc n) = let all : suc n - 0 ≡ suc n = omega arith in rw all refl

drop_none : (n : ℕ) → drop {A = PreKeyRow} n [] ≡ []
drop_none zero = refl
drop_none (suc n) = refl

take_times_rows :
    (n : ℕ) (db : Database) (rows : List PreKeyRow)
    → IsKeyed PreKeyRow.key_id db.prekeys
    → HasPrekeys db rows
    → ((take_times n db).1 ≡ handed_out n rows) × HasPrekeys (take_times n db).0 (drop n rows)
unfolding take_times
take_times_rows zero db rows h e =
    let none_left : 0 - length rows ≡ 0 = omega arith in (rw none_left, e)
take_times_rows (suc n) db [] h e =
    let (handed, left) = take_times_rows n db [] h e in
    rw (take_one_time_prekey_empty db e) (
      ap (λ later. none ∷ later) (handed ∙ handed_out-none n) ∙ sym (handed_out-none (suc n)),
      left ∙ drop_none n,
    )
take_times_rows (suc n) db (r ∷ rows) h e =
    let (taken, left) = take_one_time_prekey_head db r rows h e in
    let (handed, rest) =
      take_times_rows n (take_one_time_prekey db).0 rows (take_one_time_prekey-IsKeyed db h) left in
    (ground (arith, taken, handed), rest)

count_prekeys-prekeys_of :
    (db : Database) → length (prekeys_of one_time db) ≡ count_prekeys one_time db
unfolding count_prekeys
count_prekeys-prekeys_of db = length-order_by by_key_id (select (of_kind one_time) db.prekeys)

-- In a table where no id stands twice, any number of handshakes is given the one-time prekeys that
-- `list_prekeys` lists, in its order and each of them once, and nothing when they are used up; the
-- count of the prekeys left goes down to 0.
pub take_one_time_prekey-list_prekeys :
    (n : ℕ) (db : Database)
    → IsKeyed PreKeyRow.key_id db.prekeys
    → ((take_times n db).1
        ≡ map some (list_prekeys one_time n db) ++ replicate (n - count_prekeys one_time db) none)
      × (count_prekeys one_time (take_times n db).0 ≡ count_prekeys one_time db - n)
unfolding list_prekeys
take_one_time_prekey-list_prekeys n db h =
    let (handed, left) = take_times_rows n db (prekeys_of one_time db) h refl in
    let same : length (prekeys_of one_time db) ≡ count_prekeys one_time db =
      count_prekeys-prekeys_of db in
    (
      handed ∙ rw same refl,
      sym (count_prekeys-prekeys_of (take_times n db).0)
          ∙ ap length left
          ∙ length-drop n (prekeys_of one_time db)
          ∙ rw same refl,
    )
