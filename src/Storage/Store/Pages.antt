-- ===== src/Storage/Store/Pages.antt =====
-- presidium-storage/src/store.rs: the pages of `list_messages` follow one another.
use presidium.Base.{
  ℕ, zero, suc, ◌+◌, ◌<◌, ◌≡◌, refl, sym, ◌∙◌, ap, subst, Bool, true, false, ◌&&◌, Option, none,
  some, ok, Bool-cases, inl, inr, List, [], ◌∷◌, ◌++◌, map, All, take, drop, ltb, arith,
}
use presidium.Crypto.Constants.{Bytes}
use presidium.Storage.Models.{MessageRecord}
use presidium.Storage.Texts.{any_nul}
use presidium.Storage.Tables.{MessageRow, Database, message_from_row}
use presidium.Storage.Sql.{integer_key, bytes_key, select, order_by, has_key, find}
use presidium.Storage.Sql.Keyed.{IsKeyed, select-IsKeyed}
use presidium.Storage.Sql.Sorted.{
  IsSorted, All-order_by, select-both, select-order_by, order_by-IsKeyed, order_by-IsSorted,
}
use presidium.Storage.Sql.References.{select-All}
use presidium.Storage.Store.Messages.{before, newest_first, rows_before, list_messages}

newest_first_total : (a b : MessageRow) → newest_first a b ≡ false → newest_first b a ≡ true
newest_first_total a b h = ground arith

newest_first_trans :
    (a b c : MessageRow)
    → newest_first a b ≡ true
    → newest_first b c ≡ true
    → newest_first a c ≡ true
newest_first_trans a b c h k = ground arith

-- The ids go down strictly.
abbrev IsDescending : List MessageRow → Type 0
IsDescending [] = Unit
IsDescending (r ∷ rows) = All (λ s. s.id < r.id) rows × IsDescending rows

absent_below :
    (r : MessageRow) (rows : List MessageRow)
    → find MessageRow.id r.id rows ≡ none
    → All (λ s. newest_first r s ≡ true) rows
    → All (λ s. s.id < r.id) rows
absent_below r [] absent h = tt
absent_below r (s ∷ rows) absent (le, h) =
    (ground (arith, absent, le), absent_below r rows (ground (arith, absent)) h)

sorted-IsDescending :
    (rows : List MessageRow)
    → IsKeyed MessageRow.id rows
    → IsSorted newest_first rows
    → IsDescending rows
unfolding IsKeyed IsSorted
sorted-IsDescending [] keyed sorted = tt
sorted-IsDescending (r ∷ rows) (absent, keyed) (least, sorted) =
    (absent_below r rows absent least, sorted-IsDescending rows keyed sorted)

abbrev older : ℕ → MessageRow → Bool
older id r = ltb r.id id

All-older :
    (id : ℕ) (rows : List MessageRow) → All (λ s. s.id < id) rows → select (older id) rows ≡ rows
All-older id [] h = refl
All-older id (r ∷ rows) (here, h) = ground (arith, here, All-older id rows h)

no_last : (page : List MessageRow) (last : MessageRow) → [] ≡ page ++ last ∷ [] → ⊥
no_last [] last e = cc
no_last (p ∷ page) last e = cc

-- The last row of a page is one of the rows.
last_All :
    (P : MessageRow → Type 0) (n : ℕ) (rows page : List MessageRow) (last : MessageRow)
    → All P rows
    → take n rows ≡ page ++ last ∷ []
    → P last
last_All P zero rows page last h e = absurd (no_last page last e)
last_All P (suc n) [] page last h e = absurd (no_last page last e)
last_All P (suc n) (s ∷ rows) [] last (here, h) e = subst P (ground (arith, e)) here
last_All P (suc n) (s ∷ rows) (p ∷ page) last (here, h) e =
    last_All P n rows page last h (ground (arith, e))

drop_rest : (n : ℕ) (rows : List MessageRow) → take n rows ≡ [] → drop n rows ≡ rows
drop_rest zero rows e = refl
drop_rest (suc n) [] e = refl
drop_rest (suc n) (r ∷ rows) e = cc

-- What comes after a page is what is older than its last message.
drop_page :
    (n : ℕ) (rows page : List MessageRow) (last : MessageRow)
    → IsDescending rows
    → take n rows ≡ page ++ last ∷ []
    → select (older last.id) rows ≡ drop n rows
drop_page zero rows page last h e = absurd (no_last page last e)
drop_page (suc n) [] page last h e = absurd (no_last page last e)
drop_page (suc n) (r ∷ rows) [] last (below, h) e =
    let same : last.id ≡ r.id = ground (arith, e) in
    ground (
      arith,
      same,
      All-older last.id rows (subst (λ k. All (λ s. s.id < k) rows) (sym same) below),
      drop_rest n rows (ground (arith, e)),
    )
drop_page (suc n) (r ∷ rows) (p ∷ page) last (below, h) e =
    let smaller : last.id < r.id =
      last_All (λ s. s.id < r.id) n rows page last below (ground (arith, e)) in
    ground (arith, smaller, drop_page n rows page last h (ground (arith, e)))

take_add :
    (m n : ℕ) (rows : List MessageRow) → take (m + n) rows ≡ take m rows ++ take n (drop m rows)
take_add zero n rows = let same : 0 + n ≡ n = omega arith in rw same refl
take_add (suc m) zero [] = let same : suc m + 0 ≡ suc m = omega arith in rw same refl
take_add (suc m) (suc n) [] =
    let same : suc m + suc n ≡ suc (m + suc n) = omega arith in rw same refl
take_add (suc m) n (r ∷ rows) =
    let same : suc m + n ≡ suc (m + n) = omega arith in rw (same, take_add m n rows) refl

map-append :
    (xs ys : List MessageRow)
    → map message_from_row (xs ++ ys) ≡ map message_from_row xs ++ map message_from_row ys
map-append [] ys = refl
map-append (x ∷ xs) ys = rw (map-append xs ys) refl

-- The page of rows behind a page of records.
page_rows :
    (rows : List MessageRow) (page : List MessageRecord) (last : MessageRecord)
    → map message_from_row rows ≡ page ++ last ∷ []
    → (rows' : List MessageRow) × (last' : MessageRow) × (rows ≡ rows' ++ last' ∷ [])
      × (last'.id ≡ last.id)
unfolding message_from_row
page_rows [] [] last e = cc
page_rows [] (p ∷ page) last e = cc
page_rows (r ∷ []) [] last e = ([], r, refl, ground (arith, e))
page_rows (r ∷ s ∷ rows) [] last e = absurd (ground (arith, e))
page_rows (r ∷ rows) (p ∷ page) last e =
    let (rows', last', split, same) = page_rows rows page last (ground (arith, e)) in
    (r ∷ rows', last', ap (λ rest. r ∷ rest) split, same)

select_same :
    (p q : MessageRow → Bool) (rows : List MessageRow)
    → ((r : MessageRow) → p r ≡ q r)
    → select p rows ≡ select q rows
select_same p q [] h = refl
select_same p q (r ∷ rows) h = ground (arith, h r, select_same p q rows h)

before-older :
    (conversation_id : Bytes) (bound : Option ℕ) (last : ℕ) (r : MessageRow)
    → before bound last ≡ true
    → (has_key MessageRow.conversation_id conversation_id r && before (some last) r.id) ≡ (
        (has_key MessageRow.conversation_id conversation_id r && before bound r.id) && older last r)
before-older conversation_id none last r h = ground arith
before-older conversation_id (some b) last r h = ground (arith, h)

rows_before-All :
    (conversation_id : Bytes) (bound : Option ℕ) (db : Database)
    → All (λ r. before bound r.id ≡ true) (rows_before conversation_id bound db)
rows_before-All conversation_id bound db =
    let p : MessageRow → Bool = has_key MessageRow.conversation_id conversation_id in
    let q : MessageRow → Bool = λ r. before bound r.id in
    All-order_by newest_first (λ r. before bound r.id ≡ true) (select (λ r. p r && q r) db.messages)
      (rw (select-both p q db.messages) (select-All q (select p db.messages)))

rows_before-IsDescending :
    (conversation_id : Bytes) (bound : Option ℕ) (db : Database)
    → IsKeyed MessageRow.id db.messages
    → IsDescending (rows_before conversation_id bound db)
rows_before-IsDescending conversation_id bound db h =
    let p : MessageRow → Bool =
      λ r. has_key MessageRow.conversation_id conversation_id r && before bound r.id in
    sorted-IsDescending (rows_before conversation_id bound db)
      (order_by-IsKeyed MessageRow.id newest_first (select p db.messages)
        (select-IsKeyed MessageRow.id p db.messages h))
      (order_by-IsSorted newest_first newest_first_total newest_first_trans (select p db.messages))

rows_before-older :
    (conversation_id : Bytes) (bound : Option ℕ) (last : ℕ) (db : Database)
    → before bound last ≡ true
    → rows_before conversation_id (some last) db
      ≡ select (older last) (rows_before conversation_id bound db)
rows_before-older conversation_id bound last db h =
    let p : MessageRow → Bool =
      λ r. has_key MessageRow.conversation_id conversation_id r && before bound r.id in
    ap (order_by newest_first) (
      select_same
        (λ r. has_key MessageRow.conversation_id conversation_id r && before (some last) r.id)
        (λ r. p r && older last r) db.messages (λ r. before-older conversation_id bound last r h)
      ∙ select-both p (older last) db.messages)
    ∙ sym (
        select-order_by newest_first newest_first_total newest_first_trans (older last)
          (select p db.messages))

-- The page of a conversation whose id could be bound.
abbrev page_of : Bytes → Option ℕ → ℕ → Database → List MessageRecord
page_of conversation_id bound n db =
    map message_from_row (take n (rows_before conversation_id bound db))

page_of_pages :
    (conversation_id : Bytes) (bound : Option ℕ) (m n : ℕ) (db : Database)
    (page : List MessageRecord) (last : MessageRecord)
    → IsKeyed MessageRow.id db.messages
    → page_of conversation_id bound m db ≡ page ++ last ∷ []
    → page_of conversation_id bound (m + n) db
      ≡ page_of conversation_id bound m db ++ page_of conversation_id (some last.id) n db
page_of_pages conversation_id bound m n db page last h e =
    let rows : List MessageRow = rows_before conversation_id bound db in
    let (page', last', split, same) = page_rows (take m rows) page last e in
    let in_bound : before bound last'.id ≡ true =
      last_All (λ r. before bound r.id ≡ true) m rows page' last'
        (rows_before-All conversation_id bound db) split in
    let next : rows_before conversation_id (some last.id) db ≡ drop m rows =
      subst (λ id. rows_before conversation_id (some id) db ≡ drop m rows) same
        (rows_before-older conversation_id bound last'.id db in_bound
          ∙ drop_page m rows page' last' (rows_before-IsDescending conversation_id bound db h)
              split) in
    rw (next, take_add m n rows) (map-append (take m rows) (take n (drop m rows)))

-- In a table where no row id stands twice, a page followed by the page asked for with the id of its last
-- message, which is not refused either, is the page of both sizes together: going on with the last id
-- neither skips nor repeats a message.
pub list_messages_pages :
    (conversation_id : Bytes) (bound : Option ℕ) (m n : ℕ) (db : Database)
    (page : List MessageRecord) (last : MessageRecord)
    → IsKeyed MessageRow.id db.messages
    → list_messages conversation_id bound m db ≡ ok (page ++ last ∷ [])
    → (rest : List MessageRecord) × (list_messages conversation_id (some last.id) n db ≡ ok rest)
      × (list_messages conversation_id bound (m + n) db ≡ ok ((page ++ last ∷ []) ++ rest))
unfolding list_messages
list_messages_pages conversation_id bound m n db page last h e =
    elim (Bool-cases (any_nul (conversation_id ∷ []))) [
      | inl nul ↦ absurd (ground (arith, e, nul))
      | inr clean ↦
          let first : page_of conversation_id bound m db ≡ page ++ last ∷ [] =
            ground (arith, e, clean) in
          (
            page_of conversation_id (some last.id) n db,
            rw clean refl,
            rw clean (
                ap ok (
                  page_of_pages conversation_id bound m n db page last h first
                  ∙ ap
                      (λ (xs : List MessageRecord).
                        xs ++ page_of conversation_id (some last.id) n db)
                      first)),
          )
    ]
