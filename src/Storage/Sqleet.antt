-- ===== src/Storage/Sqleet.antt =====
-- presidium-sqleet/src/lib.rs: the parameters of a statement and the columns of a row. The C functions that
-- read a column are parameters.
use presidium.Base.{
  ℕ, ◌≡◌, refl, Bool, true, false, not, Option, none, some, [], ◌∷◌, Result, ok, err, ◌==◌, ◌||◌,
  List, if◌then◌else◌, String, ◌>>=◌, arith,
}
use presidium.Crypto.Constants.{Bytes}

pub record SqlError : Type 0 where
  pub code : ℕ
  pub message : String

pub data Param : Type 0 where
  null : Param
  i64 : ℕ → Param
  text : Bytes → Param
  blob : Bytes → Param

-- The `From` instances: integers, booleans, texts, bytes, and the first and the third under an option.
unfoldable pub from_i64 : ℕ → Param
from_i64 v = i64 v

unfoldable pub from_bool : Bool → Param
from_bool true = i64 1
from_bool false = i64 0

unfoldable pub from_text : Bytes → Param
from_text v = text v

unfoldable pub from_blob : Bytes → Param
from_blob v = blob v

unfoldable pub from_option_i64 : Option ℕ → Param
from_option_i64 none = null
from_option_i64 (some v) = i64 v

unfoldable pub from_option_text : Option Bytes → Param
from_option_text none = null
from_option_text (some v) = text v

-- `stored` is what the functions `sqlite3_bind_*` put into a column, without a failure of theirs.
-- `sqlite3_column_type` is compared with `SQLITE_NULL`; `sqlite3_column_int64`; and the bytes behind the
-- pointer of `sqlite3_column_blob`, with none for the null pointer. `C` is a column of a row.
pub record Columns (C : Type 0) : Type 0 where
  pub stored : Param → C
  pub is_null : C → Bool
  pub column_int64 : C → ℕ
  pub column_blob : C → Option Bytes

-- Documented behaviour: a column has the type and the value of the parameter that was stored in it, and the
-- pointer of bytes without length is null.
pub record ColumnLaws {C : Type 0} (columns : Columns C) : Type 0 where
  pub null_null : columns.is_null (columns.stored null) ≡ true
  pub null_i64 : (v : ℕ) → columns.is_null (columns.stored (i64 v)) ≡ false
  pub null_text : (v : Bytes) → columns.is_null (columns.stored (text v)) ≡ false
  pub null_blob : (v : Bytes) → columns.is_null (columns.stored (blob v)) ≡ false
  pub int64_i64 : (v : ℕ) → columns.column_int64 (columns.stored (i64 v)) ≡ v
  pub blob_text :
      (b : ℕ) (v : Bytes) → columns.column_blob (columns.stored (text (b ∷ v))) ≡ some (b ∷ v)
  pub blob_blob :
      (b : ℕ) (v : Bytes) → columns.column_blob (columns.stored (blob (b ∷ v))) ≡ some (b ∷ v)
  pub blob_no_text : columns.column_blob (columns.stored (text [])) ≡ none
  pub blob_no_blob : columns.column_blob (columns.stored (blob [])) ≡ none

-- `CString::new` refuses such a text.
abbrev pub has_nul : Bytes → Bool
has_nul [] = false
has_nul (b ∷ rest) = b == 0 || has_nul rest

abbrev pub nul_in_text : SqlError
nul_in_text = record { code = 0; message = "text param contains a NUL byte" }

-- An error of this crate: its code is `SQLITE_OK`.
abbrev pub null_read : SqlError
null_read = record { code = 0; message = "attempted to read a NULL column as a value" }

abbrev pub bytes_or_empty : Option Bytes → Bytes
bytes_or_empty none = []
bytes_or_empty (some v) = v

module _ {C : Type 0} ⦃columns : Columns C⦄ where
  -- One round of `bind_all`, and the column that the value is stored in.
  unfoldable pub bind : Param → Result SqlError C
  bind null = ok (columns.stored null)
  bind (i64 v) = ok (columns.stored (i64 v))
  bind (text v) = if has_nul v then err nul_in_text else ok (columns.stored (text v))
  bind (blob v) = ok (columns.stored (blob v))

  unfoldable pub bind_all : List Param → Result SqlError (List C)
  bind_all [] = ok []
  bind_all (param ∷ params) = do
    column ← bind param
    columns ← bind_all params
    ok (column ∷ columns)

  unfoldable pub column_bytes_owned : C → Result SqlError Bytes
  column_bytes_owned c =
      if columns.is_null c then err null_read else ok (bytes_or_empty (columns.column_blob c))

  -- The `from_sqleet` of integers, booleans, bytes, and optional integers and bytes. A text is read like
  -- its bytes, which are UTF-8.
  unfoldable pub get_i64 : C → Result SqlError ℕ
  get_i64 c = ok (columns.column_int64 c)

  unfoldable pub get_bool : C → Result SqlError Bool
  get_bool c = ok (not (columns.column_int64 c == 0))

  unfoldable pub get_bytes : C → Result SqlError Bytes
  unfolding column_bytes_owned
  get_bytes c = column_bytes_owned c

  unfoldable pub get_option_i64 : C → Result SqlError (Option ℕ)
  get_option_i64 c = if columns.is_null c then ok none else ok (some (columns.column_int64 c))

  unfoldable pub get_option_bytes : C → Result SqlError (Option Bytes)
  unfolding get_bytes
  get_option_bytes c = if columns.is_null c then ok none else (do v ← get_bytes c; ok (some v))

  get_bool-from_bool :
      (laws : ColumnLaws columns) (b : Bool) → get_bool (columns.stored (from_bool b)) ≡ ok b
  unfolding get_bool from_bool
  get_bool-from_bool laws true = rw (laws.int64_i64 1) refl
  get_bool-from_bool laws false = rw (laws.int64_i64 0) refl

  get_bytes-text :
      (laws : ColumnLaws columns) (v : Bytes) → get_bytes (columns.stored (text v)) ≡ ok v
  unfolding get_bytes column_bytes_owned
  get_bytes-text laws [] = rw (laws.null_text [], laws.blob_no_text) refl
  get_bytes-text laws (b ∷ v) = rw (laws.null_text (b ∷ v), laws.blob_text b v) refl

  get_bytes-blob :
      (laws : ColumnLaws columns) (v : Bytes) → get_bytes (columns.stored (blob v)) ≡ ok v
  unfolding get_bytes column_bytes_owned
  get_bytes-blob laws [] = rw (laws.null_blob [], laws.blob_no_blob) refl
  get_bytes-blob laws (b ∷ v) = rw (laws.null_blob (b ∷ v), laws.blob_blob b v) refl

  get_option_i64-from_option_i64 :
      (laws : ColumnLaws columns) (o : Option ℕ)
      → get_option_i64 (columns.stored (from_option_i64 o)) ≡ ok o
  unfolding get_option_i64 from_option_i64
  get_option_i64-from_option_i64 laws none = rw laws.null_null refl
  get_option_i64-from_option_i64 laws (some v) = rw (laws.null_i64 v, laws.int64_i64 v) refl

  get_option_bytes-from_option_text :
      (laws : ColumnLaws columns) (t : Option Bytes)
      → get_option_bytes (columns.stored (from_option_text t)) ≡ ok t
  unfolding get_option_bytes from_option_text
  get_option_bytes-from_option_text laws none = rw laws.null_null refl
  get_option_bytes-from_option_text laws (some v) =
      ground (arith, laws.null_text v, get_bytes-text laws v)

  -- What is stored as a parameter is read back from the column as the same value, for each type
  -- that the storage uses; NULL is read as no value, and is an error where bytes are required.
  get-from :
      (laws : ColumnLaws columns) (n : ℕ) (b : Bool) (v : Bytes) (o : Option ℕ) (t : Option Bytes)
      → (get_i64 (columns.stored (from_i64 n)) ≡ ok n)
        × (get_bool (columns.stored (from_bool b)) ≡ ok b)
        × (get_bytes (columns.stored (from_text v)) ≡ ok v)
        × (get_bytes (columns.stored (from_blob v)) ≡ ok v)
        × (get_option_i64 (columns.stored (from_option_i64 o)) ≡ ok o)
        × (get_option_bytes (columns.stored (from_option_text t)) ≡ ok t)
        × (get_bytes (columns.stored null) ≡ err null_read)
  unfolding get_i64 get_bytes column_bytes_owned from_i64 from_text from_blob
  get-from laws n b v o t = (
    rw (laws.int64_i64 n) refl,
    get_bool-from_bool laws b,
    get_bytes-text laws v,
    get_bytes-blob laws v,
    get_option_i64-from_option_i64 laws o,
    get_option_bytes-from_option_text laws t,
    rw laws.null_null refl,
  )
