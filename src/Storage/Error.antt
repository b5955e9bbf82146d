-- ===== src/Storage/Error.antt =====
-- presidium-storage/src/error.rs, and the errors of the statements that presidium-storage/src/store.rs
-- runs: that a text parameter holds a NUL byte, or which constraint of the schema 0001_init.sql a row breaks.
use presidium.Base.{String, Result}

pub data StatementError : Type 0 where
  nul_text : StatementError
  unique_constraint : StatementError
  foreign_key_constraint : StatementError

pub data StorageError : Type 0 where
  database : StatementError → StorageError
  key_derivation : String → StorageError
  serialization : String → StorageError
  crdt : String → StorageError
  invalid_data : String → StorageError
  migration : String → StorageError

abbrev pub StorageResult : Type 0 → Type 0
StorageResult = Result StorageError
