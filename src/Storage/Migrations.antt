-- ===== src/Storage/Migrations.antt =====
-- presidium-storage/src/database.rs: `run_migrations`, and the transactions of presidium-sqleet/src/lib.rs.
-- The engine is a parameter: what a statement does to a database file, and the value of the pragma.
use presidium.Base.{
  ℕ, suc, ◌+◌, ◌≤◌, ◌≡◌, refl, true, List, [], ◌∷◌, Result, ok, err, length, leb, if◌then◌else◌,
  arith, Bool-cases, Result-cases, inl, inr,
}
use presidium.Crypto.Constants.{Bytes}
use presidium.Storage.Sqleet.{SqlError}

-- The larger of two versions.
abbrev pub max : ℕ → ℕ → ℕ
max a b = if leb a b then b else a

pub data Batch : Type 0 where
  begin : Batch
  commit : Batch
  rollback : Batch
  script : Bytes → Batch
  set_user_version : ℕ → Batch

pub record Engine (Db : Type 0) : Type 0 where
  pub execute_batch : Batch → Db → Db × Result SqlError (Unit {0})
  pub user_version : Db → ℕ

-- Documented behaviour: the pragma sets the version, and a commit keeps it.
pub record EngineLaws {Db : Type 0} (e : Engine Db) : Type 0 where
  pub version_set :
      (n : ℕ) (db db' : Db)
      → e.execute_batch (set_user_version n) db ≡ (db', ok tt)
      → e.user_version db' ≡ n
  pub version_kept :
      (db db' : Db)
      → e.execute_batch commit db ≡ (db', ok tt)
      → e.user_version db' ≡ e.user_version db

module _ {Db : Type 0} ⦃e : Engine Db⦄ where
  -- A statement of a transaction that is not committed yet: when it fails, the transaction is dropped, which
  -- rolls it back.
  unfoldable pub in_transaction :
      Batch → (Db → Db × Result SqlError (Unit {0})) → Db → Db × Result SqlError (Unit {0})
  in_transaction batch rest db =
      let (db', r) = e.execute_batch batch db in
      elim r [ err failure ↦ ((e.execute_batch rollback db').0, err failure) | ok _ ↦ rest db' ]

  -- One migration, from `transaction` to `commit`. A transaction counts as done before its commit runs, so
  -- that one whose commit fails is not rolled back.
  unfoldable pub migrate : Bytes → ℕ → Db → Db × Result SqlError (Unit {0})
  unfolding in_transaction
  migrate sql target db =
      let (db', r) = e.execute_batch begin db in
      elim r [
        | err failure ↦ (db', err failure)
        | ok _ ↦
            in_transaction (script sql)
              (in_transaction (set_user_version target) (e.execute_batch commit)) db'
      ]

  -- The loop over the migrations that begin with the one of index `index`.
  unfoldable pub migrate_from : ℕ → List Bytes → ℕ → Db → Db × Result SqlError (Unit {0})
  unfolding migrate
  migrate_from current [] index db = (db, ok tt)
  migrate_from current (sql ∷ rest) index db =
      let target : ℕ = index + 1 in
      let skipped = migrate_from current rest target db in
      let (db', r) = migrate sql target db in
      let later = migrate_from current rest target db' in
      if leb target current
      then skipped
      else elim r [ err failure ↦ (db', err failure) | ok _ ↦ later ]

  unfoldable pub run_migrations : List Bytes → Db → Db × Result SqlError (Unit {0})
  run_migrations migrations db = migrate_from (e.user_version db) migrations 0 db

  migrate_version :
      (laws : EngineLaws e) (sql : Bytes) (target : ℕ) (db db' : Db)
      → migrate sql target db ≡ (db', ok tt)
      → e.user_version db' ≡ target
  unfolding migrate in_transaction
  migrate_version laws sql target db db' h =
      let begun : Db = (e.execute_batch begin db).0 in
      let applied : Db = (e.execute_batch (script sql) begun).0 in
      let marked : Db = (e.execute_batch (set_user_version target) applied).0 in
      ground (arith, h, laws.version_set target applied marked, laws.version_kept marked db')

  -- What the loop leaves alone, and the version that it ends with.
  migrate_from_done :
      (current : ℕ) (migrations : List Bytes) (index : ℕ) (db : Db)
      → index + length migrations ≤ current
      → migrate_from current migrations index db ≡ (db, ok tt)
  unfolding migrate_from
  migrate_from_done current [] index db h = refl
  migrate_from_done current (sql ∷ rest) index db h =
      let below : leb (index + 1) current ≡ true = ground arith in
      rw below (migrate_from_done current rest (index + 1) db (omega arith))

  migrate_from_version :
      (laws : EngineLaws e) (current : ℕ) (migrations : List Bytes) (index : ℕ) (db db' : Db)
      → e.user_version db ≡ max current index
      → migrate_from current migrations index db ≡ (db', ok tt)
      → e.user_version db' ≡ max current (index + length migrations)
  unfolding migrate_from
  migrate_from_version laws current [] index db db' v h = ground (arith, v, h)
  migrate_from_version laws current (sql ∷ rest) index db db' v h =
      let target : ℕ = index + 1 in
      let behind : index + suc (length rest) ≡ target + length rest = omega arith in
      elim (Bool-cases (leb target current)) [
        | inl done ↦ rw behind (
            migrate_from_version laws current rest target db db' (ground (arith, v, done))
              (ground (arith, h, done)))
        | inr pending ↦
            let next : Db = (migrate sql target db).0 in
            elim (Result-cases (migrate sql target db).1) [
              | inr (failure, failed) ↦ absurd (ground (arith, h, pending, failed))
              | inl (u, migrated) ↦
                  let version : e.user_version next ≡ target =
                    migrate_version laws sql target db next (ground (arith, migrated)) in
                  rw behind (
                    migrate_from_version laws current rest target next db'
                      (ground (arith, version, pending)) (ground (arith, h, pending, migrated)))
            ]
      ]

  -- Migrations that all succeed leave the database at their number, or at its version if that is larger;
  -- running them again then changes nothing.
  pub run_migrations_again :
      (laws : EngineLaws e) (migrations : List Bytes) (db db' : Db)
      → run_migrations migrations db ≡ (db', ok tt)
      → (e.user_version db' ≡ max (e.user_version db) (length migrations))
        × (run_migrations migrations db' ≡ (db', ok tt))
  unfolding run_migrations
  run_migrations_again laws migrations db db' h =
      let version : e.user_version db' ≡ max (e.user_version db) (0 + length migrations) =
        migrate_from_version laws (e.user_version db) migrations 0 db db' (ground arith) h in
      (
        ground (arith, version),
        migrate_from_done (e.user_version db') migrations 0 db' (ground (arith, version)),
      )
