-- ===== src/Storage/Operations/Run.antt =====
-- A run of the statements of presidium-storage/src/store.rs, seen in the functions of Refinement.
use presidium.Base.{ℕ, ◌≤◌, ◌≡◌, true, none, some, List, [], ◌∷◌, ◌⊎◌}
use presidium.Storage.Models.{one_time}
use presidium.Storage.Tables.{PreKeyRow}
use presidium.Storage.Sql.{integer_key, bytes_key, pair_key}
use presidium.Storage.Store
use presidium.Storage.Store.{of_kind}
use presidium.Storage.Store.Sessions
use presidium.Storage.Operations.{Operation}
use presidium.Storage.Operations.Refinement.{View, change}
use presidium.Storage.Sql.Maps.{set}

-- A one-time prekey of a view.
abbrev pub HasOneTime : View → ℕ → PreKeyRow → Type 0
HasOneTime v k row = (v.prekeys k ≡ some row) × (of_kind one_time row ≡ true)

-- Nothing is taken when there is no one-time prekey, and else the one of the least id.
abbrev pub Taken : View → View → Type 0
Taken v v' =
    (((k : ℕ) (row : PreKeyRow) → HasOneTime v k row → ⊥) × (v' ≡ v))
    ⊎ ((k : ℕ) × (row : PreKeyRow) × HasOneTime v k row
        × ((l : ℕ) (other : PreKeyRow) → HasOneTime v l other → k ≤ l)
        × (v' ≡ record v { prekeys = set k none v.prekeys }))

abbrev pub Step : Operation → View → View → Type 0
Step Operation.take_one_time_prekey v v' = Taken v v'
Step op v v' = v' ≡ change op v

unfoldable pub Steps : List Operation → View → View → Type 0
Steps [] v v' = v' ≡ v
Steps (op ∷ ops) v v' = (w : View) × Step op v w × Steps ops w v'
