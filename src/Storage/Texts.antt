-- ===== src/Storage/Texts.antt =====
-- The texts among the parameters of a statement: `Statement::bind_all` of presidium-sqleet/src/lib.rs fails
-- on a text with a NUL byte, before the statement runs.
use presidium.Base.{
  ◌≡◌, refl, Bool, false, ◌||◌, Option, none, some, List, [], ◌∷◌, map, ok, err, if◌then◌else◌,
  arith,
}
use presidium.Crypto.Constants.{Bytes}
use presidium.Crypto.Primitives.{Json, JsonLaws}
use presidium.Storage.Error.{StorageResult, database, nul_text}
use presidium.Storage.Sqleet.{
  Param, null, i64, text, blob, Columns, has_nul, nul_in_text, bind, bind_all,
}

abbrev pub any_nul : List Bytes → Bool
any_nul [] = false
any_nul (v ∷ texts) = has_nul v || any_nul texts

-- A parameter that may be NULL.
abbrev pub optional_text : Option Bytes → List Bytes
optional_text none = []
optional_text (some v) = v ∷ []

-- A statement behind the binding of its parameters, of which `texts` are texts.
abbrev pub bound : {A : Type 0} → List Bytes → StorageResult A → StorageResult A
bound texts r = if any_nul texts then err (database nul_text) else r

-- Documented behaviour of serde_json: a control character is escaped, so that a text that it writes has no
-- NUL byte.
pub record TextLaws {A : Type 0} {json : Json A} (laws : JsonLaws json) : Type 0 where
  pub no_nul : (a : A) → has_nul (laws.text a) ≡ false

abbrev pub param_texts : List Param → List Bytes
param_texts [] = []
param_texts (null ∷ params) = param_texts params
param_texts (i64 v ∷ params) = param_texts params
param_texts (text v ∷ params) = v ∷ param_texts params
param_texts (blob v ∷ params) = param_texts params

module _ {C : Type 0} ⦃columns : Columns C⦄ where
  -- The parameters of a statement are stored each in its column, in their order, unless one of the texts
  -- has a NUL byte, wherever it stands: then the call fails with the error of such a text.
  pub bind_all_branches :
      (params : List Param)
      → bind_all params
        ≡ (if any_nul (param_texts params) then err nul_in_text else ok (map columns.stored params))
  unfolding bind_all bind
  bind_all_branches [] = refl
  bind_all_branches (null ∷ params) = ground (arith, bind_all_branches params)
  bind_all_branches (i64 v ∷ params) = ground (arith, bind_all_branches params)
  bind_all_branches (text v ∷ params) = ground (arith, bind_all_branches params)
  bind_all_branches (blob v ∷ params) = ground (arith, bind_all_branches params)
