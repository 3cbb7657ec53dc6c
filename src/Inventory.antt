-- ===== src/Inventory.antt =====
-- backend/src/domains/asset/assetService.ts, and the handlers of
-- backend/src/modules/admin/tenantRoutes.ts around it: the types of assets of an organisation, what can
-- be observed of each, and its inventory. `identifier` is `Number` of a text where that is finite and
-- positive, and whole; `number` and `json` are those of Csv/Assets. The rows' own ids are left out, but
-- for those of the types of assets.
pub mod Upsert
pub mod Keyed
pub mod Configure
pub mod Seed
mod Tests
use fieldpro_pilot.Base.{
  ℕ, suc, ◌+◌, Bool, true, false, ◌&&◌, not, Option, none, some, List, [], ◌∷◌, ◌++◌, map, any,
  find, filter, ltb, length, update_where, ◌==◌, if◌then◌else◌, Text, text, eq_text, is_empty, trim,
  ◌⊎◌, inl, inr,
}
use fieldpro_pilot.Base.Int.{ℤ, pos, negsuc}
use Prim.Native.Nat.{◌^◌}
use fieldpro_pilot.Csv.Assets.{CsvError, AssetSeedRow, parse_asset_csv}

-- `INSERT … ON CONFLICT … DO UPDATE`
abbrev pub upsert {ℓ} : {A : Type ℓ} → (A → Bool) → (A → A) → A → List A → List A
upsert conflicts update new rows =
    if any conflicts rows then update_where conflicts update rows else rows ++ new ∷ []

pub record AssetType : Type 0 where
  pub id : ℕ
  pub org_id : ℕ
  pub type_key : Text
  pub display_name : Text
  pub description : Option Text
  pub is_active : Bool

-- a row of `public.asset_types`, the code table of all organisations
pub record PublicAssetType : Type 0 where
  pub id : ℕ
  pub code : Text

pub data ValueType : Type 0 where
  state numeric boolean : ValueType

-- `VALUE_TYPES.has(…)` of what is a text
abbrev pub value_type_of : Option Text → Option ValueType
value_type_of none = none
value_type_of (some s) =
    if eq_text s (text "state")
    then some state
    else if eq_text s (text "numeric")
    then some numeric
    else if eq_text s (text "boolean")
    then some boolean
    else none

-- `req.header("x-org-id") ?? req.query.org_id`
abbrev pub given : Option Text → Option Text → Option Text
given none query = query
given (some header) query = some header

unfoldable pub resolve_org_id : (Text → Option ℕ) → Option Text → Option Text → Option ℕ
unfolding is_empty
resolve_org_id identifier header query = elim (given header query) [
  | none ↦ none
  | some raw ↦ if is_empty raw then none else identifier raw
]

-- `typeof s !== "string" || !s.trim()`, and otherwise `s.trim()`
abbrev pub named : Option Text → Option Text
named none = none
named (some s) = if is_empty (trim s) then none else some (trim s)

abbrev pub same_type : ℕ → Text → AssetType → Bool
same_type org key a = a.org_id == org && eq_text a.type_key key

abbrev pub type_updated : Text → Option Text → AssetType → AssetType
type_updated name description a = record a {
  display_name = name;
  description = description;
  is_active = true;
}

-- `createAssetType`, where the new row is given the id `serial`
unfoldable pub create_asset_type :
    ℕ → ℕ → Text → Text → Option Text → List AssetType → List AssetType
create_asset_type serial org key name description types =
    upsert (same_type org key) (type_updated name description)
      (record {
        id = serial;
        org_id = org;
        type_key = key;
        display_name = name;
        description = description;
        is_active = true;
      })
      types

-- `SELECT id FROM core.asset_types WHERE id = $1 AND org_id = $2`
abbrev pub owned_type : ℕ → ℕ → AssetType → Bool
owned_type org id a = a.id == id && a.org_id == org

-- a finite JavaScript number: a whole one, or one with a fraction, as it is printed
pub data SortOrder : Type 0 where
  whole : ℤ → SortOrder
  fractional : Text → SortOrder

-- what a column of type integer takes: a whole number of 32 bits
unfoldable pub stored_order : SortOrder → Option ℤ
stored_order (whole (pos n)) = if ltb n (2 ^ 31) then some (pos n) else none
stored_order (whole (negsuc n)) = if ltb n (2 ^ 31) then some (negsuc n) else none
stored_order (fractional printed) = none

-- what is registered of an asset type: the JSON of `valid_values` as its text
pub record ObservationTypeInput : Type 0 where
  pub observation_key : Text
  pub display_name : Text
  pub value_type : ValueType
  pub valid_values : Option Text
  pub is_required : Bool
  pub sort_order : SortOrder

pub record ObservationTypeRow : Type 0 where
  pub org_id : ℕ
  pub asset_type_id : ℕ
  pub observation_key : Text
  pub input : ObservationTypeInput
  pub sort_order : ℤ
  pub is_active : Bool

abbrev pub same_observation_type : ℕ → ℕ → Text → ObservationTypeRow → Bool
same_observation_type org type_id key o =
    (o.org_id == org && o.asset_type_id == type_id) && eq_text o.observation_key key

abbrev pub input_updated : ObservationTypeInput → ℤ → ObservationTypeRow → ObservationTypeRow
input_updated t order o = record o { input = t; sort_order = order; is_active = true }

-- `accepts` says whether the database takes an input, but for its order: it refuses a text with a NUL,
-- and every statement while it is not there.
module _ (accepts : ObservationTypeInput → Bool) where
  -- the order that is written; none where the statement fails
  unfoldable pub order_written : ObservationTypeInput → Option ℤ
  order_written t = if accepts t then stored_order t.sort_order else none

  -- a round of the loop; none where the statement fails
  unfoldable pub upsert_observation_type :
      ℕ → ℕ → ObservationTypeInput → List ObservationTypeRow → Option (List ObservationTypeRow)
  upsert_observation_type org type_id t rows = elim (order_written t) [
    | none ↦ none
    | some order ↦ some (
        upsert (same_observation_type org type_id t.observation_key) (input_updated t order)
          (record {
            org_id = org;
            asset_type_id = type_id;
            observation_key = t.observation_key;
            input = t;
            sort_order = order;
            is_active = true;
          })
          rows)
  ]

  -- The loop: each statement is committed by itself, so what was written before one that fails stays.
  -- With the rows, whether all inputs were written.
  unfoldable pub upsert_each :
      ℕ → ℕ → List ObservationTypeInput → List ObservationTypeRow → List ObservationTypeRow × Bool
  upsert_each org type_id [] rows = (rows, true)
  upsert_each org type_id (t ∷ ts) rows = elim (upsert_observation_type org type_id t rows) [
    | none ↦ (rows, false)
    | some rows' ↦ upsert_each org type_id ts rows'
  ]

  abbrev pub upserted_count : ℕ → Bool → Option ℕ
  upserted_count n true = some n
  upserted_count n false = none

  -- the number of inputs; none where an error is thrown: the type is not the organisation's, or a
  -- statement failed
  unfoldable pub upsert_observation_types :
      ℕ
      → ℕ
      → List ObservationTypeInput
      → List AssetType
      → List ObservationTypeRow
      → List ObservationTypeRow × Option ℕ
  upsert_observation_types org type_id ts types rows =
      if any (owned_type org type_id) types
      then (
        (upsert_each org type_id ts rows).0,
        upserted_count (length ts) (upsert_each org type_id ts rows).1,
      )
      else (rows, none)

-- an element of the body's `types`; a text that is not one is none
pub record TypeBody : Type 0 where
  pub observation_key : Option Text
  pub display_name : Option Text
  pub value_type : Option Text
  pub valid_values : Option Text
  pub is_required : Bool
  pub sort_order : Option SortOrder

unfoldable pub validated : TypeBody → Option ObservationTypeInput
validated t = elim (named t.observation_key) [
  | none ↦ none
  | some key ↦ elim (named t.display_name) [
    | none ↦ none
    | some name ↦ elim (value_type_of t.value_type) [
      | none ↦ none
      | some v ↦ some (record {
        observation_key = key;
        display_name = name;
        value_type = v;
        valid_values = t.valid_values;
        is_required = t.is_required;
        sort_order = elim t.sort_order [ none ↦ whole (pos 0) | some n ↦ n ];
      })
    ]
  ]
]

-- the inputs, or the index of the first that is invalid
unfoldable pub validate_from : ℕ → List TypeBody → ℕ ⊎ List ObservationTypeInput
validate_from i [] = inr []
validate_from i (t ∷ ts) =
    let rest = validate_from (suc i) ts in
    elim (validated t) [
      | none ↦ inl i
      | some input ↦ elim rest [ inl j ↦ inl j | inr inputs ↦ inr (input ∷ inputs) ]
    ]
