-- ===== src/Inventory/Configure.antt =====
-- The handlers of backend/src/modules/admin/tenantRoutes.ts that define what can be observed of which
-- assets. What lists return is ordered by `before`, the order of texts in the database.
pub mod Written
pub mod Registered
use fieldpro_pilot.Base.{
  ℕ, suc, Bool, true, false, ◌&&◌, Option, none, some, List, [], ◌∷◌, any, filter, length, ◌==◌,
  if◌then◌else◌, Text, text, eq_text, ◌⊎◌, inl, inr,
}
use fieldpro_pilot.Base.Int.{ℤ, ltb_ℤ, leb_ℤ}
use fieldpro_pilot.Base.Sort.{sort_by}
use fieldpro_pilot.Inventory.{
  AssetType, ObservationTypeInput, ObservationTypeRow, TypeBody, resolve_org_id, named,
  create_asset_type, upsert_observation_types, validate_from,
}

pub record Registry : Type 0 where
  pub asset_types : List AssetType
  pub observation_types : List ObservationTypeRow
  pub serial : ℕ

-- the answers: 200 or 201, 400 and 500
pub data TenantResponse : Type 0 where
  asset_types_listed : List AssetType → TenantResponse
  observation_types_listed : List ObservationTypeRow → TenantResponse
  asset_type_created : TenantResponse
  upserted : ℕ → TenantResponse
  org_id_invalid : TenantResponse
  body_invalid : Text → TenantResponse
  type_invalid : ℕ → TenantResponse
  broken : TenantResponse

module _ (identifier : Text → Option ℕ) (before : Text → Text → Bool) where
  unfoldable pub list_asset_types : ℕ → List AssetType → List AssetType
  list_asset_types org types =
      sort_by (λ a b. before a.display_name b.display_name) (filter (λ a. a.org_id == org) types)

  abbrev pub shown_before : ObservationTypeRow → ObservationTypeRow → Bool
  shown_before a b =
      if ltb_ℤ a.sort_order b.sort_order
      then true
      else leb_ℤ a.sort_order b.sort_order && before a.observation_key b.observation_key

  unfoldable pub list_observation_types : ℕ → ℕ → List ObservationTypeRow → List ObservationTypeRow
  list_observation_types org type_id rows =
      sort_by shown_before (filter (λ o. o.org_id == org && o.asset_type_id == type_id) rows)

  unfoldable pub asset_types_handler : Option Text → Option Text → Registry → TenantResponse
  unfolding list_asset_types
  asset_types_handler header query r = elim (resolve_org_id identifier header query) [
    | none ↦ org_id_invalid
    | some org ↦ asset_types_listed (list_asset_types org r.asset_types)
  ]

  -- `type_key`, `display_name` and `description` of the body, none where one is no text
  unfoldable pub create_asset_type_handler :
      Option Text
      → Option Text
      → Option Text
      → Option Text
      → Option Text
      → Registry
      → Registry × TenantResponse
  create_asset_type_handler header query key name description r =
      elim (resolve_org_id identifier header query) [
        | none ↦ (r, org_id_invalid)
        | some org ↦ elim (named key) [
          | none ↦ (r, body_invalid (text "type_key is required"))
          | some k ↦ elim (named name) [
            | none ↦ (r, body_invalid (text "display_name is required"))
            | some n ↦ (
              record r {
                asset_types = create_asset_type r.serial org k n description r.asset_types;
                serial = suc r.serial;
              },
              asset_type_created,
            )
          ]
        ]
      ]

  -- `Number` of the query's or the body's `asset_type_id`, none where it is refused
  unfoldable pub observation_types_handler :
      Option Text → Option Text → Option ℕ → Registry → TenantResponse
  unfolding list_observation_types
  observation_types_handler header query type_id r = elim (resolve_org_id identifier header query) [
    | none ↦ org_id_invalid
    | some org ↦ elim type_id [
      | none ↦ body_invalid (text "asset_type_id query param required")
      | some t ↦ observation_types_listed (list_observation_types org t r.observation_types)
    ]
  ]

  module _ (accepts : ObservationTypeInput → Bool) where
    abbrev pub upsert_response : Option ℕ → TenantResponse
    upsert_response none = broken
    upsert_response (some n) = upserted n

    -- from the validation of the inputs on
    unfoldable pub register_inputs :
        ℕ → ℕ → ℕ ⊎ List ObservationTypeInput → Registry → Registry × TenantResponse
    register_inputs org type_id (inl i) r = (r, type_invalid i)
    register_inputs org type_id (inr inputs) r =
        let result =
          upsert_observation_types accepts org type_id inputs r.asset_types r.observation_types in
        (record r { observation_types = result.0 }, upsert_response result.1)

    -- the checks of the body, whose `types` are none where they are no array
    unfoldable pub register_body :
        ℕ → Option ℕ → Option (List TypeBody) → Registry → Registry × TenantResponse
    register_body org none types r = (r, body_invalid (text "asset_type_id is required"))
    register_body org (some t) none r = (r, body_invalid (text "types must be a non-empty array"))
    register_body org (some t) (some []) r =
        (r, body_invalid (text "types must be a non-empty array"))
    register_body org (some t) (some (x ∷ xs)) r =
        register_inputs org t (validate_from 0 (x ∷ xs)) r

    unfoldable pub register_handler :
        Option Text
        → Option Text
        → Option ℕ
        → Option (List TypeBody)
        → Registry
        → Registry × TenantResponse
    register_handler header query type_id types r = elim (resolve_org_id identifier header query) [
      | none ↦ (r, org_id_invalid)
      | some org ↦ register_body org type_id types r
    ]
