-- ===== src/Inventory/Seed.antt =====
-- `seedAssets` of backend/src/domains/asset/assetService.ts and the handler of `POST /seed-assets` of
-- backend/src/modules/admin/tenantRoutes.ts: an inventory of assets is written from a CSV. The table
-- has two unique keys: organisation, type and seed key, on which a row that is there is updated, and
-- organisation and external id, on which the insert fails.
pub mod Seeded
pub mod Answered
use fieldpro_pilot.Base.{
  ℕ, Bool, true, false, ◌&&◌, not, Option, none, some, List, [], ◌∷◌, any, find, length, ◌==◌,
  if◌then◌else◌, Text, text, eq_text, ◌⊎◌, inl, inr,
}
use fieldpro_pilot.Csv.Assets.{Cell, AssetSeedRow, CsvError, parse_asset_csv}
use fieldpro_pilot.Inventory.{AssetType, PublicAssetType, upsert, resolve_org_id, owned_type}

-- `core.asset_types JOIN public.asset_types ON code = type_key`
unfoldable pub public_type_of :
    ℕ → ℕ → List AssetType → List PublicAssetType → Option PublicAssetType
public_type_of org id [] codes = none
public_type_of org id (a ∷ types) codes =
    let rest = public_type_of org id types codes in
    if owned_type org id a
    then elim (find (λ p. eq_text p.code a.type_key) codes) [ none ↦ rest | some p ↦ some p ]
    else rest

module _ {N J : Type 0} (number : Text → Option N) (json : Text → Option J) where
  pub record AssetRow : Type 0 where
    pub org_id : ℕ
    pub asset_type_id : ℕ
    pub seed_key : Text
    pub seed : AssetSeedRow number json
    pub active : Bool
    pub updated_at : ℕ

  abbrev pub same_asset : ℕ → ℕ → Text → AssetRow → Bool
  same_asset org type_id key a =
      (a.org_id == org && a.asset_type_id == type_id) && eq_text a.seed_key key

  -- another row of the organisation has the external id
  abbrev pub is_taken : ℕ → ℕ → Text → AssetRow → Bool
  is_taken org type_id key a =
      (a.org_id == org && eq_text a.seed.external_id key) && not (same_asset org type_id key a)

  abbrev pub asset_updated : ℕ → AssetSeedRow number json → AssetRow → AssetRow
  asset_updated now r a = record a { seed = r; updated_at = now }

  abbrev pub new_asset : ℕ → ℕ → ℕ → AssetSeedRow number json → AssetRow
  new_asset now org type_id r = record {
    org_id = org;
    asset_type_id = type_id;
    seed_key = r.external_id;
    seed = r;
    active = true;
    updated_at = now;
  }

  -- a round of the loop; none where the statement fails
  unfoldable pub upsert_asset :
      ℕ → ℕ → ℕ → AssetSeedRow number json → List AssetRow → Option (List AssetRow)
  upsert_asset now org type_id r assets =
      if any (is_taken org type_id r.external_id) assets
      then none
      else some (
          upsert (same_asset org type_id r.external_id) (asset_updated now r)
            (new_asset now org type_id r) assets)

  unfoldable pub upsert_assets :
      ℕ → ℕ → ℕ → List (AssetSeedRow number json) → List AssetRow → Option (List AssetRow)
  upsert_assets now org type_id [] assets = some assets
  upsert_assets now org type_id (r ∷ rows) assets = elim (upsert_asset now org type_id r assets) [
    | none ↦ none
    | some assets' ↦ upsert_assets now org type_id rows assets'
  ]

  -- none where an error is thrown, after a rollback or before
  unfoldable pub seed_assets :
      ℕ
      → ℕ
      → ℕ
      → List (AssetSeedRow number json)
      → List AssetType
      → List PublicAssetType
      → List AssetRow
      → Option (List AssetRow)
  unfolding public_type_of
  seed_assets now org type_id rows types codes assets =
      elim (public_type_of org type_id types codes) [
        | none ↦ none
        | some p ↦ upsert_assets now org p.id rows assets
      ]

  -- the answers: 200, 400 and 500
  pub data SeedResponse : Type 0 where
    seeded : ℕ → ℕ → SeedResponse
    org_id_invalid asset_type_required file_required no_data_rows broken : SeedResponse
    csv_invalid : CsvError → SeedResponse

  unfoldable pub seed_response :
      ℕ → List AssetRow → Option (List AssetRow) → List AssetRow × SeedResponse
  seed_response n assets none = (assets, broken)
  seed_response n assets (some assets') = (assets', seeded n n)

  module _ (now : ℕ) (types : List AssetType) (codes : List PublicAssetType) where
    unfoldable pub seed_parsed :
        ℕ
        → ℕ
        → CsvError ⊎ List (AssetSeedRow number json)
        → List AssetRow
        → List AssetRow × SeedResponse
    seed_parsed org type_id (inl e) assets = (assets, csv_invalid e)
    seed_parsed org type_id (inr []) assets = (assets, no_data_rows)
    seed_parsed org type_id (inr (r ∷ rows)) assets =
        seed_response (length (r ∷ rows)) assets
          (seed_assets now org type_id (r ∷ rows) types codes assets)

    unfoldable pub seed_in_org :
        ℕ → Option ℕ → Option Text → List AssetRow → List AssetRow × SeedResponse
    seed_in_org org none file assets = (assets, asset_type_required)
    seed_in_org org (some type_id) none assets = (assets, file_required)
    seed_in_org org (some type_id) (some csv) assets =
        seed_parsed org type_id (parse_asset_csv number json csv) assets

    unfoldable pub seed_handler :
        (Text → Option ℕ)
        → Option Text
        → Option Text
        → Option ℕ
        → Option Text
        → List AssetRow
        → List AssetRow × SeedResponse
    seed_handler identifier header query type_id file assets =
        elim (resolve_org_id identifier header query) [
          | none ↦ (assets, org_id_invalid)
          | some org ↦ seed_in_org org type_id file assets
        ]
