-- ===== src/Inventory/Seed/Answered.antt =====
-- What the handler of `POST /seed-assets` answers, and what it wrote then.
use fieldpro_pilot.Base.{
  ℕ, ◌≡◌, refl, Option, none, some, List, [], ◌∷◌, arith, length, Option-cases, Text, ◌⊎◌, inl, inr,
}
use fieldpro_pilot.Csv.Assets.{CsvError, parse_asset_csv}
use fieldpro_pilot.Inventory.{AssetType, PublicAssetType, resolve_org_id}
use fieldpro_pilot.Inventory.Seed.{
  public_type_of, AssetRow, seed_assets, SeedResponse, seeded, org_id_invalid, asset_type_required,
  file_required, no_data_rows, broken, csv_invalid, seed_response, seed_parsed, seed_in_org,
  seed_handler,
}
use fieldpro_pilot.Inventory.Seed.Seeded.{Seed, IsSeeded, upsert_assets-IsSeeded}

module _ {N J : Type 0} (number : Text → Option N) (json : Text → Option J) where
  module _ (now : ℕ) (types : List AssetType) (codes : List PublicAssetType)
      (identifier : Text → Option ℕ) (header query : Option Text) (type_id : Option ℕ)
      (file : Option Text) where
    -- an inventory was read from the file and written for the organisation named
    pub record IsSeededFrom (before after : List (AssetRow number json)) (n : ℕ) : Type 0 where
      pub org : ℕ
      pub core_type : ℕ
      pub public_type : PublicAssetType
      pub csv : Text
      pub rows : List (Seed number json)
      pub org_named : resolve_org_id identifier header query ≡ some org
      pub type_given : type_id ≡ some core_type
      pub type_known : public_type_of org core_type types codes ≡ some public_type
      pub file_given : file ≡ some csv
      pub parsed : parse_asset_csv number json csv ≡ inr rows
      pub counted : n ≡ length rows
      pub written : IsSeeded number json org public_type.id rows before after

    -- what an answer says of the table
    abbrev pub Answered :
        List (AssetRow number json)
        → List (AssetRow number json) × SeedResponse number json
        → Type 0
    Answered before (after, seeded n received) = IsSeededFrom before after n
    Answered before (after, org_id_invalid) = after ≡ before
    Answered before (after, asset_type_required) = after ≡ before
    Answered before (after, file_required) = after ≡ before
    Answered before (after, no_data_rows) = after ≡ before
    Answered before (after, broken) = after ≡ before
    Answered before (after, csv_invalid e) = after ≡ before

  -- the rows written for a type of the organisation
  seed_assets-IsSeeded :
      (now org type_id : ℕ) (rows : List (Seed number json)) (types : List AssetType)
      (codes : List PublicAssetType) (before after : List (AssetRow number json))
      → seed_assets number json now org type_id rows types codes before ≡ some after
      → (p : PublicAssetType) × (public_type_of org type_id types codes ≡ some p)
        × IsSeeded number json org p.id rows before after
  unfolding seed_assets
  seed_assets-IsSeeded now org type_id rows types codes before after h =
      elim (Option-cases (public_type_of org type_id types codes)) [
        | inl e ↦ absurd (ground arith)
        | inr (p, e) ↦
            (p, e, upsert_assets-IsSeeded number json now org p.id rows before after (ground arith))
      ]

  module _ (now : ℕ) (types : List AssetType) (codes : List PublicAssetType) where
    parsed-Answered :
        (identifier : Text → Option ℕ) (header query : Option Text) (org type_id : ℕ) (csv : Text)
        (result : CsvError ⊎ List (Seed number json)) (before : List (AssetRow number json))
        → resolve_org_id identifier header query ≡ some org
        → parse_asset_csv number json csv ≡ result
        → Answered now types codes identifier header query
            (some type_id)
            (some csv)
            before
            (seed_parsed number json now types codes org type_id result before)
    unfolding seed_parsed seed_response
    parsed-Answered identifier header query org type_id csv (inl e) before o h = refl
    parsed-Answered identifier header query org type_id csv (inr []) before o h = refl
    parsed-Answered identifier header query org type_id csv (inr (r ∷ rows)) before o h =
        elim (Option-cases
          (seed_assets number json now org type_id (r ∷ rows) types codes before)) [
            | inl e ↦ rw (e, seed_parsed, seed_response) refl
            | inr (after, e) ↦
                let (p, known, written) =
                  seed_assets-IsSeeded now org type_id (r ∷ rows) types codes before after e in
                rw (e, seed_parsed, seed_response)
                  (record {
                    org = org;
                    core_type = type_id;
                    public_type = p;
                    csv = csv;
                    rows = r ∷ rows;
                    org_named = o;
                    type_given = refl;
                    type_known = known;
                    file_given = refl;
                    parsed = h;
                    counted = refl;
                    written = written;
                  })
          ]

    in_org-Answered :
        (identifier : Text → Option ℕ) (header query : Option Text) (org : ℕ) (type_id : Option ℕ)
        (file : Option Text) (before : List (AssetRow number json))
        → resolve_org_id identifier header query ≡ some org
        → Answered now types codes identifier header query type_id file before
            (seed_in_org number json now types codes org type_id file before)
    unfolding seed_in_org
    in_org-Answered identifier header query org none file before o = refl
    in_org-Answered identifier header query org (some type_id) none before o = refl
    in_org-Answered identifier header query org (some type_id) (some csv) before o =
        parsed-Answered identifier header query org type_id csv (parse_asset_csv number json csv)
          before o refl

    -- Whatever a request to seed an inventory is answered: it is answered as seeded, and then the file
    -- was read, the type is the organisation's, each external id of the file has in the table what the
    -- last of its rows says, each other one of the organisation and the type what it had, and all other
    -- assets are as they were; or the table has not changed.
    pub seed_handler-Answered :
        (identifier : Text → Option ℕ) (header query : Option Text) (type_id : Option ℕ)
        (file : Option Text) (before : List (AssetRow number json))
        → Answered now types codes identifier header query type_id file before
            (seed_handler number json now types codes identifier header query type_id file before)
    unfolding seed_handler
    seed_handler-Answered identifier header query type_id file before =
        elim (Option-cases (resolve_org_id identifier header query)) [
          | inl e ↦ rw (e, seed_handler) refl
          | inr (org, e) ↦
              rw (e, seed_handler)
                (in_org-Answered identifier header query org type_id file before e)
        ]
