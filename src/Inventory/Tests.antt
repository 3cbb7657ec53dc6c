-- ===== src/Inventory/Tests.antt =====
-- An inventory with two rows of one id, read and written.
use fieldpro_pilot.Base.{
  ℕ, ◌≡◌, refl, Bool, true, false, any, Option, none, some, List, [], ◌∷◌, Text, text, is_empty,
  eq_text, trim, length, ltb,
}
use fieldpro_pilot.Inventory.{
  AssetType, PublicAssetType, TypeBody, resolve_org_id, validated, validate_from,
  ObservationTypeInput, fractional, stored_order, order_written, upsert_observation_type,
  upsert_each, upsert_observation_types,
}
use fieldpro_pilot.Inventory.Configure.{
  Registry, upserted, broken, register_handler, register_body, register_inputs,
}
use fieldpro_pilot.Inventory.Configure.Registered.{Registers, register_handler-Registers}
use fieldpro_pilot.Csv.Assets.{AssetSeedRow}
use fieldpro_pilot.Inventory.Seed.Seeded.{IsSeeded, upsert_assets-some}
use fieldpro_pilot.Inventory.Seed.{upsert_asset, upsert_assets, is_taken, AssetRow, seed_handler}
use fieldpro_pilot.Inventory.Seed.Answered.{Answered, seed_handler-Answered}

abbrev number : Text → Option ℕ
number s = some (length s)

abbrev json : Text → Option Text
json s = some s

abbrev identifier : Text → Option ℕ
identifier s = some (length s)

abbrev bench : AssetType
bench = record {
  id = 3;
  org_id = 2;
  type_key = text "bench";
  display_name = text "Bench";
  description = none;
  is_active = true;
}

abbrev code : PublicAssetType
code = record { id = 8; code = text "bench" }

abbrev inventory : Text
inventory = text "external_id,display_name,lat,lon\nB1,Old,1,1\nB1,New,1,\n"

seed_example :
    Answered number json 50
      (bench ∷ [])
      (code ∷ [])
      identifier
      (some (text "##"))
      none
      (some 3)
      (some inventory)
      []
      (seed_handler number json 50
        (bench ∷ [])
        (code ∷ [])
        identifier
        (some (text "##"))
        none
        (some 3)
        (some inventory)
        [])
seed_example =
    seed_handler-Answered number json 50 (bench ∷ []) (code ∷ []) identifier (some (text "##")) none
      (some 3) (some inventory) []

abbrev seed_of : Text → AssetSeedRow number json
seed_of name = record {
  external_id = text "B1";
  display_name = name;
  lat = some 1;
  lon = none;
  attributes = [];
}

abbrev old_bench : AssetRow number json
old_bench = record {
  org_id = 2;
  asset_type_id = 8;
  seed_key = text "B1";
  seed = seed_of (text "Oldest");
  active = false;
  updated_at = 4;
}

free : any (is_taken number json 2 8 (text "B1")) (old_bench ∷ []) ≡ false
unfolding eq_text
free = refl

written_example :
    (after : List (AssetRow number json)) × (upsert_assets number json 50 2 8
        (seed_of (text "Old") ∷ seed_of (text "New") ∷ [])
        (old_bench ∷ [])
      ≡ some after)
    × IsSeeded number json 2 8
        (seed_of (text "Old") ∷ seed_of (text "New") ∷ [])
        (old_bench ∷ [])
        after
written_example =
    upsert_assets-some number json 50 2 8 (seed_of (text "Old") ∷ seed_of (text "New") ∷ [])
      (old_bench ∷ []) (free, (free, tt))

-- The asset that is there is updated, and stays inactive.
updated_test :
    upsert_assets number json 50 2 8
      (seed_of (text "Old") ∷ seed_of (text "New") ∷ [])
      (old_bench ∷ [])
    ≡ some (record old_bench { seed = seed_of (text "New"); updated_at = 50 } ∷ [])
unfolding upsert_assets upsert_asset eq_text
updated_test = refl

abbrev wetness : TypeBody
wetness = record {
  observation_key = some (text " wet ");
  display_name = some (text "Wet");
  value_type = some (text "boolean");
  valid_values = none;
  is_required = true;
  sort_order = none;
}

-- a body whose order the column does not take
abbrev dryness : TypeBody
dryness = record {
  observation_key = some (text "dry");
  display_name = some (text "Dry");
  value_type = some (text "boolean");
  valid_values = none;
  is_required = true;
  sort_order = some (fractional (text "1.5"));
}

abbrev registry : Registry
registry = record { asset_types = bench ∷ []; observation_types = []; serial = 4 }

abbrev by_length : Text → Text → Bool
by_length a b = ltb (length a) (length b)

abbrev all_accepted : ObservationTypeInput → Bool
all_accepted t = true

register_example :
    Registers identifier by_length all_accepted
      (some (text "##"))
      none
      (some 3)
      (some (wetness ∷ dryness ∷ []))
      registry
      (register_handler identifier by_length all_accepted
        (some (text "##"))
        none
        (some 3)
        (some (wetness ∷ dryness ∷ []))
        registry)
register_example =
    register_handler-Registers identifier by_length all_accepted (some (text "##")) none (some 3)
      (some (wetness ∷ dryness ∷ [])) registry

-- One input is registered.
registered_test :
    (register_handler identifier by_length all_accepted
      (some (text "##"))
      none
      (some 3)
      (some (wetness ∷ []))
      registry).1
    ≡ upserted 1
unfolding register_handler resolve_org_id is_empty register_body register_inputs validate_from
    validated trim eq_text upsert_observation_types upsert_each upsert_observation_type
    order_written stored_order
registered_test = refl

-- The first input stays registered where the second is refused.
refused_test :
    (register_handler identifier by_length all_accepted
      (some (text "##"))
      none
      (some 3)
      (some (wetness ∷ dryness ∷ []))
      registry).1
    ≡ broken
unfolding register_handler resolve_org_id is_empty register_body register_inputs validate_from
    validated trim eq_text upsert_observation_types upsert_each upsert_observation_type
    order_written stored_order
refused_test = refl

kept_test :
    length
      (register_handler identifier by_length all_accepted
        (some (text "##"))
        none
        (some 3)
        (some (wetness ∷ dryness ∷ []))
        registry).0.observation_types
    ≡ 1
unfolding register_handler resolve_org_id is_empty register_body register_inputs validate_from
    validated trim eq_text upsert_observation_types upsert_each upsert_observation_type
    order_written stored_order
kept_test = refl
