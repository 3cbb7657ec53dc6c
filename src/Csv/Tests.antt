-- ===== src/Csv/Tests.antt =====
-- Tests of the two directions, and the round trips at concrete tables.
use fieldpro_pilot.Base.{
  ℕ, Option, none, some, List, [], ◌∷◌, map, Text, text, inl, inr, ◌≡◌, refl, length, if◌then◌else◌,
  ltb,
}
use fieldpro_pilot.Base.{starts_with, includes, eq_text, is_empty, trim}
use fieldpro_pilot.Base.Dict.{lookup}
use fieldpro_pilot.Csv.{
  Row, null, buffer, printed, to_csv, parse_csv, lines_of, join_cells, escape, value_at,
  needs_quotes, double_quotes, columns, shown, hex, hex_digit,
}
use fieldpro_pilot.Csv.RoundTrip.{parse_csv-to_csv, cells_of}
use fieldpro_pilot.Csv.Assets.{
  AssetSeedRow, parse_asset_csv, has_column, is_filled, missing_column, parse_grid, parse_under,
}
use fieldpro_pilot.Csv.Assets.Read.{parse_asset_csv-to_csv, entry, number_under, attribute_under}

abbrev stop_row : Row
stop_row = (text "id", printed (text "7")) ∷ (text "note", printed (text "wet, \"cold\"")) ∷ []

abbrev bare_row : Row
bare_row = (text "id", buffer (10 ∷ 255 ∷ [])) ∷ (text "note", null) ∷ []

written : to_csv (stop_row ∷ bare_row ∷ []) ≡ text "id,note\n7,\"wet, \"\"cold\"\"\"\n0aff,\n"
unfolding to_csv lines_of join_cells escape value_at lookup eq_text needs_quotes double_quotes
    includes starts_with hex hex_digit
written = refl

parse_example :
    parse_csv (to_csv (stop_row ∷ bare_row ∷ []))
    ≡ columns stop_row ∷ map (cells_of (columns stop_row)) (stop_row ∷ bare_row ∷ [])
parse_example = parse_csv-to_csv stop_row (bare_row ∷ []) (λ e. cc) (refl, (refl, tt))

abbrev inventory : Row
inventory =
    (text "external_id", printed (text " S-1 "))
    ∷ (text "display_name", printed (text "Main, 1st"))
    ∷ (text "lat", printed (text "47"))
    ∷ (text "lon", null)
    ∷ (text "covered", printed (text "TRUE"))
    ∷ []

-- a stand-in for `Number`, which reads a text of digits
abbrev number : Text → Option ℕ
number s = if ltb (length s) 3 then some (length s) else none

abbrev json : Text → Option Text
json s = some s

assets_example :
    (seeds : List (AssetSeedRow number json)) × (parse_asset_csv number json
        (to_csv (inventory ∷ []))
      ≡ inr seeds)
    × (map (λ s. s.external_id) seeds ≡ map (entry (text "external_id")) (inventory ∷ []))
    × (map (λ s. s.display_name) seeds ≡ map (entry (text "display_name")) (inventory ∷ []))
    × (map (λ s. s.lat) seeds ≡ map (number_under number json (text "lat")) (inventory ∷ []))
    × (map (λ s. s.lon) seeds ≡ map (number_under number json (text "lon")) (inventory ∷ []))
    × (map (λ s. lookup (text "covered") s.attributes) seeds
        ≡ map (attribute_under number json (text "covered") (columns inventory)) (inventory ∷ []))
assets_example =
    unfold value_at shown lookup eq_text trim is_empty has_column in
    parse_asset_csv-to_csv number json inventory [] (refl, (refl, (refl, (refl, (refl, tt)))))
      (refl, (refl, (refl, (refl, (refl, tt))))) (refl, (refl, (refl, (refl, tt))))
      ((refl, refl), tt) (text "covered")

column_missing :
    parse_asset_csv number json (text "external_id,lat\nS,1\n")
    ≡ inl (missing_column (text "display_name"))
unfolding parse_asset_csv parse_csv parse_grid parse_under is_filled has_column eq_text trim
column_missing = refl
