-- ===== src/Csv/Assets.antt =====
-- `parseAssetCsv` of backend/src/modules/admin/tenantRoutes.ts: an inventory of assets from its CSV.
pub mod Read
use fieldpro_pilot.Base.{
  ℕ, zero, suc, ◌+◌, Bool, true, false, ◌&&◌, ◌||◌, not, Option, none, some, List, [], ◌∷◌, map,
  any, all, filter, find, length, leb, ltb, ◌==◌, if◌then◌else◌, Text, text, eq_text, is_empty,
  trim, to_lower_case, starts_with, ◌⊎◌, inl, inr,
}
use fieldpro_pilot.Base.Dict.{insert}
use mathlib.Core.List.{reverse}
use fieldpro_pilot.Csv.{parse_csv}

-- what is thrown
pub data CsvError : Type 0 where
  missing_column : Text → CsvError
  external_id_empty : ℕ → CsvError
  display_name_empty : ℕ → CsvError

abbrev pub required : List Text
required = text "external_id" ∷ text "display_name" ∷ text "lat" ∷ text "lon" ∷ []

-- `RESERVED_CSV_COLS.has(h)`
unfoldable pub reserved_csv_cols : Text → Bool
reserved_csv_cols h = any (eq_text h) required

unfoldable pub has_column : Text → List Text → Bool
has_column h header = any (eq_text h) header

-- `r.some(c => c.trim().length > 0)`
unfoldable pub is_filled : List Text → Bool
is_filled row = any (λ c. ltb 0 (length (trim c))) row

-- `row[idx[h]] ?? ""`: of two columns with one name the last has the index
unfoldable pub cell_at : Text → List Text → List Text → Option Text
cell_at h [] row = none
cell_at h (k ∷ header) [] = none
cell_at h (k ∷ header) (c ∷ row) =
    if has_column h header then cell_at h header row else if eq_text h k then some c else none

unfoldable pub cell_or_empty : Text → List Text → List Text → Text
cell_or_empty h header row = elim (cell_at h header row) [ none ↦ [] | some c ↦ c ]

abbrev pub is_digit : ℕ → Bool
is_digit c = leb b'0' c && leb c b'9'

abbrev pub some_digits : Text → Bool
some_digits s = not (is_empty s) && all is_digit s

-- the digits before the first dot and, if there is one, those behind it
unfoldable pub is_decimal_from : Text → Text → Bool
unfolding is_empty
is_decimal_from before [] = some_digits before
is_decimal_from before (c ∷ s) =
    let rest = is_decimal_from (c ∷ before) s in
    if c == b'.' then some_digits before && some_digits s else rest

-- `/^-?\d+(\.\d+)?$/.test(raw)`
unfoldable pub is_decimal : Text → Bool
unfolding is_decimal_from
is_decimal [] = false
is_decimal (c ∷ s) = if c == b'-' then is_decimal_from [] s else is_decimal_from [] (c ∷ s)

unfoldable pub enclosed : ℕ → ℕ → Text → Bool
unfolding starts_with
enclosed a b raw = starts_with (a ∷ []) raw && starts_with (b ∷ []) (reverse raw)

-- Numbers and JSON values are JavaScript's: `number` is `Number(s)` where that is finite, and `json`
-- is `JSON.parse`, none where it throws.
module _ {N J : Type 0} (number : Text → Option N) (json : Text → Option J) where
  pub data Cell : Type 0 where
    boolean : Bool → Cell
    numeric : N → Cell
    parsed : J → Cell
    raw_text : Text → Cell

  pub record AssetSeedRow : Type 0 where
    pub external_id : Text
    pub display_name : Text
    pub lat : Option N
    pub lon : Option N
    pub attributes : List (Text × Cell)

  unfoldable pub parse_numeric_cell : Option Text → Option N
  unfolding is_empty
  parse_numeric_cell none = none
  parse_numeric_cell (some raw) = if is_empty (trim raw) then none else number (trim raw)

  unfoldable pub coerce_json : Text → Cell
  coerce_json raw =
      if enclosed b'{' b'}' raw || enclosed b'[' b']' raw
      then elim (json raw) [ none ↦ raw_text raw | some j ↦ parsed j ]
      else raw_text raw

  unfoldable pub coerce_cell_value : Text → Cell
  unfolding coerce_json is_decimal enclosed
  coerce_cell_value raw =
      if eq_text (to_lower_case raw) (text "true")
      then boolean true
      else if eq_text (to_lower_case raw) (text "false")
      then boolean false
      else elim (number raw) [
        | none ↦ coerce_json raw
        | some n ↦ if is_decimal raw then numeric n else coerce_json raw
      ]

  -- the loop over the header that fills `attributes`
  unfoldable pub attributes_from :
      List Text → List Text → List Text → List (Text × Cell) → List (Text × Cell)
  unfolding reserved_csv_cols cell_or_empty
  attributes_from [] header row acc = acc
  attributes_from (h ∷ hs) header row acc = attributes_from hs header row (
      if reserved_csv_cols h || is_empty (trim (cell_or_empty h header row))
      then acc
      else insert h (coerce_cell_value (trim (cell_or_empty h header row))) acc)

  unfoldable pub seed_row : List Text → List Text → AssetSeedRow
  unfolding cell_or_empty parse_numeric_cell attributes_from
  seed_row header row = record {
    external_id = trim (cell_or_empty (text "external_id") header row);
    display_name = trim (cell_or_empty (text "display_name") header row);
    lat = parse_numeric_cell (cell_at (text "lat") header row);
    lon = parse_numeric_cell (cell_at (text "lon") header row);
    attributes = attributes_from header header row [];
  }

  -- the checks of a row, whose number in the message counts the header as 1
  unfoldable pub check_row : ℕ → List Text → List Text → CsvError ⊎ AssetSeedRow
  check_row r header row =
      if is_empty (trim (cell_or_empty (text "external_id") header row))
      then inl (external_id_empty (r + 1))
      else if is_empty (trim (cell_or_empty (text "display_name") header row))
      then inl (display_name_empty (r + 1))
      else inr (seed_row header row)

  unfoldable pub seed_rows : ℕ → List Text → List (List Text) → CsvError ⊎ List AssetSeedRow
  seed_rows r header [] = inr []
  seed_rows r header (row ∷ rows) =
      let rest = seed_rows (suc r) header rows in
      elim (check_row r header row) [
        | inl e ↦ inl e
        | inr seed ↦ elim rest [ inl e ↦ inl e | inr seeds ↦ inr (seed ∷ seeds) ]
      ]

  -- from the check of the header, which is trimmed already, on
  unfoldable pub parse_under : List Text → List (List Text) → CsvError ⊎ List AssetSeedRow
  parse_under header rows = elim (find (λ col. not (has_column col header)) required) [
    | some col ↦ inl (missing_column col)
    | none ↦ seed_rows 1 header rows
  ]

  unfoldable pub parse_grid : List (List Text) → CsvError ⊎ List AssetSeedRow
  parse_grid [] = inr []
  parse_grid (header ∷ []) = inr []
  parse_grid (header ∷ row ∷ rows) = parse_under (map trim header) (row ∷ rows)

  unfoldable pub parse_asset_csv : Text → CsvError ⊎ List AssetSeedRow
  parse_asset_csv input = parse_grid (filter is_filled (parse_csv input))
