-- ===== src/Csv/Assets/Read.antt =====
-- An inventory that `toCsv` wrote is read by `parseAssetCsv`, row by row.
use fieldpro_pilot.Base.{
  ℕ, suc, Bool, true, false, not, Option, none, some, List, [], ◌∷◌, map, any, filter, find, length,
  ltb, Text, text, eq_text_iff, is_empty, trim, All, inr, ◌≡◌, ◌≢◌, refl, ap, arith, ◌∙◌, subst,
  ◌&&◌, ◌||◌, eq_text, eq_text_refl, Bool-cases, inl, if◌then◌else◌,
}
use fieldpro_pilot.Base.Dict.{lookup, insert, lookup-insert}
use fieldpro_pilot.Csv.{Row, shown, value_at, columns, to_csv}
use fieldpro_pilot.Csv.RoundTrip.{IsPlain, cells_of, parse_csv-to_csv, map_id}
use fieldpro_pilot.Csv.Assets.{
  required, has_column, is_filled, cell_at, cell_or_empty, AssetSeedRow, seed_row, check_row,
  seed_rows, reserved_csv_cols, attributes_from, Cell, coerce_cell_value, parse_numeric_cell,
  parse_grid, parse_under, parse_asset_csv,
}

-- The cell under a column that is there, of a row that is computed column by column.
cell_at-map :
    (h : Text) (f : Text → Text) (header : List Text)
    → has_column h header ≡ true
    → cell_at h header (map f header) ≡ some (f h)
unfolding cell_at has_column
cell_at-map h f [] e = cc
cell_at-map h f (k ∷ header) e = ground (arith, cell_at-map h f header, eq_text_iff h k)

cell_or_empty-map :
    (h : Text) (f : Text → Text) (header : List Text)
    → has_column h header ≡ true
    → cell_or_empty h header (map f header) ≡ f h
cell_or_empty-map h f header e =
    unfold cell_or_empty in rw (cell_at-map h f header e, cell_or_empty) refl

any-has_column :
    (h : Text) (f : Text → Text) (test : Text → Bool) (header : List Text)
    → has_column h header ≡ true
    → test (f h) ≡ true
    → any test (map f header) ≡ true
unfolding has_column
any-has_column h f test [] e t = e
any-has_column h f test (k ∷ header) e t =
    ground (arith, any-has_column h f test header, eq_text_iff h k)

length-is_empty : (t : Text) → is_empty t ≡ false → ltb 0 (length t) ≡ true
length-is_empty [] e = absurd (unfold is_empty in cc)
length-is_empty (c ∷ t) e = ground arith

-- a row with a value under a column has a cell that is not blank
is_filled-map :
    (h : Text) (f : Text → Text) (header : List Text)
    → has_column h header ≡ true
    → is_empty (trim (f h)) ≡ false
    → is_filled (map f header) ≡ true
unfolding is_filled
is_filled-map h f header e t =
    any-has_column h f (λ c. ltb 0 (length (trim c))) header e (length-is_empty (trim (f h)) t)

filter-All {ℓ} :
    {A : Type ℓ} (p : A → Bool) (xs : List A) → All (λ x. p x ≡ true) xs → filter p xs ≡ xs
filter-All p [] h = refl
filter-All p (x ∷ xs) (e, h) = rw e (ap (◌∷◌ x) (filter-All p xs h))

map-trim : (header : List Text) → All (λ h. trim h ≡ h) header → map trim header ≡ header
map-trim [] h = refl
map-trim (k ∷ header) (e, h) = rw e (ap (◌∷◌ k) (map-trim header h))

find-All {ℓ} :
    {A : Type ℓ} (p : A → Bool) (xs : List A)
    → All (λ x. p x ≡ true) xs
    → find (λ x. not (p x)) xs ≡ none
find-All p [] h = refl
find-All p (x ∷ xs) (e, h) = rw e (find-All p xs h)

-- what a row holds under a column, as text without the white space around it
abbrev pub entry : Text → Row → Text
entry column row = trim (shown (value_at row column))

-- a row whose id and name are not blank
abbrev pub IsNamed : Row → Type 0
IsNamed row =
    (is_empty (entry (text "external_id") row) ≡ false)
    × (is_empty (entry (text "display_name") row) ≡ false)

abbrev pub HasRequired : List Text → Type 0
HasRequired header = All (λ c. has_column c header ≡ true) required

columns-ne-nil : (header : List Text) → HasRequired header → header ≢ []
columns-ne-nil [] has e = unfold has_column in cc (has.0)
columns-ne-nil (h ∷ header) has e = cc

module _ {N J : Type 0} (number : Text → Option N) (json : Text → Option J) where
  check_row-cells_of :
      (r : ℕ) (header : List Text) (row : Row)
      → HasRequired header
      → IsNamed row
      → check_row number json r header (cells_of header row)
        ≡ inr (seed_row number json header (cells_of header row))
  check_row-cells_of r header row has (id, name) =
      let f = λ (h : Text). shown (value_at row h) in
      unfold check_row in
      rw
        (
          cell_or_empty-map (text "external_id") f header has.0,
          id,
          cell_or_empty-map (text "display_name") f header has.1.0,
          name,
        )
        refl

  seed_rows-cells_of :
      (r : ℕ) (header : List Text) (table : List Row)
      → HasRequired header
      → All IsNamed table
      → seed_rows number json r header (map (cells_of header) table)
        ≡ inr (map (λ row. seed_row number json header (cells_of header row)) table)
  unfolding seed_rows
  seed_rows-cells_of r header [] has named = refl
  seed_rows-cells_of r header (row ∷ table) has (n, named) =
      rw
        (
          check_row-cells_of r header row has n,
          seed_rows-cells_of (suc r) header table has named,
          seed_rows,
        )
        refl

  map-seed_row :
      {B : Type 0} (g : AssetSeedRow number json → B) (v : Row → B) (header : List Text)
      (table : List Row)
      → ((row : Row) → g (seed_row number json header (cells_of header row)) ≡ v row)
      → map g (map (λ row. seed_row number json header (cells_of header row)) table) ≡ map v table
  map-seed_row g v header [] e = refl
  map-seed_row g v header (row ∷ table) e =
      rw (e row) (ap (◌∷◌ (v row)) (map-seed_row g v header table e))

  -- the number under a column, none where there is no entry or no number is read
  abbrev pub number_under : Text → Row → Option N
  number_under column row = if is_empty (entry column row) then none else number (entry column row)

  -- the attribute under a column: there for a column that is not reserved and has an entry
  abbrev pub attribute_under : Text → List Text → Row → Option (Cell number json)
  attribute_under column header row =
      if (has_column column header && not (has_column column required))
        && not (is_empty (entry column row))
      then some (coerce_cell_value number json (entry column row))
      else none

  module _ (header row : List Text) where
    abbrev cell : Text → Text
    cell h = trim (cell_or_empty h header row)

    abbrev put : Text → List (Text × Cell number json) → List (Text × Cell number json)
    put k acc =
        if reserved_csv_cols k || is_empty (cell k)
        then acc
        else insert k (coerce_cell_value number json (cell k)) acc

    lookup-put_other :
        (h k : Text) (acc : List (Text × Cell number json))
        → eq_text h k ≡ false
        → lookup h (put k acc) ≡ lookup h acc
    lookup-put_other h k acc e = elim (Bool-cases (reserved_csv_cols k || is_empty (cell k))) [
      | inl f ↦ rw f refl
      | inr f ↦
          let apart : eq_text k h ≡ false = ground (arith, eq_text_iff h k, eq_text_iff k h) in
          rw (f, lookup-insert k h (coerce_cell_value number json (cell k)) acc, apart) refl
    ]

    -- what a column that is named gives, and what was there before where it gives nothing
    abbrev given : Text → Option (Cell number json) → Option (Cell number json)
    given h old =
        if not (reserved_csv_cols h) && not (is_empty (cell h))
        then some (coerce_cell_value number json (cell h))
        else old

    lookup-put :
        (h : Text) (acc : List (Text × Cell number json))
        → lookup h (put h acc) ≡ given h (lookup h acc)
    lookup-put h acc = elim (Bool-cases (reserved_csv_cols h)) [
      | inl f ↦ rw f refl
      | inr f ↦ elim (Bool-cases (is_empty (cell h))) [
        | inl g ↦ rw (f, g) refl
        | inr g ↦
            let c = coerce_cell_value number json (cell h) in
            rw (f, g, lookup-insert h h c acc, eq_text_refl h) refl
      ]
    ]

    given_again : (h : Text) (old : Option (Cell number json)) → given h (given h old) ≡ given h old
    given_again h old = ground arith

    given_once :
        (h : Text) (again : Bool) (acc : List (Text × Cell number json))
        → (if again then given h (lookup h (put h acc)) else lookup h (put h acc))
          ≡ given h (lookup h acc)
    given_once h true acc = rw (lookup-put h acc) (given_again h (lookup h acc))
    given_once h false acc = lookup-put h acc

    lookup-attributes :
        (h : Text) (hs : List Text) (acc : List (Text × Cell number json))
        → lookup h (attributes_from number json hs header row acc)
          ≡ (if has_column h hs then given h (lookup h acc) else lookup h acc)
    unfolding attributes_from has_column
    lookup-attributes h [] acc = refl
    lookup-attributes h (k ∷ hs) acc = elim (Bool-cases (eq_text h k)) [
      | inr e ↦ lookup-attributes h hs (put k acc) ∙ rw (e, lookup-put_other h k acc e) refl
      | inl e ↦
          lookup-attributes h hs (put k acc)
          ∙ rw e (
              subst
                (λ x.
                  (if has_column h hs then given h (lookup h (put x acc)) else lookup h (put x acc))
                  ≡ given h (lookup h acc))
                ((eq_text_iff h k).0 e) (given_once h (has_column h hs) acc))
    ]

  seed_row-entry :
      (header : List Text) (row : Row)
      → HasRequired header
      → ((seed_row number json header (cells_of header row)).external_id
          ≡ entry (text "external_id") row)
        × ((seed_row number json header (cells_of header row)).display_name
            ≡ entry (text "display_name") row)
        × ((seed_row number json header (cells_of header row)).lat ≡ number_under (text "lat") row)
        × ((seed_row number json header (cells_of header row)).lon ≡ number_under (text "lon") row)
  seed_row-entry header row has =
      let f = λ (h : Text). shown (value_at row h) in
      unfold seed_row in
      (
        ap trim (cell_or_empty-map (text "external_id") f header has.0),
        ap trim (cell_or_empty-map (text "display_name") f header has.1.0),
        ap (parse_numeric_cell number json) (cell_at-map (text "lat") f header has.1.1.0)
            ∙ (unfold parse_numeric_cell in refl),
        ap (parse_numeric_cell number json) (cell_at-map (text "lon") f header has.1.1.1.0)
            ∙ (unfold parse_numeric_cell in refl),
      )

  seed_row-attribute :
      (column : Text) (header : List Text) (row : Row)
      → lookup column (seed_row number json header (cells_of header row)).attributes
        ≡ attribute_under column header row
  seed_row-attribute column header row =
      let cells = cells_of header row in
      let f = λ (h : Text). shown (value_at row h) in
      let read : lookup column (seed_row number json header cells).attributes ≡ (
          if has_column column header
          then given header cells column (lookup column [])
          else lookup column []) =
        unfold seed_row in lookup-attributes header cells column header [] in
      read ∙ elim (Bool-cases (has_column column header)) [
        | inr e ↦ rw e (unfold lookup in refl)
        | inl e ↦
            rw (e, cell_or_empty-map column f header e)
              (unfold lookup has_column reserved_csv_cols in refl)
      ]

  parse_grid-cells_of :
      (header : List Text) (row : Row) (table : List Row)
      → HasRequired header
      → All (λ h. trim h ≡ h) header
      → All IsNamed (row ∷ table)
      → parse_grid number json (header ∷ map (cells_of header) (row ∷ table))
        ≡ inr (map (λ r. seed_row number json header (cells_of header r)) (row ∷ table))
  parse_grid-cells_of header row table has trimmed named =
      unfold parse_grid in
      rw (map-trim header trimmed) (
        unfold parse_under in
        rw (find-All (λ c. has_column c header) required has, parse_under)
          (seed_rows-cells_of 1 header (row ∷ table) has named))

  filled :
      (header : List Text) (table : List Row)
      → HasRequired header
      → All IsNamed table
      → All (λ r. is_filled r ≡ true) (map (cells_of header) table)
  filled header [] has named = tt
  filled header (row ∷ table) has (n, named) = (
    is_filled-map (text "external_id") (λ h. shown (value_at row h)) header has.0 n.0,
    filled header table has named,
  )

  filled_header : (header : List Text) → HasRequired header → is_filled header ≡ true
  filled_header header has =
      rw (← map_id header)
        (is_filled-map (text "external_id") (λ h. h) header has.0 (unfold is_empty trim in refl))

  -- An inventory with the required columns, in which every row has an id and a name that are not
  -- blank, is read again from what toCsv writes of it: without an error, with one asset for each row
  -- and in their order. Each has the id and the name of its row, without white space around them; the
  -- numbers that are read under lat and lon, if any; and under every other column that has an entry,
  -- and no other name, the value that the entry is coerced to. The names of the columns have no comma,
  -- quote, end of line, or white space around them.
  pub parse_asset_csv-to_csv :
      (row : Row) (rows : List Row)
      → All IsPlain (columns row)
      → All (λ h. trim h ≡ h) (columns row)
      → HasRequired (columns row)
      → All IsNamed (row ∷ rows)
      → (column : Text)
      → (seeds : List (AssetSeedRow number json)) × (parse_asset_csv number json
            (to_csv (row ∷ rows))
          ≡ inr seeds)
        × (map (λ s. s.external_id) seeds ≡ map (entry (text "external_id")) (row ∷ rows))
        × (map (λ s. s.display_name) seeds ≡ map (entry (text "display_name")) (row ∷ rows))
        × (map (λ s. s.lat) seeds ≡ map (number_under (text "lat")) (row ∷ rows))
        × (map (λ s. s.lon) seeds ≡ map (number_under (text "lon")) (row ∷ rows))
        × (map (λ s. lookup column s.attributes) seeds
            ≡ map (attribute_under column (columns row)) (row ∷ rows))
  parse_asset_csv-to_csv row rows plain trimmed has named column =
      let header = columns row in
      (
        map (λ r. seed_row number json header (cells_of header r)) (row ∷ rows),
        unfold parse_asset_csv in
            rw
              (
                parse_csv-to_csv row rows (columns-ne-nil (columns row) has) plain,
                filter-All is_filled (header ∷ map (cells_of header) (row ∷ rows))
                    (filled_header header has, filled header (row ∷ rows) has named),
              )
              (parse_grid-cells_of header row rows has trimmed named),
        map-seed_row (λ s. s.external_id) (entry (text "external_id")) header (row ∷ rows)
            (λ r. (seed_row-entry header r has).0),
        map-seed_row (λ s. s.display_name) (entry (text "display_name")) header (row ∷ rows)
            (λ r. let (id, name, lat, lon) = seed_row-entry header r has in name),
        map-seed_row (λ s. s.lat) (number_under (text "lat")) header (row ∷ rows)
            (λ r. let (id, name, lat, lon) = seed_row-entry header r has in lat),
        map-seed_row (λ s. s.lon) (number_under (text "lon")) header (row ∷ rows)
            (λ r. let (id, name, lat, lon) = seed_row-entry header r has in lon),
        map-seed_row (λ s. lookup column s.attributes) (attribute_under column header) header
            (row ∷ rows) (λ r. seed_row-attribute column header r),
      )
