-- ===== src/Csv.antt =====
-- Comma-separated values: `toCsv` of backend/src/scripts/sftpExport.ts, which writes the tables of an
-- export, and `parseCsv` of backend/src/modules/admin/tenantRoutes.ts, which reads an inventory.
-- A row is a list of columns with their values, in the order of insertion.
pub mod RoundTrip
pub mod Assets
mod Tests
use fieldpro_pilot.Base.{
  ℕ, ◌+◌, ◌/◌, ◌%◌, Bool, true, false, ◌&&◌, ◌||◌, Option, none, some, List, [], ◌∷◌, ◌++◌, map,
  ltb, ◌==◌, if◌then◌else◌, Text, text, includes, length,
}
use fieldpro_pilot.Base.Dict.{lookup}

-- what a column of a query holds: null, a `Buffer`, or a value as `String` prints it
pub data Value : Type 0 where
  null : Value
  buffer : List ℕ → Value
  printed : Text → Value

abbrev pub Row : Type 0
Row = List (Text × Value)

-- `Buffer.toString("hex")`
unfoldable pub hex_digit : ℕ → ℕ
hex_digit d = if ltb d 10 then b'0' + d else 87 + d

unfoldable pub hex : List ℕ → Text
hex [] = []
hex (b ∷ bs) = hex_digit (b / 16) ∷ hex_digit (b % 16) ∷ hex bs

-- the text of a value before it is quoted
unfoldable pub shown : Value → Text
shown null = []
shown (buffer bytes) = hex bytes
shown (printed s) = s

-- `s.replace(/"/g, '""')`
unfoldable pub double_quotes : Text → Text
double_quotes [] = []
double_quotes (c ∷ s) = if c == b'"' then b'"' ∷ b'"' ∷ double_quotes s else c ∷ double_quotes s

unfoldable pub needs_quotes : Text → Bool
needs_quotes s =
    includes (text ",") s || includes (b'"' ∷ []) s || includes (10 ∷ []) s || includes (13 ∷ []) s

unfoldable pub quoted : Text → Text
quoted s = if needs_quotes s then b'"' ∷ (double_quotes s ++ b'"' ∷ []) else s

-- `row[h]`
unfoldable pub value_at : Row → Text → Value
value_at row h = elim (lookup h row) [ none ↦ null | some v ↦ v ]

unfoldable pub escape : Value → Text
unfolding shown quoted
escape null = []
escape (buffer bytes) = quoted (hex bytes)
escape (printed s) = quoted s

-- `cells.join(",")`
unfoldable pub join_cells : List Text → Text
join_cells [] = []
join_cells (c ∷ []) = c
join_cells (c ∷ d ∷ cs) = c ++ b',' ∷ join_cells (d ∷ cs)

-- `Object.keys(row)`
abbrev pub columns : Row → List Text
columns row = map (λ p. p.0) row

-- the lines, each with its end of line
unfoldable pub lines_of : List Text → List Row → Text
lines_of headers [] = []
lines_of headers (row ∷ rows) =
    join_cells (map (λ h. escape (value_at row h)) headers) ++ 10 ∷ lines_of headers rows

unfoldable pub to_csv : List Row → Text
to_csv [] = []
to_csv (row ∷ rows) = join_cells (columns row) ++ 10 ∷ lines_of (columns row) (row ∷ rows)

-- the variables of the loop of `parseCsv`
pub record Parser : Type 0 where
  pub rows : List (List Text)
  pub row : List Text
  pub cell : Text
  pub in_quotes : Bool

unfoldable pub add_char : ℕ → Parser → Parser
add_char c st = record st { cell = st.cell ++ c ∷ [] }

unfoldable pub end_cell : Parser → Parser
end_cell st = record st { row = st.row ++ st.cell ∷ []; cell = [] }

unfoldable pub end_row : Parser → Parser
end_row st = record st { rows = st.rows ++ (st.row ++ st.cell ∷ []) ∷ []; row = []; cell = [] }

-- one round at a character that is not the first of a doubled quote
unfoldable pub step : ℕ → Parser → Parser
unfolding add_char end_cell end_row
step c st =
    if st.in_quotes
    then (if c == b'"' then record st { in_quotes = false } else add_char c st)
    else if c == b'"'
    then record st { in_quotes = true }
    else if c == b','
    then end_cell st
    else if c == 13
    then st
    else if c == 10
    then end_row st
    else add_char c st

unfoldable pub flush : Parser → List (List Text)
flush st =
    if ltb 0 (length st.cell) || ltb 0 (length st.row)
    then st.rows ++ (st.row ++ st.cell ∷ []) ∷ []
    else st.rows

-- within quotes, a quote and the next character a quote as well
unfoldable pub doubled : ℕ → ℕ → Parser → Bool
doubled c d st = st.in_quotes && (c == b'"' && d == b'"')

-- the loop over what is left of the input
unfoldable pub parse_from : Text → Parser → List (List Text)
unfolding add_char step flush doubled
parse_from [] st = flush st
parse_from (c ∷ []) st = flush (step c st)
parse_from (c ∷ d ∷ s) st = elim (doubled c d st) [
  | true ↦ parse_from s (add_char b'"' st)
  | false ↦ parse_from (d ∷ s) (step c st)
]

unfoldable pub parse_csv : Text → List (List Text)
unfolding parse_from
parse_csv input = parse_from input (record { rows = []; row = []; cell = []; in_quotes = false })
