-- ===== src/Csv/RoundTrip.antt =====
-- What `toCsv` writes, `parseCsv` reads.
use fieldpro_pilot.Base.{
  ℕ, Bool, true, false, ◌||◌, List, [], ◌∷◌, ◌++◌, map, ◌==◌, Text, includes, starts_with, All, any,
  Bool-cases, ◌≡◌, ◌≢◌, refl, ap, ◌∙◌, inl, inr, arith, append_assoc, append-nil, sym,
}
use fieldpro_pilot.Csv.{
  Parser, Row, Value, null, buffer, printed, shown, hex, escape, quoted, needs_quotes,
  double_quotes, value_at, join_cells, columns, lines_of, to_csv, step, doubled, parse_from,
  parse_csv, flush,
}

-- a character that has a meaning to the parser
abbrev pub is_special : ℕ → Bool
is_special c = c == b',' || c == b'"' || c == 10 || c == 13

abbrev pub IsPlain : Text → Type 0
IsPlain v = any is_special v ≡ false

abbrev open_cell : List (List Text) → List Text → Text → Parser
open_cell rows row cell = record { rows = rows; row = row; cell = cell; in_quotes = false }

abbrev in_quoted : List (List Text) → List Text → Text → Parser
in_quoted rows row cell = record { rows = rows; row = row; cell = cell; in_quotes = true }

parse_from-step_open :
    (c : ℕ) (s : Text) (rows : List (List Text)) (row : List Text) (cell : Text)
    → parse_from (c ∷ s) (open_cell rows row cell) ≡ parse_from s (step c (open_cell rows row cell))
unfolding parse_from
parse_from-step_open c [] rows row cell = refl
parse_from-step_open c (d ∷ s) rows row cell = refl

parse_from-next :
    (c d : ℕ) (s : Text) (st : Parser)
    → doubled c d st ≡ false
    → parse_from (c ∷ d ∷ s) st ≡ parse_from (d ∷ s) (step c st)
unfolding parse_from
parse_from-next c d s st h = elim (Bool-cases (doubled c d st)) [
  | inl e ↦ absurd (cc)
  | inr e ↦ rw (e, parse_from) refl
]

step-quoted :
    (c : ℕ) (rows : List (List Text)) (row : List Text) (cell : Text)
    → (c == b'"') ≡ false
    → step c (in_quoted rows row cell) ≡ in_quoted rows row (cell ++ c ∷ [])
unfolding step
step-quoted c rows row cell h = rw h

step-open :
    (c : ℕ) (rows : List (List Text)) (row : List Text) (cell : Text)
    → is_special c ≡ false
    → step c (open_cell rows row cell) ≡ open_cell rows row (cell ++ c ∷ [])
unfolding step
step-open c rows row cell h = ground arith

doubled-ne : (c d : ℕ) (st : Parser) → (c == b'"') ≡ false → doubled c d st ≡ false
unfolding doubled
doubled-ne c d st h = ground arith

parse_from-step_quoted :
    (c : ℕ) (s : Text) (rows : List (List Text)) (row : List Text) (cell : Text)
    → (c == b'"') ≡ false
    → parse_from (c ∷ s) (in_quoted rows row cell)
      ≡ parse_from s (in_quoted rows row (cell ++ c ∷ []))
parse_from-step_quoted c [] rows row cell h =
    unfold parse_from in ap flush (step-quoted c rows row cell h)
parse_from-step_quoted c (d ∷ s) rows row cell h =
    parse_from-next c d s (in_quoted rows row cell) (doubled-ne c d (in_quoted rows row cell) h)
    ∙ ap (parse_from (d ∷ s)) (step-quoted c rows row cell h)

-- Plain characters are taken into the cell.
parse_from-plain :
    (v rest : Text) (rows : List (List Text)) (row : List Text) (cell : Text)
    → IsPlain v
    → parse_from (v ++ rest) (open_cell rows row cell)
      ≡ parse_from rest (open_cell rows row (cell ++ v))
parse_from-plain [] rest rows row cell h = rw append-nil
parse_from-plain (c ∷ v) rest rows row cell h =
    parse_from-step_open c (v ++ rest) rows row cell
    ∙ ap (parse_from (v ++ rest)) (step-open c rows row cell (ground arith))
    ∙ parse_from-plain v rest rows row (cell ++ c ∷ []) (ground arith)
    ∙ ap (λ t. parse_from rest (open_cell rows row t)) (append_assoc cell (c ∷ []) v)

parse_from-doubled :
    (s : Text) (rows : List (List Text)) (row : List Text) (cell : Text)
    → parse_from (b'"' ∷ b'"' ∷ s) (in_quoted rows row cell)
      ≡ parse_from s (in_quoted rows row (cell ++ b'"' ∷ []))
unfolding parse_from
parse_from-doubled s rows row cell = refl

parse_from-close :
    (d : ℕ) (s : Text) (rows : List (List Text)) (row : List Text) (cell : Text)
    → (d == b'"') ≡ false
    → parse_from (b'"' ∷ d ∷ s) (in_quoted rows row cell)
      ≡ parse_from (d ∷ s) (open_cell rows row cell)
unfolding parse_from
parse_from-close d s rows row cell h = rw (h, parse_from) refl

-- A doubled text is taken into a quoted cell, up to the closing quote.
parse_from-double_quotes :
    (v : Text) (d : ℕ) (rest : Text) (rows : List (List Text)) (row : List Text) (cell : Text)
    → (d == b'"') ≡ false
    → parse_from (double_quotes v ++ b'"' ∷ d ∷ rest) (in_quoted rows row cell)
      ≡ parse_from (d ∷ rest) (open_cell rows row (cell ++ v))
unfolding double_quotes
parse_from-double_quotes [] d rest rows row cell h =
    rw append-nil (parse_from-close d rest rows row cell h)
parse_from-double_quotes (c ∷ v) d rest rows row cell h = elim (Bool-cases (c == b'"')) [
  | inl e ↦ rw e (
      parse_from-doubled (double_quotes v ++ b'"' ∷ d ∷ rest) rows row cell
      ∙ parse_from-double_quotes v d rest rows row (cell ++ b'"' ∷ []) h
      ∙ ap (λ t. parse_from (d ∷ rest) (open_cell rows row t))
          (append_assoc cell (b'"' ∷ []) v ∙ ap (λ q. cell ++ q ∷ v) (ground arith)))
  | inr e ↦ rw e (
      parse_from-step_quoted c (double_quotes v ++ b'"' ∷ d ∷ rest) rows row cell e
      ∙ parse_from-double_quotes v d rest rows row (cell ++ c ∷ []) h
      ∙ ap (λ t. parse_from (d ∷ rest) (open_cell rows row t)) (append_assoc cell (c ∷ []) v))
]

includes-cons : (c d : ℕ) (s : Text) → includes (c ∷ []) (d ∷ s) ≡ (c == d || includes (c ∷ []) s)
unfolding includes starts_with
includes-cons c d s = ground arith

-- A text that is not quoted is plain.
IsPlain-needs_quotes : (v : Text) → needs_quotes v ≡ false → IsPlain v
unfolding needs_quotes
IsPlain-needs_quotes [] h = refl
IsPlain-needs_quotes (c ∷ v) h =
    let f = λ (d : ℕ). includes-cons d c v in
    ground (arith, f b',', f b'"', f 10, f 13, IsPlain-needs_quotes v)

-- what is written as `t` is read as the cell `c`, whatever separator follows
abbrev Reads : Text → Text → Type 0
Reads c t =
    (d : ℕ) (rest : Text) (rows : List (List Text)) (row : List Text)
    → (d == b'"') ≡ false
    → parse_from (t ++ d ∷ rest) (open_cell rows row [])
      ≡ parse_from (d ∷ rest) (open_cell rows row c)

Reads-IsPlain : (v : Text) → IsPlain v → Reads v v
Reads-IsPlain v p d rest rows row h = parse_from-plain v (d ∷ rest) rows row [] p

parse_from-open_quote :
    (s : Text) (rows : List (List Text)) (row : List Text)
    → parse_from (b'"' ∷ s) (open_cell rows row []) ≡ parse_from s (in_quoted rows row [])
parse_from-open_quote s rows row =
    parse_from-step_open b'"' s rows row [] ∙ ap (parse_from s) (unfold step in refl)

Reads-quoted : (v : Text) → Reads v (quoted v)
unfolding quoted
Reads-quoted v d rest rows row h = elim (Bool-cases (needs_quotes v)) [
  | inl e ↦ rw e (
      rw append_assoc (
        parse_from-open_quote (double_quotes v ++ b'"' ∷ d ∷ rest) rows row
        ∙ parse_from-double_quotes v d rest rows row [] h))
  | inr e ↦ rw e (Reads-IsPlain v (IsPlain-needs_quotes v e) d rest rows row h)
]

Reads-escape : (v : Value) → Reads (shown v) (escape v)
unfolding shown escape
Reads-escape null = λ d rest rows row h. refl
Reads-escape (buffer bytes) = Reads-quoted (hex bytes)
Reads-escape (printed s) = Reads-quoted s

parse_from-comma :
    (s : Text) (rows : List (List Text)) (row : List Text) (cell : Text)
    → parse_from (b',' ∷ s) (open_cell rows row cell)
      ≡ parse_from s (open_cell rows (row ++ cell ∷ []) [])
parse_from-comma s rows row cell =
    parse_from-step_open b',' s rows row cell ∙ ap (parse_from s) (unfold step in refl)

parse_from-newline :
    (s : Text) (rows : List (List Text)) (row : List Text) (cell : Text)
    → parse_from (10 ∷ s) (open_cell rows row cell)
      ≡ parse_from s (open_cell (rows ++ (row ++ cell ∷ []) ∷ []) [] [])
parse_from-newline s rows row cell =
    parse_from-step_open 10 s rows row cell ∙ ap (parse_from s) (unfold step in refl)

-- A line is read as its cells.
parse_from-join_cells :
    (f g : Text → Text) (h : Text) (hs : List Text) (rest : Text) (rows : List (List Text))
    (row : List Text)
    → All (λ k. Reads (f k) (g k)) (h ∷ hs)
    → parse_from (join_cells (map g (h ∷ hs)) ++ 10 ∷ rest) (open_cell rows row [])
      ≡ parse_from rest (open_cell (rows ++ (row ++ map f (h ∷ hs)) ∷ []) [] [])
unfolding join_cells
parse_from-join_cells f g h [] rest rows row (r, rs) =
    r 10 rest rows row refl ∙ parse_from-newline rest rows row (f h)
parse_from-join_cells f g h (k ∷ ks) rest rows row (r, rs) =
    ap (λ t. parse_from t (open_cell rows row []))
      (append_assoc (g h) (b',' ∷ join_cells (map g (k ∷ ks))) (10 ∷ rest))
    ∙ r b',' (join_cells (map g (k ∷ ks)) ++ 10 ∷ rest) rows row refl
    ∙ parse_from-comma (join_cells (map g (k ∷ ks)) ++ 10 ∷ rest) rows row (f h)
    ∙ parse_from-join_cells f g k ks rest rows (row ++ f h ∷ []) rs
    ∙ ap (λ w. parse_from rest (open_cell (rows ++ w ∷ []) [] []))
        (append_assoc row (f h ∷ []) (map f (k ∷ ks)))

pub All-everywhere {ℓ κ} : {A : Type ℓ} {P : A → Type κ} (xs : List A) → ((x : A) → P x) → All P xs
All-everywhere [] p = tt
All-everywhere (x ∷ xs) p = (p x, All-everywhere xs p)

pub All-implies {ℓ κ} :
    {A : Type ℓ} {P Q : A → Type κ} (xs : List A) → ((x : A) → P x → Q x) → All P xs → All Q xs
All-implies [] f a = tt
All-implies (x ∷ xs) f (p, ps) = (f x p, All-implies xs f ps)

pub map_id {ℓ} : {A : Type ℓ} (xs : List A) → map (λ x. x) xs ≡ xs
map_id [] = refl
map_id (x ∷ xs) = ap (◌∷◌ x) (map_id xs)

-- the cells of a row as text
abbrev pub cells_of : List Text → Row → List Text
cells_of headers row = map (λ h. shown (value_at row h)) headers

parse_from-lines_of :
    (h : Text) (hs : List Text) (table : List Row) (rows : List (List Text))
    → parse_from (lines_of (h ∷ hs) table) (open_cell rows [] [])
      ≡ rows ++ map (cells_of (h ∷ hs)) table
unfolding lines_of
parse_from-lines_of h hs [] rows = unfold parse_from in rw append-nil
parse_from-lines_of h hs (row ∷ table) rows =
    parse_from-join_cells (λ k. shown (value_at row k)) (λ k. escape (value_at row k)) h hs
      (lines_of (h ∷ hs) table) rows []
      (All-everywhere (h ∷ hs) (λ k. Reads-escape (value_at row k)))
    ∙ parse_from-lines_of h hs table (rows ++ cells_of (h ∷ hs) row ∷ [])
    ∙ append_assoc rows (cells_of (h ∷ hs) row ∷ []) (map (cells_of (h ∷ hs)) table)

-- A table with at least one column, whose columns' names have no comma, quote or end of line, is
-- written by toCsv to a text that parseCsv reads as the line of the columns and one line for each
-- row, each cell holding the value as text, whatever characters it has.
pub parse_csv-to_csv :
    (row : Row) (rows : List Row)
    → columns row ≢ []
    → All IsPlain (columns row)
    → parse_csv (to_csv (row ∷ rows)) ≡ columns row ∷ map (cells_of (columns row)) (row ∷ rows)
unfolding to_csv parse_csv
parse_csv-to_csv [] rows some_column plain = absurd (some_column refl)
parse_csv-to_csv ((h, v) ∷ row) rows some_column plain =
    let hs = columns row in
    ap
      (λ t.
        parse_from (join_cells t ++ 10 ∷ lines_of (h ∷ hs) (((h, v) ∷ row) ∷ rows))
          (open_cell [] [] []))
      (sym (map_id (h ∷ hs)))
    ∙ parse_from-join_cells (λ k. k) (λ k. k) h hs (lines_of (h ∷ hs) (((h, v) ∷ row) ∷ rows)) [] []
        (All-implies (h ∷ hs) Reads-IsPlain plain)
    ∙ parse_from-lines_of h hs (((h, v) ∷ row) ∷ rows) (map (λ k. k) (h ∷ hs) ∷ [])
    ∙ ap (λ t. t ∷ map (cells_of (h ∷ hs)) (((h, v) ∷ row) ∷ rows)) (map_id (h ∷ hs))
