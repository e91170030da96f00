-- ===== src/Serialize/Csv/Lookup.antt =====
-- A file with its three header lines, and the access to its cells by row and column name.
use network_core.Common.{
  ℕ, zero, suc, ◌≡◌, refl, ap, ◌∙◌, Bool, true, false, ◌||◌, none, some, List, [], ◌∷◌, map, length,
  get_elem?, take, arith, ltb, if◌then◌else◌, Bool-cases, inl, inr, ==_refl,
}
use network_core.Serialize.Csv.{Text}
use network_core.Serialize.Csv.Print.{Line, print_lines, fields, valid_lines}
use network_core.Serialize.Csv.RoundTrip.{parse_rows-print_lines}
use network_core.Serialize.Csv.Table.{
  Access, found, refused, undefined, CsvRow, eq_text, find_text, vector_at, row_at_key, value_at,
  Csv, csv_at, with_header, keep_rows, set_header, new_rows, parse_string,
}

-- a cell by the index of its row and the name of its column
unfoldable pub cell_of : Text → Access CsvRow → Access Text
unfolding row_at_key
cell_of key (found row) = row_at_key key row
cell_of key (refused e) = refused e
cell_of key undefined = undefined

unfoldable pub cell_at : ℕ → Text → Csv → Access Text
unfolding csv_at cell_of
cell_at index key csv = cell_of key (csv_at index csv)

some-inj : {A : Type 0} {a b : A} → some a ≡ some b → a ≡ b
some-inj {a = a} e = ap (λ o. elim o [ none ↦ a | some x ↦ x ]) e

-- no column before has the name
unfoldable pub has_name : Text → List Text → Bool
unfolding eq_text
has_name key [] = false
has_name key (x ∷ xs) = eq_text x key || has_name key xs

eq_text_refl : (t : Text) → eq_text t t ≡ true
unfolding eq_text
eq_text_refl [] = refl
eq_text_refl (c ∷ t) = rw (==_refl c) (eq_text_refl t)

find_first :
    (header : List Text) (j : ℕ) (key : Text)
    → get_elem? header j ≡ some key
    → has_name key (take j header) ≡ false
    → find_text header key ≡ some j
unfolding find_text has_name
find_first [] j key e h = absurd (ground arith)
find_first (x ∷ xs) zero key e h = ground (arith, eq_text_refl x)
find_first (x ∷ xs) (suc j) key e h = ground (arith, find_first xs j key e)

vector_at-get_elem? :
    {A : Type 0} (xs : List A) (i : ℕ) (x : A) → get_elem? xs i ≡ some x → vector_at xs i ≡ found x
unfolding vector_at
vector_at-get_elem? [] i x h = absurd (ground arith)
vector_at-get_elem? (y ∷ ys) zero x h = ground arith
vector_at-get_elem? (y ∷ ys) (suc i) x h = vector_at-get_elem? ys i x h

get_elem?-lt :
    {A : Type 0} (xs : List A) (i : ℕ) (x : A) → get_elem? xs i ≡ some x → ltb i (length xs) ≡ true
get_elem?-lt [] i x h = absurd (ground arith)
get_elem?-lt (y ∷ ys) zero x h = ground arith
get_elem?-lt (y ∷ ys) (suc i) x h = ground (arith, get_elem?-lt ys i x h)

get_elem?-with_header :
    (header : List Text) (rows : List (List Text)) (i : ℕ) (values : List Text)
    → get_elem? rows i ≡ some values
    → get_elem? (with_header header (new_rows rows)) i
      ≡ some (record { header_ = some header; values_ = values })
unfolding with_header new_rows
get_elem?-with_header header [] i values h = absurd (ground arith)
get_elem?-with_header header (r ∷ rows) zero values h =
    ap (λ v. some (record { header_ = some header; values_ = v })) (some-inj h)
get_elem?-with_header header (r ∷ rows) (suc i) values h =
    get_elem?-with_header header rows i values h

length-with_header :
    (header : List Text) (rows : List (List Text))
    → length (with_header header (new_rows rows)) ≡ length rows
unfolding with_header new_rows
length-with_header header [] = refl
length-with_header header (r ∷ rows) = ap suc (length-with_header header rows)

get_elem?-map :
    {A B : Type 0} (f : A → B) (xs : List A) (i : ℕ) (x : A)
    → get_elem? xs i ≡ some x
    → get_elem? (map f xs) i ≡ some (f x)
get_elem?-map f [] i x h = absurd (ground arith)
get_elem?-map f (y ∷ ys) zero x h = ap (λ y'. some (f y')) (some-inj h)
get_elem?-map f (y ∷ ys) (suc i) x h = get_elem?-map f ys i x h

csv_at-found :
    (csv : Csv) (i : ℕ) (row : CsvRow)
    → get_elem? csv.content i ≡ some row
    → csv_at i csv ≡ found row
unfolding csv_at
csv_at-found csv i row e =
    rw (get_elem?-lt csv.content i row e) (vector_at-get_elem? csv.content i row e)

-- the object after a file with three header lines
abbrev pub loaded : (Text → Text) → Line → Line → Line → List Line → Csv → Csv
loaded trim h t d ls csv = record csv {
  header = fields trim h;
  types = fields trim t;
  desc = fields trim d;
  content =
      with_header (fields trim h)
        (new_rows (map (fields trim) (if csv.header_is_in_rows then h ∷ (t ∷ (d ∷ ls)) else ls)));
}

module _ (trim : Text → Text) (h t d : Line) (ls : List Line) (csv : Csv) where
  -- A text of at least three lines gives its first three as the names, the types and the
  -- descriptions of the columns, and the other lines as the rows, or all lines when the header is
  -- to stay in the rows; every row knows the names, and nothing is thrown.
  pub parse_string-print_lines :
      valid_lines (h ∷ (t ∷ (d ∷ ls))) ≡ true
      → csv.first_line_is_header ≡ true
      → parse_string trim (print_lines (h ∷ (t ∷ (d ∷ ls)))) csv ≡ (loaded trim h t d ls csv, none)
  unfolding parse_string keep_rows set_header new_rows with_header
  parse_string-print_lines v f =
      ap (keep_rows csv) (parse_rows-print_lines trim (h ∷ (t ∷ (d ∷ ls))) v)
      ∙ ap (λ c. (c, none)) three_lines
    where
      three_lines :
          set_header (record csv {
            header = [];
            content = new_rows (map (fields trim) (h ∷ (t ∷ (d ∷ ls))));
          })
          ≡ loaded trim h t d ls csv
      three_lines = elim (Bool-cases csv.header_is_in_rows) [
        | inl r ↦ rw (f, r) refl
        | inr r ↦ rw (f, r) refl
      ]

  -- After such a text, with the header taken off the rows, the cell of a row under a name is the
  -- field of that line in the first column with this name.
  pub cell_at-parse_string :
      (i j : ℕ) (l : Line) (key cell : Text)
      → valid_lines (h ∷ (t ∷ (d ∷ ls))) ≡ true
      → csv.first_line_is_header ≡ true
      → csv.header_is_in_rows ≡ false
      → get_elem? ls i ≡ some l
      → get_elem? (fields trim h) j ≡ some key
      → has_name key (take j (fields trim h)) ≡ false
      → get_elem? (fields trim l) j ≡ some cell
      → cell_at i key (parse_string trim (print_lines (h ∷ (t ∷ (d ∷ ls)))) csv).0 ≡ found cell
  unfolding cell_at row_at_key value_at cell_of
  cell_at-parse_string i j l key cell v f r hi hj hn hc =
      let row : CsvRow = record { header_ = some (fields trim h); values_ = fields trim l } in
      ap (λ p. cell_at i key p.0) (parse_string-print_lines v f)
      ∙ ap (cell_of key) (
          csv_at-found (loaded trim h t d ls csv) i row (
            rw r (
              get_elem?-with_header (fields trim h) (map (fields trim) ls) i (fields trim l)
                (get_elem?-map (fields trim) ls i l hi))))
      ∙ ap (λ o. value_at o (fields trim l)) (find_first (fields trim h) j key hj hn)
      ∙ vector_at-get_elem? (fields trim l) j cell hc
