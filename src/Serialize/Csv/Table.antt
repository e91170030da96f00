-- ===== src/Serialize/Csv/Table.antt =====
-- The classes `csv_row` and `csv` of network/serialize/detail/csv_parser.hpp: the rows with their
-- header, the access by index and by key, and the two parse functions. The pointer of a row to
-- the member `header_` is the header it points to. The members `has_type_` and `has_desc_`,
-- which the constructor leaves uninitialised, are arguments of it. A file is its content, or none
-- when it cannot be opened: then `tellg` is -1 and `read_all` of network/util/file.hpp is empty.
use network_core.Common.{
  ℕ, ◌+◌, ◌*◌, zero, suc, Bool, true, false, not, ◌&&◌, Option, none, some, List, [], ◌∷◌, ltb,
  ◌==◌, if◌then◌else◌, length,
}
use network_core.Serialize.Csv.{
  Text, CsvError, no_header, no_key, index_overflow, fail, Outcome, going, threw, parse_rows,
}

-- an access gives a value, throws, or reads behind the end of a vector
pub data Access (A : Type 0) : Type 0 where
  found : A → Access A
  refused : CsvError → Access A
  undefined : Access A

pub record CsvRow : Type 0 where
  pub header_ : Option (List Text)
  pub values_ : List Text

-- std::string ==
unfoldable pub eq_text : Text → Text → Bool
eq_text [] [] = true
eq_text [] (c ∷ t) = false
eq_text (c ∷ t) [] = false
eq_text (c ∷ t) (d ∷ u) = (c == d) && eq_text t u

-- std::find, and the distance from the begin; none at the end
unfoldable pub find_text : List Text → Text → Option ℕ
unfolding eq_text
find_text [] key = none
find_text (x ∷ xs) key = next_found (eq_text x key) (find_text xs key)
  where
    next_found : Bool → Option ℕ → Option ℕ
    next_found true rest = some 0
    next_found false none = none
    next_found false (some i) = some (suc i)

-- `vector::operator[]`, without a check
unfoldable pub vector_at : {A : Type 0} → List A → ℕ → Access A
vector_at [] i = undefined
vector_at (x ∷ xs) zero = found x
vector_at (x ∷ xs) (suc i) = vector_at xs i

-- csv_row::operator[](size_t)
unfoldable pub row_at : ℕ → CsvRow → Access Text
unfolding vector_at
row_at index row =
    if ltb index (length row.values_) then vector_at row.values_ index else refused index_overflow

-- csv_row::operator[](const string&)
unfoldable pub value_at : Option ℕ → List Text → Access Text
unfolding vector_at
value_at none values = refused no_key
value_at (some i) values = vector_at values i

unfoldable pub row_at_key : Text → CsvRow → Access Text
unfolding find_text value_at
row_at_key key row = elim (row.header_) [
  | none ↦ refused no_header
  | some header ↦ value_at (find_text header key) row.values_
]

pub record Csv : Type 0 where
  pub first_line_is_header : Bool
  pub has_type : Bool
  pub has_desc : Bool
  pub header_is_in_rows : Bool
  pub content : List CsvRow
  pub header : List Text
  pub types : List Text
  pub desc : List Text

-- the constructor, with what the two members it does not set happen to be
unfoldable pub new_csv : Bool → Bool → Bool → Bool → Csv
new_csv first_line_is_header header_is_in_rows junk_type junk_desc = record {
  first_line_is_header = first_line_is_header;
  has_type = junk_type;
  has_desc = junk_desc;
  header_is_in_rows = header_is_in_rows;
  content = [];
  header = [];
  types = [];
  desc = [];
}

-- csv::operator[](size_t)
unfoldable pub csv_at : ℕ → Csv → Access CsvRow
unfolding vector_at
csv_at index csv =
    if ltb index (length csv.content) then vector_at csv.content index else refused index_overflow

unfoldable pub header_lines : Csv → ℕ
header_lines csv =
    (if csv.first_line_is_header then 1 else 0)
    + ((if csv.has_type then 1 else 0) + (if csv.has_desc then 1 else 0))

unfoldable pub with_header : List Text → List CsvRow → List CsvRow
with_header header [] = []
with_header header (row ∷ rows) = record row { header_ = some header } ∷ with_header header rows

unfoldable pub set_header : Csv → Csv
unfolding with_header
set_header csv = if not csv.first_line_is_header then csv else three csv.content
  where
    three : List CsvRow → Csv
    three (h ∷ (t ∷ (d ∷ rows))) = record csv {
      header = h.values_;
      types = t.values_;
      desc = d.values_;
      content =
          with_header h.values_ (if not csv.header_is_in_rows then rows else h ∷ (t ∷ (d ∷ rows)));
    }
    three rows = csv

unfoldable pub new_rows : List (List Text) → List CsvRow
new_rows [] = []
new_rows (values ∷ rows) = record { header_ = none; values_ = values } ∷ new_rows rows

-- the members after the loop, its last switch and set_header
unfoldable pub keep_rows : Csv → Outcome (List (List Text)) → Csv × Option CsvError
unfolding set_header new_rows
keep_rows csv (going rows) =
    (set_header (record csv { header = []; content = new_rows rows }), none)
keep_rows csv (threw e rows) = (record csv { header = []; content = new_rows rows }, some e)

module _ (trim : Text → Text) where
  -- the object after the call, and what was thrown
  unfoldable pub parse_string : Text → Csv → Csv × Option CsvError
  unfolding keep_rows
  parse_string text csv = keep_rows csv (parse_rows trim text)

  -- every exception of the reading is thrown again as `fail`
  unfoldable pub parse_file : Option Text → Csv → Csv × Option CsvError
  unfolding parse_string
  parse_file none csv = parse_string [] csv
  parse_file (some content) csv =
      if length content == 0
      then (csv, none)
      else if ltb (50 * (1024 * 1024)) (length content)
      then (csv, some fail)
      else parse_string content csv
