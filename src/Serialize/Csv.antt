-- ===== src/Serialize/Csv.antt =====
-- `csv::parse_string` of network/serialize/detail/csv_parser.hpp: a state machine over the bytes
-- of the text, one function for each case of its switch. `boost::trim_copy_if` is a parameter.
pub mod Table
pub mod Print
pub mod Scan
pub mod RoundTrip
pub mod Errors
pub mod Lookup
use network_core.Common.{
  ℕ, Bool, Option, none, some, List, [], ◌∷◌, ◌++◌, ◌||◌, ◌==◌, if◌then◌else◌,
}

abbrev pub Text : Type 0
Text = List ℕ

abbrev pub quote_char : ℕ
quote_char = 34

abbrev pub comma_char : ℕ
comma_char = 44

abbrev pub cr_char : ℕ
cr_char = 13

abbrev pub lf_char : ℕ
lf_char = 10

pub data CsvError : Type 0 where
  ok : CsvError
  fail : CsvError
  no_header : CsvError
  no_key : CsvError
  index_overflow : CsvError
  over_max_size : CsvError
  has_empty_line : CsvError
  invalid_newline_character : CsvError
  syntax_error : CsvError

pub data StateType : Type 0 where
  new_field_start : StateType
  non_quotes_field : StateType
  quotes_field : StateType
  field_separator : StateType
  quote_in_quotes_field : StateType
  row_separator : StateType
  error : StateType
  newline_in_quote_field : StateType

-- the local variables of parse_string, with the member `content_` that it fills
pub record Parser : Type 0 where
  pub state : StateType
  pub str_field : Text
  pub row : List Text
  pub content : List (List Text)

-- the code goes on with a value, or an exception leaves `content_` as it is
pub data Outcome (A : Type 0) : Type 0 where
  going : A → Outcome A
  threw : CsvError → List (List Text) → Outcome A

unfoldable pub new_parser : Parser
new_parser = record { state = new_field_start; str_field = []; row = []; content = [] }

module _ (trim : Text → Text) where
  -- csv_row::push_back
  unfoldable pub push_value : Text → Parser → Parser
  push_value value p = record p { row = p.row ++ (trim value ∷ []) }

  -- content_.push_back(row), a new row, an empty field and the start of a field
  unfoldable pub end_row : Parser → Parser
  end_row p = record {
    state = new_field_start;
    str_field = [];
    row = [];
    content = p.content ++ (p.row ∷ []);
  }

  unfoldable pub push_char : ℕ → Parser → Parser
  push_char ch p = record p { str_field = p.str_field ++ (ch ∷ []) }

  unfoldable pub on_new_field_start : ℕ → Parser → Outcome Parser
  unfolding push_value push_char
  on_new_field_start ch p =
      if ch == quote_char
      then going (record p { state = quotes_field })
      else if ch == comma_char
      then going (record (push_value [] p) { state = field_separator })
      else if (ch == cr_char) || (ch == lf_char)
      then threw has_empty_line p.content
      else going (record (push_char ch p) { state = non_quotes_field })

  unfoldable pub on_non_quotes_field : ℕ → Parser → Outcome Parser
  unfolding push_value push_char end_row
  on_non_quotes_field ch p =
      if ch == comma_char
      then going (record (push_value p.str_field p) { str_field = []; state = field_separator })
      else if ch == cr_char
      then going (record (push_value p.str_field p) { state = row_separator })
      else if ch == lf_char
      then going (end_row (push_value p.str_field p))
      else going (push_char ch p)

  unfoldable pub on_quotes_field : ℕ → Parser → Outcome Parser
  unfolding push_char
  on_quotes_field ch p =
      if ch == quote_char
      then going (record p { state = quote_in_quotes_field })
      else if ch == cr_char
      then going (record p { state = newline_in_quote_field })
      else going (push_char ch p)

  unfoldable pub on_field_separator : ℕ → Parser → Outcome Parser
  unfolding push_value push_char end_row
  on_field_separator ch p =
      if ch == comma_char
      then going (push_value [] p)
      else if ch == quote_char
      then going (record p { str_field = []; state = quotes_field })
      else if ch == cr_char
      then going (record (push_value [] p) { state = row_separator })
      else if ch == lf_char
      then going (end_row (push_value [] p))
      else going (record (push_char ch p) { state = non_quotes_field })

  unfoldable pub on_quote_in_quotes_field : ℕ → Parser → Outcome Parser
  unfolding push_value push_char end_row
  on_quote_in_quotes_field ch p =
      if ch == comma_char
      then going (record (push_value p.str_field p) { str_field = []; state = field_separator })
      else if ch == cr_char
      then going (record (push_value p.str_field p) { state = row_separator })
      else if ch == lf_char
      then going (end_row (push_value p.str_field p))
      else if ch == quote_char
      then going (record (push_char ch p) { state = quotes_field })
      else threw syntax_error p.content

  unfoldable pub on_row_separator : ℕ → Parser → Outcome Parser
  unfolding end_row
  on_row_separator ch p =
      if ch == lf_char then going (end_row p) else threw invalid_newline_character p.content

  unfoldable pub on_newline_in_quote_field : ℕ → Parser → Outcome Parser
  unfolding push_char
  on_newline_in_quote_field ch p =
      if ch == lf_char
      then going (record (push_char lf_char p) { state = quotes_field })
      else threw invalid_newline_character p.content

  -- the switch in the loop
  unfoldable pub step : ℕ → StateType → Parser → Outcome Parser
  unfolding on_new_field_start on_non_quotes_field on_quotes_field on_field_separator
      on_quote_in_quotes_field on_row_separator on_newline_in_quote_field
  step ch new_field_start p = on_new_field_start ch p
  step ch non_quotes_field p = on_non_quotes_field ch p
  step ch quotes_field p = on_quotes_field ch p
  step ch field_separator p = on_field_separator ch p
  step ch quote_in_quotes_field p = on_quote_in_quotes_field ch p
  step ch row_separator p = on_row_separator ch p
  step ch error p = going p
  step ch newline_in_quote_field p = on_newline_in_quote_field ch p

  -- the loop
  unfoldable pub scan : Text → Outcome Parser → Outcome Parser
  unfolding step
  scan [] o = o
  scan (ch ∷ text) (threw e rows) = threw e rows
  scan (ch ∷ text) (going p) = scan text (step ch p.state p)

  -- the switch after the loop
  unfoldable pub finish_state : StateType → Parser → Outcome (List (List Text))
  unfolding push_value
  finish_state new_field_start p = going p.content
  finish_state non_quotes_field p =
      let q = push_value p.str_field p in going (q.content ++ (q.row ∷ []))
  finish_state quotes_field p = threw syntax_error p.content
  finish_state field_separator p = let q = push_value [] p in going (q.content ++ (q.row ∷ []))
  finish_state quote_in_quotes_field p =
      let q = push_value p.str_field p in going (q.content ++ (q.row ∷ []))
  finish_state row_separator p = going p.content
  finish_state error p = going p.content
  finish_state newline_in_quote_field p = going p.content

  unfoldable pub finish : Outcome Parser → Outcome (List (List Text))
  unfolding finish_state
  finish (going p) = finish_state p.state p
  finish (threw e rows) = threw e rows

  -- the loop and the switch behind it, from the cleared members
  unfoldable pub parse_rows : Text → Outcome (List (List Text))
  unfolding scan finish new_parser
  parse_rows text = finish (scan text (going new_parser))
