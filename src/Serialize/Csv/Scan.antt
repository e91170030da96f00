-- ===== src/Serialize/Csv/Scan.antt =====
-- How the state machine of csv_parser.hpp reads one printed cell and what ends it.
use network_core.Common.{
  ℕ, ◌≡◌, refl, ap, sym, ◌∙◌, &&-left, &&-right, Bool, true, false, not, List, [], ◌∷◌, ◌++◌, ◌==◌,
  append_assoc, append-nil, arith,
}
use network_core.Serialize.Csv.{
  Text, quote_char, comma_char, cr_char, StateType, new_field_start, non_quotes_field, quotes_field,
  field_separator, quote_in_quotes_field, Parser, going, push_value, push_char, end_row,
  on_new_field_start, on_non_quotes_field, on_quotes_field, on_field_separator,
  on_quote_in_quotes_field, on_row_separator, on_newline_in_quote_field, step, scan, finish_state,
  finish,
}
use network_core.Serialize.Csv.Print.{
  Cell, plain, quoted, newline, escape_char, escape, print_cell, value, is_plain_char, all_chars,
  valid_cell,
}

-- the parser in a given state with a given field
abbrev pub at : StateType → Text → List Text → List (List Text) → Parser
at s field row content = record { state = s; str_field = field; row = row; content = content }

-- the two states a cell begins in
pub data Fresh : StateType → Type 0 where
  at_line : Fresh new_field_start
  at_cell : Fresh field_separator

-- the state a cell leaves
unfoldable pub after : StateType → Cell → StateType
after s (plain []) = s
after s (plain (c ∷ t)) = non_quotes_field
after s (quoted t) = quote_in_quotes_field

-- a cell after which the row is not empty
unfoldable pub closes : {s : StateType} → Fresh s → Cell → Bool
closes at_line (plain []) = false
closes at_line (plain (c ∷ t)) = true
closes at_line (quoted t) = true
closes at_cell c = true

module _ (trim : Text → Text) where
  plain_step :
      (c : ℕ) (field : Text) (row : List Text) (content : List (List Text))
      → is_plain_char c ≡ true
      → step trim c non_quotes_field (at non_quotes_field field row content)
        ≡ going (at non_quotes_field (field ++ (c ∷ [])) row content)
  unfolding is_plain_char step on_non_quotes_field push_char
  plain_step c field row content h = ground arith

  -- the parser after more of the field, in one piece or in two
  join_field :
      (s : StateType) (field : Text) (c : ℕ) (t : Text) (rest : Text) (row : List Text)
      (content : List (List Text))
      → scan trim rest (going (at s ((field ++ (c ∷ [])) ++ t) row content))
        ≡ scan trim rest (going (at s (field ++ (c ∷ t)) row content))
  join_field s field c t rest row content =
      ap (λ f. scan trim rest (going (at s f row content))) (append_assoc field (c ∷ []) t)

  end_field :
      (s : StateType) (field : Text) (rest : Text) (row : List Text) (content : List (List Text))
      → scan trim rest (going (at s field row content))
        ≡ scan trim rest (going (at s (field ++ []) row content))
  end_field s field rest row content =
      ap (λ f. scan trim rest (going (at s f row content))) (sym (append-nil field))

  scan-plain :
      (t rest field : Text) (row : List Text) (content : List (List Text))
      → all_chars is_plain_char t ≡ true
      → scan trim (t ++ rest) (going (at non_quotes_field field row content))
        ≡ scan trim rest (going (at non_quotes_field (field ++ t) row content))
  unfolding scan all_chars
  scan-plain [] rest field row content h = end_field non_quotes_field field rest row content
  scan-plain (c ∷ t) rest field row content h =
      ap (scan trim (t ++ rest)) (plain_step c field row content (&&-left (is_plain_char c) _ h))
      ∙ scan-plain t rest (field ++ (c ∷ [])) row content (&&-right (is_plain_char c) _ h)
      ∙ join_field non_quotes_field field c t rest row content

  scan-escape_char :
      (crlf : Bool) (c : ℕ) (rest field : Text) (row : List Text) (content : List (List Text))
      → not (c == cr_char) ≡ true
      → scan trim (escape_char crlf c ++ rest) (going (at quotes_field field row content))
        ≡ scan trim rest (going (at quotes_field (field ++ (c ∷ [])) row content))
  unfolding scan escape_char newline step on_quotes_field on_quote_in_quotes_field
      on_newline_in_quote_field push_char
  scan-escape_char true c rest field row content h = ground arith
  scan-escape_char false c rest field row content h = ground arith

  pub scan-escape :
      (crlf : Bool) (t rest field : Text) (row : List Text) (content : List (List Text))
      → all_chars (λ c. not (c == cr_char)) t ≡ true
      → scan trim (escape crlf t ++ rest) (going (at quotes_field field row content))
        ≡ scan trim rest (going (at quotes_field (field ++ t) row content))
  unfolding escape all_chars
  scan-escape crlf [] rest field row content h = end_field quotes_field field rest row content
  scan-escape crlf (c ∷ t) rest field row content h =
      ap (λ text. scan trim text (going (at quotes_field field row content)))
        (append_assoc (escape_char crlf c) (escape crlf t) rest)
      ∙ scan-escape_char crlf c (escape crlf t ++ rest) field row content
          (&&-left (not (c == cr_char)) _ h)
      ∙ scan-escape crlf t rest (field ++ (c ∷ [])) row content (&&-right (not (c == cr_char)) _ h)
      ∙ join_field quotes_field field c t rest row content

  open_plain :
      (s : StateType) (fresh : Fresh s) (c : ℕ) (row : List Text) (content : List (List Text))
      → not (c == quote_char) ≡ true
      → is_plain_char c ≡ true
      → step trim c s (at s [] row content) ≡ going (at non_quotes_field (c ∷ []) row content)
  unfolding step on_new_field_start on_field_separator push_char is_plain_char
  open_plain s at_line c row content h h' = ground arith
  open_plain s at_cell c row content h h' = ground arith

  open_quoted :
      (s : StateType) (fresh : Fresh s) (row : List Text) (content : List (List Text))
      → step trim quote_char s (at s [] row content) ≡ going (at quotes_field [] row content)
  unfolding step on_new_field_start on_field_separator
  open_quoted s at_line row content = refl
  open_quoted s at_cell row content = refl

  -- A cell is read into the field, from either fresh state.
  pub scan-print_cell :
      (s : StateType) (fresh : Fresh s) (crlf : Bool) (c : Cell) (rest : Text) (row : List Text)
      (content : List (List Text))
      → valid_cell c ≡ true
      → scan trim (print_cell crlf c ++ rest) (going (at s [] row content))
        ≡ scan trim rest (going (at (after s c) (value c) row content))
  unfolding print_cell value valid_cell after scan all_chars step on_quotes_field
  scan-print_cell s fresh crlf (plain []) rest row content h = refl
  scan-print_cell s fresh crlf (plain (c ∷ t)) rest row content h =
      let hc = &&-right (not (c == quote_char)) _ h in
      ap (scan trim (t ++ rest)) (
        open_plain s fresh c row content (&&-left (not (c == quote_char)) _ h)
          (&&-left (is_plain_char c) _ hc))
      ∙ scan-plain t rest (c ∷ []) row content (&&-right (is_plain_char c) _ hc)
  scan-print_cell s fresh crlf (quoted t) rest row content h =
      ap (scan trim ((escape crlf t ++ (quote_char ∷ [])) ++ rest))
        (open_quoted s fresh row content)
      ∙ ap (λ text. scan trim text (going (at quotes_field [] row content)))
          (append_assoc (escape crlf t) (quote_char ∷ []) rest)
      ∙ scan-escape crlf t (quote_char ∷ rest) [] row content h

  -- A comma closes the cell, in any state that a cell leaves.
  pub scan-comma :
      (s : StateType) (fresh : Fresh s) (c : Cell) (rest : Text) (row : List Text)
      (content : List (List Text))
      → scan trim (comma_char ∷ rest) (going (at (after s c) (value c) row content))
        ≡ scan trim rest (going (at field_separator [] (row ++ (trim (value c) ∷ [])) content))
  unfolding scan step after value on_new_field_start on_non_quotes_field on_field_separator
      on_quote_in_quotes_field push_value
  scan-comma s at_line (plain []) rest row content = refl
  scan-comma s at_cell (plain []) rest row content = refl
  scan-comma s fresh (plain (c ∷ t)) rest row content = refl
  scan-comma s fresh (quoted t) rest row content = refl

  -- A line break closes the cell and the row, unless the line is empty.
  pub scan-newline :
      (s : StateType) (fresh : Fresh s) (crlf : Bool) (c : Cell) (rest : Text) (row : List Text)
      (content : List (List Text))
      → closes fresh c ≡ true
      → scan trim (newline crlf ++ rest) (going (at (after s c) (value c) row content))
        ≡ scan trim rest
            (going (at new_field_start [] [] (content ++ ((row ++ (trim (value c) ∷ [])) ∷ []))))
  unfolding scan step newline closes after value on_non_quotes_field on_field_separator
      on_quote_in_quotes_field on_row_separator push_value end_row
  scan-newline s at_line crlf (plain []) rest row content h = absurd (ground arith)
  scan-newline s at_cell true (plain []) rest row content h = refl
  scan-newline s at_cell false (plain []) rest row content h = refl
  scan-newline s fresh true (plain (c ∷ t)) rest row content h = refl
  scan-newline s fresh false (plain (c ∷ t)) rest row content h = refl
  scan-newline s fresh true (quoted t) rest row content h = refl
  scan-newline s fresh false (quoted t) rest row content h = refl

  -- The end of the text closes the cell and the row, unless the line is empty.
  pub finish-after :
      (s : StateType) (fresh : Fresh s) (c : Cell) (row : List Text) (content : List (List Text))
      → closes fresh c ≡ true
      → finish trim (going (at (after s c) (value c) row content))
        ≡ going (content ++ ((row ++ (trim (value c) ∷ [])) ∷ []))
  unfolding finish finish_state closes after value push_value
  finish-after s at_line (plain []) row content h = absurd (ground arith)
  finish-after s at_cell (plain []) row content h = refl
  finish-after s fresh (plain (c ∷ t)) row content h = refl
  finish-after s fresh (quoted t) row content h = refl
