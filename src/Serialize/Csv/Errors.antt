-- ===== src/Serialize/Csv/Errors.antt =====
-- What csv_parser.hpp does with text that is not lines of cells.
use network_core.Common.{
  ℕ, ◌≡◌, refl, ap, sym, ◌∙◌, append-nil, if◌then◌else◌, Bool, true, false, not, List, [], ◌∷◌,
  ◌++◌, map, ◌==◌, arith,
}
use network_core.Serialize.Csv.{
  Text, cr_char, lf_char, quote_char, new_field_start, quotes_field, StateType, going, threw, scan,
  finish, finish_state, has_empty_line, syntax_error, invalid_newline_character, parse_rows,
  new_parser, step, on_new_field_start, on_non_quotes_field, on_field_separator,
  on_quote_in_quotes_field, on_row_separator, push_value, CsvError, end_row, row_separator,
}
use network_core.Serialize.Csv.Print.{
  Cell, plain, quoted, Line, newline, print_cells, print_lines, value, escape, all_chars, fields,
  valid_line, valid_lines,
}
use network_core.Serialize.Csv.Scan.{at, Fresh, at_line, at_cell, after, closes, scan-escape}
use network_core.Serialize.Csv.RoundTrip.{scan-print_lines, scan-print_cells}

module _ (trim : Text → Text) where
  -- an exception ends the loop
  finish-scan-threw :
      (text : Text) (e : CsvError) (rows : List (List Text))
      → finish trim (scan trim text (threw e rows)) ≡ threw e rows
  unfolding scan finish
  finish-scan-threw [] e rows = refl
  finish-scan-threw (c ∷ text) e rows = refl

  blank_line :
      (crlf : Bool) (rest : Text) (rows : List (List Text))
      → finish trim (scan trim (newline crlf ++ rest) (going (at new_field_start [] [] rows)))
        ≡ threw has_empty_line rows
  unfolding scan step on_new_field_start newline
  blank_line true rest rows = finish-scan-threw (lf_char ∷ rest) has_empty_line rows
  blank_line false rest rows = finish-scan-threw rest has_empty_line rows

  -- An empty line is refused, wherever it stands, and the rows before it stay in `content_`.
  pub parse_rows-blank_line :
      (ls : List Line) (crlf : Bool) (rest : Text)
      → valid_lines ls ≡ true
      → parse_rows trim (print_lines ls ++ (newline crlf ++ rest))
        ≡ threw has_empty_line (map (fields trim) ls)
  unfolding parse_rows new_parser
  parse_rows-blank_line ls crlf rest h =
      ap (finish trim) (scan-print_lines trim ls (newline crlf ++ rest) [] h)
      ∙ blank_line crlf rest (map (fields trim) ls)

  -- Text that ends inside a quoted field is refused, and the rows before it stay in `content_`.
  pub parse_rows-unclosed :
      (ls : List Line) (crlf : Bool) (t : Text)
      → valid_lines ls ≡ true
      → all_chars (λ c. not (c == cr_char)) t ≡ true
      → parse_rows trim (print_lines ls ++ (quote_char ∷ escape crlf t))
        ≡ threw syntax_error (map (fields trim) ls)
  unfolding parse_rows new_parser scan step on_new_field_start finish finish_state
  parse_rows-unclosed ls crlf t h ht =
      let rows = map (fields trim) ls in
      ap (finish trim) (scan-print_lines trim ls (quote_char ∷ escape crlf t) [] h)
      ∙ ap (λ text. finish trim (scan trim text (going (at quotes_field [] [] rows))))
          (sym (append-nil (escape crlf t)))
      ∙ ap (finish trim) (scan-escape trim crlf t [] [] [] rows ht)

  -- after a cell, a "\r"
  carriage_return :
      (s : StateType) (fresh : Fresh s) (c : Cell) (rest : Text) (row : List Text)
      (content : List (List Text))
      → closes fresh c ≡ true
      → (field : Text) × (scan trim (cr_char ∷ rest) (going (at (after s c) (value c) row content))
          ≡ scan trim rest (going (at row_separator field (row ++ (trim (value c) ∷ [])) content)))
  unfolding scan step closes after value on_non_quotes_field on_field_separator
      on_quote_in_quotes_field push_value
  carriage_return s at_line (plain []) rest row content h = absurd (ground arith)
  carriage_return s at_cell (plain []) rest row content h = ([], refl)
  carriage_return s fresh (plain (c ∷ t)) rest row content h = (c ∷ t, refl)
  carriage_return s fresh (quoted t) rest row content h = (t, refl)

  -- a valid line, a "\r" and the rest
  line_cr :
      (ls : List Line) (l : Line) (rest : Text)
      → valid_lines ls ≡ true
      → valid_line l ≡ true
      → (field : Text) × (row : List Text) × (parse_rows trim
            (print_lines ls ++ (print_cells l ++ (cr_char ∷ rest)))
          ≡ finish trim
              (scan trim rest (going (at row_separator field row (map (fields trim) ls)))))
  unfolding parse_rows new_parser
  line_cr ls l rest h hl =
      let rows = map (fields trim) ls in
      let e = scan-print_cells trim l (cr_char ∷ rest) rows hl in
      let (field, eq) =
        carriage_return e.last_state e.fresh e.cell rest e.before rows e.not_blank in
      (
        field,
        e.before ++ (trim (value e.cell) ∷ []),
        ap (finish trim)
            (scan-print_lines trim ls (print_cells l ++ (cr_char ∷ rest)) [] h ∙ e.reads ∙ eq),
      )

  -- A last line that ends with a lone "\r" is accepted and dropped: the rows are those of the
  -- lines before it.
  pub parse_rows-last_cr :
      (ls : List Line) (l : Line)
      → valid_lines ls ≡ true
      → valid_line l ≡ true
      → parse_rows trim (print_lines ls ++ (print_cells l ++ (cr_char ∷ [])))
        ≡ going (map (fields trim) ls)
  unfolding finish finish_state scan
  parse_rows-last_cr ls l h hl = let (field, row, eq) = line_cr ls l [] h hl in eq

  -- A "\r" behind a line is refused when another byte than "\n" follows it, and the rows before the
  -- line stay in `content_`.
  pub parse_rows-bad_break :
      (ls : List Line) (l : Line) (ch : ℕ) (rest : Text)
      → valid_lines ls ≡ true
      → valid_line l ≡ true
      → ch == lf_char ≡ false
      → parse_rows trim (print_lines ls ++ (print_cells l ++ (cr_char ∷ (ch ∷ rest))))
        ≡ threw invalid_newline_character (map (fields trim) ls)
  unfolding scan step on_row_separator
  parse_rows-bad_break ls l ch rest h hl hc =
      let rows = map (fields trim) ls in
      let (field, row, eq) = line_cr ls l (ch ∷ rest) h hl in
      eq
      ∙ ap
          (λ b. finish trim (
            scan trim rest (
              if b
              then going (end_row trim (at row_separator field row rows))
              else threw invalid_newline_character rows)))
          hc
      ∙ finish-scan-threw rest invalid_newline_character rows
