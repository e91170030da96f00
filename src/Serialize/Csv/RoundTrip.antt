-- ===== src/Serialize/Csv/RoundTrip.antt =====
-- csv_parser.hpp reads back what is printed: whole lines, and a last line without a line break.
use network_core.Common.{
  ◌≡◌, refl, sym, ap, subst, ◌∙◌, Bool, true, not, List, [], ◌∷◌, ◌++◌, map, append_assoc,
  append-nil, &&-left, &&-right,
}
use network_core.Serialize.Csv.{
  Text, comma_char, StateType, new_field_start, field_separator, going, scan, finish, finish_state,
  parse_rows, new_parser,
}
use network_core.Serialize.Csv.Print.{
  Cell, plain, quoted, Line, newline, print_cell, print_others, print_cells, print_lines, value,
  values, fields, valid_cell, valid_cells, is_blank, valid_line, valid_lines,
}
use network_core.Serialize.Csv.Scan.{
  at, Fresh, at_line, at_cell, after, closes, scan-print_cell, scan-comma, scan-newline,
  finish-after,
}

-- a row that is not empty: it has a second cell, or its one cell is not blank
unfoldable pub opens : {s : StateType} → Fresh s → Cell → List Cell → Bool
unfolding closes
opens fresh c [] = closes fresh c
opens fresh c (d ∷ ds) = true

opens_iff : (c : Cell) (cs : List Cell) → not (is_blank c cs) ≡ true → opens at_line c cs ≡ true
unfolding opens is_blank closes
opens_iff (plain []) [] h = h
opens_iff (plain (x ∷ t)) [] h = refl
opens_iff (quoted t) [] h = refl
opens_iff c (d ∷ ds) h = refl

opens_cell : (c : Cell) (cs : List Cell) → opens at_cell c cs ≡ true
unfolding opens closes
opens_cell c [] = refl
opens_cell c (d ∷ ds) = refl

module _ (trim : Text → Text) where
  -- the last cell of a line has been read: the rest of the text follows
  pub record LastCell (text rest : Text) (s : StateType) (row full : List Text)
      (content : List (List Text)) : Type 0 where
    pub last_state : StateType
    pub fresh : Fresh last_state
    pub cell : Cell
    pub before : List Text
    pub full_eq : before ++ (trim (value cell) ∷ []) ≡ full
    pub not_blank : closes fresh cell ≡ true
    pub reads :
        scan trim text (going (at s [] row content))
        ≡ scan trim rest (going (at (after last_state cell) (value cell) before content))

  scan-cells :
      (s : StateType) (fresh : Fresh s) (crlf : Bool) (c : Cell) (cs : List Cell) (rest : Text)
      (row : List Text) (content : List (List Text))
      → valid_cell c ≡ true
      → valid_cells cs ≡ true
      → opens fresh c cs ≡ true
      → LastCell
          (print_cell crlf c ++ (print_others crlf cs ++ rest))
          rest
          s
          row
          (row ++ (trim (value c) ∷ values trim cs))
          content
  unfolding opens valid_cells values print_others
  scan-cells s fresh crlf c [] rest row content hc hcs ho = record {
    last_state = s;
    fresh = fresh;
    cell = c;
    before = row;
    full_eq = refl;
    not_blank = ho;
    reads = scan-print_cell trim s fresh crlf c rest row content hc;
  }
  scan-cells s fresh crlf c (d ∷ ds) rest row content hc hcs ho =
      let row' = row ++ (trim (value c) ∷ []) in
      let l =
        scan-cells field_separator at_cell crlf d ds rest row' content
          (&&-left (valid_cell d) _ hcs) (&&-right (valid_cell d) _ hcs) (opens_cell d ds) in
      record {
        last_state = l.last_state;
        fresh = l.fresh;
        cell = l.cell;
        before = l.before;
        full_eq = l.full_eq ∙ append_assoc row (trim (value c) ∷ []) _;
        not_blank = l.not_blank;
        reads =
            scan-print_cell trim s fresh crlf c (print_others crlf (d ∷ ds) ++ rest) row content hc
            ∙ ap
                (λ text.
                  scan trim (comma_char ∷ text) (going (at (after s c) (value c) row content)))
                (append_assoc (print_cell crlf d) (print_others crlf ds) rest)
            ∙ scan-comma trim s fresh c (print_cell crlf d ++ (print_others crlf ds ++ rest)) row
                content
            ∙ l.reads;
      }

  -- a valid line, up to what follows its last cell
  pub scan-print_cells :
      (l : Line) (rest : Text) (content : List (List Text))
      → valid_line l ≡ true
      → LastCell (print_cells l ++ rest) rest new_field_start [] (fields trim l) content
  unfolding print_cells fields valid_line
  scan-print_cells l rest content h =
      let blank = not (is_blank l.first l.others) in
      let cells = &&-right blank _ h in
      subst
        (λ text.
          LastCell text rest new_field_start [] (trim (value l.first) ∷ values trim l.others)
            content)
        (sym (append_assoc (print_cell l.crlf l.first) (print_others l.crlf l.others) rest))
        (scan-cells new_field_start at_line l.crlf l.first l.others rest [] content
          (&&-left (valid_cell l.first) _ cells) (&&-right (valid_cell l.first) _ cells)
          (opens_iff l.first l.others (&&-left blank _ h)))

  pub scan-line :
      (l : Line) (rest : Text) (content : List (List Text))
      → valid_line l ≡ true
      → scan trim
          (print_cells l ++ (newline l.crlf ++ rest))
          (going (at new_field_start [] [] content))
        ≡ scan trim rest (going (at new_field_start [] [] (content ++ (fields trim l ∷ []))))
  scan-line l rest content h =
      let e = scan-print_cells l (newline l.crlf ++ rest) content h in
      e.reads
      ∙ scan-newline trim e.last_state e.fresh l.crlf e.cell rest e.before content e.not_blank
      ∙ ap (λ row. scan trim rest (going (at new_field_start [] [] (content ++ (row ∷ [])))))
          e.full_eq

  -- Whole lines are read to their rows, whatever follows.
  pub scan-print_lines :
      (ls : List Line) (rest : Text) (content : List (List Text))
      → valid_lines ls ≡ true
      → scan trim (print_lines ls ++ rest) (going (at new_field_start [] [] content))
        ≡ scan trim rest (going (at new_field_start [] [] (content ++ map (fields trim) ls)))
  unfolding print_lines valid_lines
  scan-print_lines [] rest content h =
      ap (λ rows. scan trim rest (going (at new_field_start [] [] rows))) (sym (append-nil content))
  scan-print_lines (l ∷ ls) rest content h =
      ap (λ text. scan trim text (going (at new_field_start [] [] content)))
        (append_assoc (print_cells l) (newline l.crlf ++ print_lines ls) rest
          ∙ ap (◌++◌ (print_cells l)) (append_assoc (newline l.crlf) (print_lines ls) rest))
      ∙ scan-line l (print_lines ls ++ rest) content (&&-left (valid_line l) _ h)
      ∙ scan-print_lines ls rest (content ++ (fields trim l ∷ [])) (&&-right (valid_line l) _ h)
      ∙ ap (λ rows. scan trim rest (going (at new_field_start [] [] rows)))
          (append_assoc content (fields trim l ∷ []) (map (fields trim) ls))

  -- Whatever lines are printed, with cells that are plain or in quotes, quotes doubled, and either
  -- line break, parse_string reads back as their fields, trimmed, when the plain cells have no
  -- separator, the quoted ones no "\r", and no line is empty.
  pub parse_rows-print_lines :
      (ls : List Line)
      → valid_lines ls ≡ true
      → parse_rows trim (print_lines ls) ≡ going (map (fields trim) ls)
  unfolding parse_rows new_parser scan finish finish_state
  parse_rows-print_lines ls h =
      ap (λ text. finish trim (scan trim text (going (at new_field_start [] [] []))))
        (sym (append-nil (print_lines ls)))
      ∙ ap (finish trim) (scan-print_lines ls [] [] h)

  -- The last line need not end with a line break.
  pub parse_rows-last_line :
      (ls : List Line) (l : Line)
      → valid_lines ls ≡ true
      → valid_line l ≡ true
      → parse_rows trim (print_lines ls ++ print_cells l)
        ≡ going (map (fields trim) ls ++ (fields trim l ∷ []))
  unfolding parse_rows new_parser scan
  parse_rows-last_line ls l h hl =
      let rows = map (fields trim) ls in
      let e = scan-print_cells l [] rows hl in
      ap (finish trim) (scan-print_lines ls (print_cells l) [] h)
      ∙ ap (λ text. finish trim (scan trim text (going (at new_field_start [] [] rows))))
          (sym (append-nil (print_cells l)))
      ∙ ap (finish trim) e.reads
      ∙ finish-after trim e.last_state e.fresh e.cell e.before rows e.not_blank
      ∙ ap (λ row. going (rows ++ (row ∷ []))) e.full_eq
