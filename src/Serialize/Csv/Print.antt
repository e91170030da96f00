-- ===== src/Serialize/Csv/Print.antt =====
-- The texts that csv_parser.hpp is to read: lines of cells, each written plainly or in quotes.
-- An independent description, which the state machine is compared with.
use network_core.Common.{
  ℕ, Bool, true, false, not, ◌&&◌, ◌||◌, List, [], ◌∷◌, ◌++◌, ◌==◌, if◌then◌else◌,
}
use network_core.Serialize.Csv.{Text, quote_char, comma_char, cr_char, lf_char}

pub data Cell : Type 0 where
  plain : Text → Cell
  quoted : Text → Cell

-- a line ends with "\r\n" or with "\n", and so do the lines inside its quoted cells
pub record Line : Type 0 where
  pub crlf : Bool
  pub first : Cell
  pub others : List Cell

unfoldable pub newline : Bool → Text
newline crlf = if crlf then cr_char ∷ lf_char ∷ [] else lf_char ∷ []

unfoldable pub escape_char : Bool → ℕ → Text
unfolding newline
escape_char crlf c =
    if c == quote_char
    then quote_char ∷ quote_char ∷ []
    else if c == lf_char
    then newline crlf
    else c ∷ []

unfoldable pub escape : Bool → Text → Text
unfolding escape_char
escape crlf [] = []
escape crlf (c ∷ t) = escape_char crlf c ++ escape crlf t

unfoldable pub print_cell : Bool → Cell → Text
unfolding escape
print_cell crlf (plain t) = t
print_cell crlf (quoted t) = quote_char ∷ (escape crlf t ++ (quote_char ∷ []))

unfoldable pub print_others : Bool → List Cell → Text
unfolding print_cell
print_others crlf [] = []
print_others crlf (c ∷ cs) = comma_char ∷ (print_cell crlf c ++ print_others crlf cs)

unfoldable pub print_cells : Line → Text
unfolding print_cell print_others
print_cells l = print_cell l.crlf l.first ++ print_others l.crlf l.others

unfoldable pub print_lines : List Line → Text
unfolding print_cells newline
print_lines [] = []
print_lines (l ∷ ls) = print_cells l ++ (newline l.crlf ++ print_lines ls)

-- the text of a cell, and the fields of a line as the parser keeps them
unfoldable pub value : Cell → Text
value (plain t) = t
value (quoted t) = t

unfoldable pub values : (Text → Text) → List Cell → List Text
unfolding value
values trim [] = []
values trim (c ∷ cs) = trim (value c) ∷ values trim cs

unfoldable pub fields : (Text → Text) → Line → List Text
unfolding values value
fields trim l = trim (value l.first) ∷ values trim l.others

-- A plain cell has no separator and does not begin with a quote; a quoted one has no "\r".
unfoldable pub is_plain_char : ℕ → Bool
is_plain_char c = not ((c == comma_char) || ((c == cr_char) || (c == lf_char)))

unfoldable pub all_chars : (ℕ → Bool) → Text → Bool
all_chars test [] = true
all_chars test (c ∷ t) = test c && all_chars test t

unfoldable pub valid_cell : Cell → Bool
unfolding all_chars is_plain_char
valid_cell (plain []) = true
valid_cell (plain (c ∷ t)) = not (c == quote_char) && all_chars is_plain_char (c ∷ t)
valid_cell (quoted t) = all_chars (λ c. not (c == cr_char)) t

unfoldable pub valid_cells : List Cell → Bool
unfolding valid_cell
valid_cells [] = true
valid_cells (c ∷ cs) = valid_cell c && valid_cells cs

-- a line of one empty plain cell is an empty line
unfoldable pub is_blank : Cell → List Cell → Bool
is_blank (plain []) [] = true
is_blank _ _ = false

unfoldable pub valid_line : Line → Bool
unfolding valid_cell valid_cells is_blank
valid_line l = not (is_blank l.first l.others) && (valid_cell l.first && valid_cells l.others)

unfoldable pub valid_lines : List Line → Bool
unfolding valid_line
valid_lines [] = true
valid_lines (l ∷ ls) = valid_line l && valid_lines ls
