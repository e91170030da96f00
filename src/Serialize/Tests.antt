-- ===== src/Serialize/Tests.antt =====
-- The theorems on network/serialize at concrete inputs.
use network_core.Common.{◌≡◌, refl, true, false, List, [], ◌∷◌, ◌==◌, ◌||◌, if◌then◌else◌, map}
use network_core.Serialize.Csv.{Text, going, parse_rows}
use network_core.Serialize.Csv.Print.{Line, plain, quoted, print_lines, fields, valid_lines}
use network_core.Serialize.Csv.RoundTrip.{parse_rows-print_lines}
use network_core.Serialize.Csv.Table.{Csv, found, parse_string}
use network_core.Serialize.Csv.Lookup.{cell_at-parse_string, cell_at, has_name}

-- trim_copy_if for the characters " \t\r\n"
abbrev drop_blank : Text → Text
drop_blank [] = []
drop_blank (c ∷ t) =
    let rest = drop_blank t in
    if (c == 32) || ((c == 9) || ((c == 13) || (c == 10))) then rest else c ∷ t

abbrev turn : Text → Text → Text
turn [] acc = acc
turn (c ∷ t) acc = turn t (c ∷ acc)

abbrev trim : Text → Text
trim t = turn (drop_blank (turn (drop_blank t) [])) []

-- id,name / int,string / "a ""b""",  / 7,"x\r\ny"
abbrev name_line : Line
name_line = record {
  crlf = true;
  first = plain (105 ∷ 100 ∷ []);
  others = plain (110 ∷ 97 ∷ []) ∷ [];
}

abbrev type_line : Line
type_line = record { crlf = true; first = plain (117 ∷ []); others = plain (115 ∷ []) ∷ [] }

abbrev desc_line : Line
desc_line = record { crlf = false; first = quoted (97 ∷ 34 ∷ 98 ∷ 34 ∷ []); others = plain [] ∷ [] }

abbrev data_line : Line
data_line = record {
  crlf = true;
  first = plain (32 ∷ 55 ∷ []);
  others = quoted (120 ∷ 10 ∷ 121 ∷ []) ∷ [];
}

abbrev lines : List Line
lines = name_line ∷ (type_line ∷ (desc_line ∷ (data_line ∷ [])))

parse_rows-print_lines_example :
    parse_rows trim (print_lines lines) ≡ going (map (fields trim) lines)
unfolding valid_lines
parse_rows-print_lines_example = parse_rows-print_lines trim lines refl

abbrev csv_object : Csv
csv_object = record {
  first_line_is_header = true;
  has_type = false;
  has_desc = true;
  header_is_in_rows = false;
  content = [];
  header = [];
  types = [];
  desc = [];
}

cell_at-parse_string_example :
    cell_at 0 (105 ∷ 100 ∷ []) (parse_string trim (print_lines lines) csv_object).0
    ≡ found (55 ∷ [])
unfolding valid_lines fields has_name
cell_at-parse_string_example =
    cell_at-parse_string trim name_line type_line desc_line (data_line ∷ []) csv_object 0 0
      data_line (105 ∷ 100 ∷ []) (55 ∷ []) refl refl refl refl refl refl refl
