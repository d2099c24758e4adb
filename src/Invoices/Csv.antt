-- ===== src/Invoices/Csv.antt =====
-- `parseInvoiceCsv` of apps/server/src/api/invoices.ts, on texts of ASCII characters.
use comission_mgmt.Prelude.{
  ℕ, ◌+◌, Bool, ◌&&◌, ◌||◌, Option, none, some, List, [], ◌∷◌, ◌==◌, leb, if◌then◌else◌, all, any,
  map, length,
}
use comission_mgmt.Prelude.Codes.{eq_codes, trim, is_blank}
use comission_mgmt.Core.Explanation.Text.{Text, codes}

-- `text.split(c)`.
abbrev pub prepend : ℕ → List Text → List Text
prepend c [] = (c ∷ []) ∷ []
prepend c (t ∷ ts) = (c ∷ t) ∷ ts

abbrev pub split_on : ℕ → Text → List Text
split_on sep [] = [] ∷ []
split_on sep (c ∷ cs) = let rest = split_on sep cs in if c == sep then [] ∷ rest else prepend c rest

-- The carriage return at the end of a line.
abbrev pub chomp : Text → Text
chomp [] = []
chomp (c ∷ []) = if c == 13 then [] else c ∷ []
chomp (c ∷ d ∷ cs) = c ∷ chomp (d ∷ cs)

abbrev pub chomp_all : List Text → List Text
chomp_all [] = []
chomp_all (t ∷ []) = t ∷ []
chomp_all (t ∷ u ∷ ts) = chomp t ∷ chomp_all (u ∷ ts)

-- `csv.split(/\r?\n/)`.
abbrev pub split_lines : Text → List Text
split_lines csv = chomp_all (split_on 10 csv)

-- `.toLowerCase()` and `.replace(/[^a-z0-9_]/g, '_')`.
abbrev pub lower : ℕ → ℕ
lower c = if leb b'A' c && leb c b'Z' then c + 32 else c

abbrev pub is_header_char : ℕ → Bool
is_header_char c = (leb b'a' c && leb c b'z') || (leb b'0' c && leb c b'9') || c == b'_'

abbrev pub header_char : ℕ → ℕ
header_char c = if is_header_char (lower c) then lower c else b'_'

abbrev pub header_name : Text → Text
header_name cell = map header_char (trim cell)

abbrev pub required_headers : List Text
required_headers =
    codes "invoice_number" ∷ codes "placement_id" ∷ codes "amount_billed" ∷ codes "status" ∷ []

-- A row as the assignments `row[header] = cell` in their order.
abbrev pub Row : Type 0
Row = List (Text × Text)

abbrev pub assign : List Text → List Text → Row
assign [] cells = []
assign (h ∷ hs) [] = (h, []) ∷ assign hs []
assign (h ∷ hs) (c ∷ cs) = (h, c) ∷ assign hs cs

-- `row[key]`: the last assignment counts.
abbrev pub later_or : Option Text → Option Text → Option Text
later_or none v = v
later_or (some x) v = some x

abbrev pub row_get : Text → Row → Option Text
row_get key [] = none
row_get key ((h, v) ∷ r) = later_or (row_get key r) (if eq_codes h key then some v else none)

-- The errors that the parser throws; the number is that of the line, from 1.
pub data CsvError : Type 0 where
  no_header missing_column : CsvError
  wrong_width : ℕ → CsvError

pub data Parsed : Type 0 where
  parsed : List Row → Parsed
  failed_parse : CsvError → Parsed

abbrev pub add_row : Row → Parsed → Parsed
add_row r (parsed rs) = parsed (r ∷ rs)
add_row r (failed_parse e) = failed_parse e

-- The loop over the lines below the header, the first of which has the number `n`.
unfoldable pub parse_rows : List Text → ℕ → List Text → Parsed
parse_rows headers n [] = parsed []
parse_rows headers n (line ∷ lines) =
    let rest = parse_rows headers (n + 1) lines in
    if is_blank line
    then rest
    else if length (split_on b',' line) == length headers
    then add_row (assign headers (map trim (split_on b',' line))) rest
    else failed_parse (wrong_width n)

abbrev pub has_header : List Text → Text → Bool
has_header headers name = any (λ h. eq_codes h name) headers

-- The rows below a header, if it has the required columns.
abbrev pub with_headers : List Text → ℕ → List Text → Parsed
with_headers headers n lines =
    if all (has_header headers) required_headers
    then parse_rows headers n lines
    else failed_parse missing_column

-- The first line that is not blank is the header, the `n`-th line of the text.
unfoldable pub parse_from : ℕ → List Text → Parsed
unfolding parse_rows
parse_from n [] = failed_parse no_header
parse_from n (line ∷ lines) =
    let rest = parse_from (n + 1) lines in
    if is_blank line
    then rest
    else with_headers (map header_name (split_on b',' line)) (n + 1) lines

unfoldable pub parse_invoice_csv : Text → Parsed
unfolding parse_from
parse_invoice_csv csv = parse_from 1 (split_lines csv)
