-- ===== src/Cells/Tests.antt =====
-- A cell's address and a row with every byte that is escaped.
use tacklr.Base.{
  map, text_eq, lookup, valid_utf8, insert, leb, ◌&&◌, ◌+◌, any, ◌≡◌, refl, ◌∷◌, [], some, Bytes,
  codes, decimal, arith, ◌==◌, if◌then◌else◌, trim_space, read_digits,
}
use tacklr.Failure.{ok}
use tacklr.Cells.{
  letters_from, col_letters, format_a1, parse_a1_cell, encode_row, escape_cell, parse_a1,
  parse_column, atoi_positive, cut_range,
}
use tacklr.Cells.Addresses.{parse_a1_cell-format_a1}
use tacklr.Documents.Blocks.{Unicode, slugify}
use tacklr.Cells.Sheets.{Sheet, find_sheet, find_named, find_block_id, sheet_block_id}
use tacklr.Cells.Grids.{read_range_tsv, parse_tool_tsv, range_rows, rows_from, row_from, cell_at}
use tacklr.Cells.Grids.Trips.{parse_tool_tsv-read_range_tsv}

parse_a1_cell-format_a1_example :
    (s : Bytes) × ((format_a1 10 27 ≡ some s) × (parse_a1_cell s ≡ ok (10, 27)))
parse_a1_cell-format_a1_example =
    parse_a1_cell-format_a1 10 27 (omega arith) (omega arith) (omega arith) (omega arith)

format_a1_lem : format_a1 10 27 ≡ some (codes "AA10")
unfolding format_a1 col_letters letters_from decimal
format_a1_lem = refl

abbrev tricky : Bytes
tricky = 92 ∷ b't' ∷ 9 ∷ 10 ∷ 13 ∷ 92 ∷ []

abbrev ascii : Unicode
ascii = record {
  to_lower = map (λ c. if leb b'A' c && leb c b'Z' then c + 32 else c);
  is_word = any (λ c. leb b'a' c && leb c b'z');
}

abbrev sheet : Bytes → Sheet
sheet id = record {
  id = id;
  title = codes "Data";
  rows = 2;
  cols = 2;
  cells = λ r c. if r == c then tricky else [];
}

-- The second sheet of a title, found by its block id; the range goes beyond it, to cells that are empty.
parse_tool_tsv-read_range_tsv_example :
    (t : Bytes) × ((read_range_tsv ascii
          (sheet (codes "1") ∷ sheet (codes "2") ∷ [])
          (codes "data-2")
          (codes "B1:C2")
        ≡ ok t)
      × (parse_tool_tsv t ≡ ([] ∷ [] ∷ []) ∷ (tricky ∷ [] ∷ []) ∷ []))
unfolding parse_a1 trim_space parse_a1_cell parse_column cut_range atoi_positive read_digits
    range_rows rows_from encode_row row_from escape_cell cell_at find_sheet find_named text_eq
    find_block_id sheet_block_id lookup slugify valid_utf8 insert decimal
parse_tool_tsv-read_range_tsv_example =
    parse_tool_tsv-read_range_tsv ascii (sheet (codes "1") ∷ sheet (codes "2") ∷ [])
      (codes "data-2") (codes "B1:C2") (sheet (codes "2"))
      (record { row1 = 1; col1 = 2; row2 = 2; col2 = 3 }) refl refl refl
