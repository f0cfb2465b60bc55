-- ===== src/Cells/Grids.antt =====
-- Ranges of a sheet, as a tool reads them and as they are read back (vfs/tabular.go).
pub mod Trips
use tacklr.Base.{
  ℕ, zero, suc, ◌+◌, ◌-◌, max, Bool, true, false, ◌&&◌, ◌||◌, ltb, ◌==◌, if◌then◌else◌, Option,
  none, some, List, [], ◌∷◌, ◌++◌, map, length, Bytes, is_empty,
}
use tacklr.Failure.{Result, ok, err, ◌>>=◌}
use tacklr.Documents.{join_lines}
use tacklr.Documents.Lines.{split_lines}
use tacklr.Documents.Blocks.{Unicode}
use tacklr.Cells.Sheets.{Sheet, unknown_block, find_sheet}
use tacklr.Cells.{Range, parse_a1, encode_row, split_row}

-- `cellAt`
unfoldable pub cell_at : Sheet → ℕ → ℕ → Bytes
cell_at sh row col =
    if ltb row 1 || ltb col 1 || ltb sh.rows row || ltb sh.cols col
    then []
    else sh.cells (row - 1) (col - 1)

-- The inner loop of `ReadRangeTSV`, from a column on.
unfoldable pub row_from : Sheet → ℕ → ℕ → ℕ → List Bytes
row_from sh row col zero = []
row_from sh row col (suc n) = cell_at sh row col ∷ row_from sh row (col + 1) n

-- Its outer loop, from a row on.
unfoldable pub rows_from : Sheet → Range → ℕ → ℕ → List (List Bytes)
rows_from sh r row zero = []
rows_from sh r row (suc n) =
    row_from sh row r.col1 (r.col2 + 1 - r.col1) ∷ rows_from sh r (row + 1) n

unfoldable pub range_rows : Sheet → Range → List (List Bytes)
range_rows sh r = rows_from sh r r.row1 (r.row2 + 1 - r.row1)

-- The text of a range of the sheet that was found.
unfoldable pub range_tsv : Option Sheet → Bytes → Result Bytes
range_tsv none a1 = err unknown_block
range_tsv (some sh) a1 = parse_a1 a1 >>= λ r. ok (join_lines (map encode_row (range_rows sh r)))

-- `ReadRangeTSV`
unfoldable pub read_range_tsv : Unicode → List Sheet → Bytes → Bytes → Result Bytes
unfolding range_tsv
read_range_tsv u sheets key a1 = range_tsv (find_sheet u sheets key) a1

abbrev pub is_line_end : ℕ → Bool
is_line_end c = c == 10 || c == 13

-- `strings.TrimRight` of line ends.
unfoldable pub trim_line_ends : Bytes → Bytes
trim_line_ends [] = []
trim_line_ends (c ∷ s) =
    let rest = trim_line_ends s in if is_line_end c && is_empty rest then [] else c ∷ rest

-- `strings.TrimSuffix` of a carriage return.
unfoldable pub trim_return : Bytes → Bytes
trim_return [] = []
trim_return (c ∷ []) = if c == 13 then [] else c ∷ []
trim_return (c ∷ d ∷ s) = c ∷ trim_return (d ∷ s)

abbrev pub width : List (List Bytes) → ℕ
width [] = 0
width (r ∷ rs) = max (length r) (width rs)

abbrev pub pad : ℕ → List Bytes → List Bytes
pad zero r = r
pad (suc n) [] = [] ∷ pad n []
pad (suc n) (c ∷ r) = c ∷ pad n r

-- `padStringGrid`
unfoldable pub pad_grid : List (List Bytes) → List (List Bytes)
pad_grid rows = map (pad (width rows)) rows

unfoldable pub read_line : Bytes → List Bytes
read_line l = split_row (trim_return l)

-- `parseToolTSV`
unfoldable pub parse_tool_tsv : Bytes → List (List Bytes)
parse_tool_tsv text = pad_grid (map read_line (split_lines (trim_line_ends text)))
