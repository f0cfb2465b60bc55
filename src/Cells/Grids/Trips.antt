-- ===== src/Cells/Grids/Trips.antt =====
-- What a tool reads of a range, read back (vfs/tabular.go).
use tacklr.Base.{
  ℕ, zero, suc, ◌+◌, ◌-◌, ◌≡◌, ◌≤◌, refl, ◌∙◌, ap, Bool, true, false, not, ◌&&◌, ◌==◌, List, [],
  ◌∷◌, ◌++◌, length, Bytes, is_empty, some, any, any-append, map, ==_iff, arith,
}
use tacklr.Documents.{join_lines, has_line_end}
use tacklr.Documents.Lines.{split_lines}
use tacklr.Documents.Reading.{split_lines-join_lines}
use tacklr.Failure.{ok}
use tacklr.Cells.{Range, parse_a1, escape_byte, escape_cell, encode_row, split_row}
use tacklr.Cells.Ranges.{parse_a1-IsOrdered}
use tacklr.Cells.Rows.{split_row-encode_row}
use tacklr.Documents.Blocks.{Unicode}
use tacklr.Cells.Sheets.{Sheet, find_sheet}
use tacklr.Cells.Grids.{
  range_tsv, row_from, rows_from, range_rows, read_range_tsv, is_line_end, trim_line_ends,
  trim_return, width, pad, pad_grid, read_line, parse_tool_tsv,
}

has_end : Bytes → Bool
has_end s = any is_line_end s

escape_byte-no_end : (c : ℕ) → has_end (escape_byte c) ≡ false
unfolding has_end
escape_byte-no_end c = ground arith

escape_cell-no_end : (s : Bytes) → has_end (escape_cell s) ≡ false
unfolding escape_cell has_end
escape_cell-no_end [] = refl
escape_cell-no_end (c ∷ s) =
    any-append is_line_end (escape_byte c) (escape_cell s)
    ∙ ground (arith, escape_byte-no_end c, escape_cell-no_end s)

encode_row-no_end : (r : List Bytes) → has_end (encode_row r) ≡ false
unfolding encode_row has_end
encode_row-no_end [] = refl
encode_row-no_end (c ∷ []) = escape_cell-no_end c
encode_row-no_end (c ∷ d ∷ cs) =
    any-append is_line_end (escape_cell c) (9 ∷ encode_row (d ∷ cs))
    ∙ ground (arith, escape_cell-no_end c, encode_row-no_end (d ∷ cs))

no_end-has_line_end : (s : Bytes) → has_end s ≡ false → has_line_end s ≡ false
unfolding has_end
no_end-has_line_end [] h = refl
no_end-has_line_end (c ∷ s) h = ground (arith, h, no_end-has_line_end s (ground (arith, h)))

trim_line_ends-same : (s : Bytes) → has_end s ≡ false → trim_line_ends s ≡ s
unfolding has_end trim_line_ends
trim_line_ends-same [] h = refl
trim_line_ends-same (c ∷ s) h =
    let stays : is_line_end c ≡ false = ground (arith, h) in
    rw (trim_line_ends, stays) (ap (◌∷◌ c) (trim_line_ends-same s (ground (arith, h))))

-- Nothing is trimmed of a text before one that is not empty and that nothing is trimmed of.
trim_line_ends-append :
    (s t : Bytes) → is_empty t ≡ false → trim_line_ends t ≡ t → trim_line_ends (s ++ t) ≡ s ++ t
unfolding trim_line_ends
trim_line_ends-append [] t ne h = h
trim_line_ends-append (c ∷ s) t ne h =
    let full : is_empty (s ++ t) ≡ false = is_empty-append s t ne in
    rw (trim_line_ends, trim_line_ends-append s t ne h, full) (ground arith)
  where
    is_empty-append : (s t : Bytes) → is_empty t ≡ false → is_empty (s ++ t) ≡ false
    is_empty-append [] t ne = ne
    is_empty-append (c ∷ s) t ne = refl

trim_return-same : (s : Bytes) → has_end s ≡ false → trim_return s ≡ s
unfolding has_end trim_return
trim_return-same [] h = refl
trim_return-same (c ∷ []) h =
    let stays : (c == 13) ≡ false = ground (arith, h) in rw (trim_return, stays) refl
trim_return-same (c ∷ d ∷ s) h = ap (◌∷◌ c) (trim_return-same (d ∷ s) (ground (arith, h)))

-- Rows of this many cells and one more.
abbrev pub of_width : ℕ → List (List Bytes) → Bool
of_width n [] = true
of_width n (r ∷ rs) = (length r == suc n) && of_width n rs

-- The last row's text is not empty.
abbrev pub last_shown : List (List Bytes) → Bool
last_shown [] = false
last_shown (r ∷ []) = not (is_empty (encode_row r))
last_shown (r ∷ q ∷ rs) = last_shown (q ∷ rs)

tool_text : List (List Bytes) → Bytes
tool_text rows = join_lines (map encode_row rows)

is_shown :
    (r : List Bytes) (rs : List (List Bytes))
    → last_shown (r ∷ rs) ≡ true
    → is_empty (tool_text (r ∷ rs)) ≡ false
unfolding tool_text join_lines
is_shown r [] h = ground (arith, h)
is_shown r (q ∷ rs) h = is_empty-append_cons (encode_row r) 10 (tool_text (q ∷ rs))
  where
    is_empty-append_cons : (s : Bytes) (c : ℕ) (t : Bytes) → is_empty (s ++ c ∷ t) ≡ false
    is_empty-append_cons [] c t = refl
    is_empty-append_cons (d ∷ s) c t = refl

trim_line_ends-tool_text :
    (r : List Bytes) (rs : List (List Bytes))
    → last_shown (r ∷ rs) ≡ true
    → trim_line_ends (tool_text (r ∷ rs)) ≡ tool_text (r ∷ rs)
unfolding tool_text join_lines
trim_line_ends-tool_text r [] h = trim_line_ends-same (encode_row r) (encode_row-no_end r)
trim_line_ends-tool_text r (q ∷ rs) h =
    trim_line_ends-append (encode_row r) (10 ∷ tool_text (q ∷ rs)) refl (
      trim_line_ends-append (10 ∷ []) (tool_text (q ∷ rs)) (is_shown q rs h)
        (trim_line_ends-tool_text q rs h))

any-encode_row : (rs : List (List Bytes)) → any has_line_end (map encode_row rs) ≡ false
any-encode_row [] = refl
any-encode_row (r ∷ rs) =
    ground (arith, no_end-has_line_end (encode_row r) (encode_row-no_end r), any-encode_row rs)

read_line-encode_row :
    (n : ℕ) (r : List Bytes) → (length r == suc n) ≡ true → read_line (encode_row r) ≡ r
unfolding read_line
read_line-encode_row n [] h = absurd (ground (arith, h))
read_line-encode_row n (c ∷ cs) h =
    ap split_row (trim_return-same (encode_row (c ∷ cs)) (encode_row-no_end (c ∷ cs)))
    ∙ split_row-encode_row c cs

map-read_line :
    (n : ℕ) (rs : List (List Bytes)) → of_width n rs ≡ true → map read_line (map encode_row rs) ≡ rs
map-read_line n [] h = refl
map-read_line n (r ∷ rs) h =
    rw (read_line-encode_row n r (ground (arith, h)), map-read_line n rs (ground (arith, h))) refl

pad-same : (n : ℕ) (r : List Bytes) → length r ≡ n → pad n r ≡ r
pad-same zero r h = refl
pad-same (suc n) [] h = absurd (omega (arith, h))
pad-same (suc n) (c ∷ r) h = ap (◌∷◌ c) (pad-same n r (omega (arith, h)))

map-pad : (n : ℕ) (rs : List (List Bytes)) → of_width n rs ≡ true → map (pad (suc n)) rs ≡ rs
map-pad n [] h = refl
map-pad n (r ∷ rs) h =
    rw
      (
        pad-same (suc n) r ((==_iff (length r) (suc n)).0 (ground (arith, h))),
        map-pad n rs (ground (arith, h)),
      )
      refl

width-of_width :
    (n : ℕ) (r : List Bytes) (rs : List (List Bytes))
    → of_width n (r ∷ rs) ≡ true
    → width (r ∷ rs) ≡ suc n
width-of_width n r [] h = ground (arith, h)
width-of_width n r (q ∷ rs) h = ground (arith, h, width-of_width n q rs (ground (arith, h)))

-- Rows of one width, the last of which shows, read back.
parse_tool_tsv-tool_text :
    (n : ℕ) (r : List Bytes) (rs : List (List Bytes))
    → of_width n (r ∷ rs) ≡ true
    → last_shown (r ∷ rs) ≡ true
    → parse_tool_tsv (tool_text (r ∷ rs)) ≡ r ∷ rs
unfolding parse_tool_tsv pad_grid tool_text
parse_tool_tsv-tool_text n r rs wide shown =
    ap (λ t. pad_grid (map read_line (split_lines t))) (trim_line_ends-tool_text r rs shown)
    ∙ (ap (λ ls. pad_grid (map read_line ls)) (split_tool_text r rs)
        ∙ (ap pad_grid (map-read_line n (r ∷ rs) wide) ∙ pad_grid-same))
  where
    split_tool_text :
        (r : List Bytes) (rs : List (List Bytes))
        → split_lines (tool_text (r ∷ rs)) ≡ map encode_row (r ∷ rs)
    split_tool_text r rs =
        split_lines-join_lines (encode_row r) (map encode_row rs) (any-encode_row (r ∷ rs))

    pad_grid-same : pad_grid (r ∷ rs) ≡ r ∷ rs
    pad_grid-same =
        ap (λ w. map (pad w) (r ∷ rs)) (width-of_width n r rs wide) ∙ map-pad n (r ∷ rs) wide

length-row_from : (sh : Sheet) (row col n : ℕ) → length (row_from sh row col n) ≡ n
unfolding row_from
length-row_from sh row col zero = refl
length-row_from sh row col (suc n) = omega (arith, length-row_from sh row (col + 1) n)

of_width-rows_from :
    (sh : Sheet) (r : Range) (row n : ℕ)
    → r.col1 ≤ r.col2
    → of_width (r.col2 - r.col1) (rows_from sh r row n) ≡ true
unfolding rows_from
of_width-rows_from sh r row zero le = refl
of_width-rows_from sh r row (suc n) le = ground (
  arith,
  length-row_from sh row r.col1 (r.col2 + 1 - r.col1),
  of_width-rows_from sh r (row + 1) n le,
  le,
)

-- Where a key finds a sheet and an address names a range, the range reads as text; where the text of its last row is not empty,
-- that text reads back as the range's cells.
pub parse_tool_tsv-read_range_tsv :
    (u : Unicode) (sheets : List Sheet) (key a1 : Bytes) (sh : Sheet) (r : Range)
    → find_sheet u sheets key ≡ some sh
    → parse_a1 a1 ≡ ok r
    → last_shown (range_rows sh r) ≡ true
    → (t : Bytes) × ((read_range_tsv u sheets key a1 ≡ ok t) × (parse_tool_tsv t ≡ range_rows sh r))
unfolding read_range_tsv range_tsv range_rows tool_text
parse_tool_tsv-read_range_tsv u sheets key a1 sh r found h shown =
    let (_, wide) = parse_a1-IsOrdered a1 r h in
    (
      tool_text (range_rows sh r),
      (
        rw (read_range_tsv, found, range_tsv, h) refl,
        read_back (range_rows sh r) (of_width-rows_from sh r r.row1 (r.row2 + 1 - r.row1) wide)
            shown,
      ),
    )
  where
    read_back :
        (rows : List (List Bytes))
        → of_width (r.col2 - r.col1) rows ≡ true
        → last_shown rows ≡ true
        → parse_tool_tsv (tool_text rows) ≡ rows
    read_back [] w s = absurd (ground (arith, s))
    read_back (q ∷ rs) w s = parse_tool_tsv-tool_text (r.col2 - r.col1) q rs w s
