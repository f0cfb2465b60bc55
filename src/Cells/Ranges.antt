-- ===== src/Cells/Ranges.antt =====
-- The corners of the range that an address names (vfs/tabular.go).
use tacklr.Base.{
  ℕ, ◌≤◌, ◌≡◌, subst, ◌||◌, ltb, Option, none, some, Bytes, is_empty, trim_space, arith,
}
use tacklr.Failure.{ok, guard-eq-ok, >>=-eq-ok, ◌>>=◌}
use tacklr.Cells.{invalid_a1, Range, range_to, range_from, parse_a1_cell, cut_range, parse_a1}

abbrev pub IsOrdered : Range → Type 0
IsOrdered r = (r.row1 ≤ r.row2) × (r.col1 ≤ r.col2)

range_to-IsOrdered : (first last : ℕ × ℕ) (r : Range) → range_to first last ≡ ok r → IsOrdered r
range_to-IsOrdered (row1, col1) (row2, col2) r h =
    let (inside, made) =
      guard-eq-ok (ltb row2 row1 || ltb col2 col1) invalid_a1
        (ok (record { row1 = row1; col1 = col1; row2 = row2; col2 = col2 })) h in
    let same : record { row1 = row1; col1 = col1; row2 = row2; col2 = col2 } ≡ r = cc made in
    subst (λ q. (q.row1 ≤ q.row2) × (q.col1 ≤ q.col2)) same
      (ground (arith, inside), ground (arith, inside))

range_from-IsOrdered :
    (right : Option Bytes) (first : ℕ × ℕ) (r : Range) → range_from right first ≡ ok r → IsOrdered r
unfolding range_from
range_from-IsOrdered none (row, col) r h =
    let same : record { row1 = row; col1 = col; row2 = row; col2 = col } ≡ r = cc h in
    subst (λ q. (q.row1 ≤ q.row2) × (q.col1 ≤ q.col2)) same (omega arith, omega arith)
range_from-IsOrdered (some right) first r h =
    let (last, found, ranged) = >>=-eq-ok (parse_a1_cell right) (range_to first) h in
    range_to-IsOrdered first last r ranged

pub parse_a1-IsOrdered : (s : Bytes) (r : Range) → parse_a1 s ≡ ok r → IsOrdered r
unfolding parse_a1
parse_a1-IsOrdered s r h =
    let parts = cut_range (trim_space s) in
    let (full, parsed) =
      guard-eq-ok (is_empty (trim_space s)) invalid_a1
        (parse_a1_cell parts.0 >>= range_from parts.1) h in
    let (first, found, ranged) = >>=-eq-ok (parse_a1_cell parts.0) (range_from parts.1) parsed in
    range_from-IsOrdered parts.1 first r ranged
