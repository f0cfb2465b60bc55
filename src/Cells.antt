-- ===== src/Cells.antt =====
-- The addresses and the rows of a spreadsheet as tools read and write them (vfs/tabular.go). An `int` has 64 bits: a column that is
-- parsed wraps around.
pub mod Addresses
pub mod Grids
pub mod Ranges
pub mod Rows
pub mod Sheets
mod Tests
use tacklr.Base.{
  ℕ, zero, suc, ◌+◌, ◌-◌, ◌*◌, ◌/◌, ◌%◌, ◌^◌, Bool, true, false, not, ◌&&◌, ◌||◌, ltb, leb, ◌==◌,
  if◌then◌else◌, Option, none, some, List, [], ◌∷◌, ◌++◌, map, length, drop, Bytes, codes, is_empty,
  any, trim_space, decimal, read_digits, are_digits,
}
use tacklr.Failure.{Failure, Result, ok, err, plain, ◌>>=◌}

abbrev pub invalid_a1 : Failure
invalid_a1 = plain (codes "vfs: invalid A1 address")

-- An ASCII letter's place in the alphabet, from 1 on, or 0.
abbrev pub letter_of : ℕ → ℕ
letter_of c =
    if leb b'a' c && leb c b'z'
    then c - b'a' + 1
    else if leb b'A' c && leb c b'Z'
    then c - b'A' + 1
    else 0

-- The loop of `parseA1Cell` over letters: the column, and what is left of the text.
unfoldable pub parse_column : ℕ → Bytes → ℕ × Bytes
parse_column col [] = (col, [])
parse_column col (c ∷ s) = elim (letter_of c) [
  | zero ↦ (col, c ∷ s)
  | suc n ↦ parse_column ((col * 26 + suc n) % 2 ^ 64) s
]

-- `strconv.Atoi` of a number from 1 on: a sign, and digits that fit; a number less than 1 is as good as none.
atoi_unsigned : Bytes → Option ℕ
atoi_unsigned s =
    let n = read_digits 0 s in if are_digits s && ltb 0 n && ltb n (2 ^ 63) then some n else none

unfoldable pub atoi_positive : Bytes → Option ℕ
unfolding atoi_unsigned
atoi_positive [] = none
atoi_positive (c ∷ s) = if c == b'+' then atoi_unsigned s else atoi_unsigned (c ∷ s)

-- A column that is at least 1 as a signed number.
abbrev is_column : ℕ → Bool
is_column col = ltb 0 col && ltb col (2 ^ 63)

parsed_cell : Bytes → ℕ × Bytes → Result (ℕ × ℕ)
parsed_cell s (col, rest) =
    if length rest == length s || is_empty rest then err invalid_a1 else elim (atoi_positive rest) [
      | none ↦ err invalid_a1
      | some row ↦ if is_column col then ok (row, col) else err invalid_a1
    ]

-- `parseA1Cell`: the row and the column.
unfoldable pub parse_a1_cell : Bytes → Result (ℕ × ℕ)
unfolding parsed_cell
parse_a1_cell s = let t = trim_space s in parsed_cell t (parse_column 0 t)

-- `strings.Cut` at the first colon.
unfoldable pub cut_range : Bytes → Bytes × Option Bytes
cut_range [] = ([], none)
cut_range (c ∷ s) =
    let (left, right) = cut_range s in if c == b':' then ([], some s) else (c ∷ left, right)

pub record Range : Type 0 where
  pub row1 : ℕ
  pub col1 : ℕ
  pub row2 : ℕ
  pub col2 : ℕ

-- The end of a range, where the address has one.
abbrev pub range_to : ℕ × ℕ → ℕ × ℕ → Result Range
range_to (row1, col1) (row2, col2) =
    if ltb row2 row1 || ltb col2 col1
    then err invalid_a1
    else ok (record { row1 = row1; col1 = col1; row2 = row2; col2 = col2 })

unfoldable pub range_from : Option Bytes → ℕ × ℕ → Result Range
range_from none (row, col) = ok (record { row1 = row; col1 = col; row2 = row; col2 = col })
range_from (some right) first = parse_a1_cell right >>= range_to first

-- `parseA1`
unfoldable pub parse_a1 : Bytes → Result Range
unfolding range_from
parse_a1 s =
    let t = trim_space s in
    let (left, right) = cut_range t in
    if is_empty t then err invalid_a1 else parse_a1_cell left >>= range_from right

-- The loop of `colLetters`; `none` is the panic when the buffer has no room left.
unfoldable pub letters_from : ℕ → ℕ → Bytes → Option Bytes
letters_from room zero out = some out
letters_from zero (suc n) out = none
letters_from (suc room) (suc n) out = letters_from room (n / 26) ((b'A' + n % 26) ∷ out)

-- `colLetters`, whose buffer has eight bytes.
unfoldable pub col_letters : ℕ → Option Bytes
col_letters col = letters_from 8 col []

-- `FormatA1`
unfoldable pub format_a1 : ℕ → ℕ → Option Bytes
format_a1 row col = elim (col_letters col) [
  | none ↦ none
  | some letters ↦ some (letters ++ decimal row)
]

-- `escapeToolCell`
abbrev pub escape_byte : ℕ → Bytes
escape_byte c =
    if c == 92
    then 92 ∷ 92 ∷ []
    else if c == 9
    then 92 ∷ b't' ∷ []
    else if c == 10
    then 92 ∷ b'n' ∷ []
    else if c == 13
    then 92 ∷ b'r' ∷ []
    else c ∷ []

unfoldable pub escape_cell : Bytes → Bytes
escape_cell [] = []
escape_cell (c ∷ s) = escape_byte c ++ escape_cell s

-- The byte after a backslash, and `none` where the backslash stands for itself.
abbrev pub escaped : ℕ → Option ℕ
escaped c =
    if c == b't'
    then some 9
    else if c == b'n'
    then some 10
    else if c == b'r'
    then some 13
    else if c == 92
    then some 92
    else none

-- `unescapeToolCell`; the flag says that a backslash was read.
unfoldable pub unescape_from : Bool → Bytes → Bytes
unescape_from true [] = 92 ∷ []
unescape_from false [] = []
unescape_from true (c ∷ s) =
    let rest = unescape_from false s in
    elim (escaped c) [ some d ↦ d ∷ rest | none ↦ 92 ∷ c ∷ rest ]
unescape_from false (c ∷ s) = elim (c == 92) [
  | true ↦ unescape_from true s
  | false ↦ c ∷ unescape_from false s
]

unfoldable pub unescape_cell : Bytes → Bytes
unfolding unescape_from
unescape_cell s = unescape_from false s

-- `encodeToolRow` of what its cells display.
unfoldable pub encode_row : List Bytes → Bytes
encode_row [] = []
encode_row (c ∷ []) = escape_cell c
encode_row (c ∷ d ∷ cs) = escape_cell c ++ 9 ∷ encode_row (d ∷ cs)

-- `strings.Split` at the tabs.
abbrev pub onto_cell : ℕ → List Bytes → List Bytes
onto_cell c [] = (c ∷ []) ∷ []
onto_cell c (p ∷ ps) = (c ∷ p) ∷ ps

unfoldable pub split_tabs : Bytes → List Bytes
split_tabs [] = [] ∷ []
split_tabs (c ∷ s) = if c == 9 then [] ∷ split_tabs s else onto_cell c (split_tabs s)

-- `splitToolRow`
unfoldable pub split_row : Bytes → List Bytes
split_row line = map unescape_cell (split_tabs line)
