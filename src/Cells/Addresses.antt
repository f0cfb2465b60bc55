-- ===== src/Cells/Addresses.antt =====
-- Addresses of cells, printed and parsed (vfs/tabular.go).
use tacklr.Base.{
  ℕ, zero, suc, ◌+◌, ◌*◌, ◌/◌, ◌%◌, ◌^◌, ◌≤◌, ◌<◌, ◌≡◌, refl, sym, ◌∙◌, ap, true, false, ◌&&◌, ltb,
  ◌==◌, some, [], ◌∷◌, ◌++◌, length, length-append, Bytes, is_empty, min, all_plain,
  trim_space-plain, decimal, read_digits, are_digits, all_digits, decimal-are_digits,
  read_digits-decimal, arith,
}
use tacklr.Failure.{ok}
use tacklr.Cells.{
  letter_of, parse_column, atoi_unsigned, atoi_positive, is_column, parsed_cell, parse_a1_cell,
  letters_from, col_letters, format_a1,
}

letter_of-digit : (n : ℕ) → letter_of (b'A' + n % 26) ≡ suc (n % 26)
letter_of-digit n = ground arith

parse_column-letter :
    (col c n : ℕ) (s : Bytes)
    → letter_of c ≡ suc n
    → parse_column col (c ∷ s) ≡ parse_column ((col * 26 + suc n) % 2 ^ 64) s
unfolding parse_column
parse_column-letter col c n s h = rw (parse_column, h) refl

-- The letters of a column read as the column.
parse_column-letters_from :
    (room n : ℕ) (out letters tail : Bytes)
    → letters_from room n out ≡ some letters
    → n < 2 ^ 64
    → parse_column 0 (letters ++ tail) ≡ parse_column n (out ++ tail)
unfolding letters_from
parse_column-letters_from zero zero out letters tail h lt =
    let same : out ≡ letters = cc h in ap (λ s. parse_column 0 (s ++ tail)) (sym same)
parse_column-letters_from (suc room) zero out letters tail h lt =
    let same : out ≡ letters = cc h in ap (λ s. parse_column 0 (s ++ tail)) (sym same)
parse_column-letters_from zero (suc n) out letters tail h lt = absurd (cc h)
parse_column-letters_from (suc room) (suc n) out letters tail h lt =
    parse_column-letters_from room (n / 26) ((b'A' + n % 26) ∷ out) letters tail h
      (omega (arith, lt))
    ∙ (parse_column-letter (n / 26) (b'A' + n % 26) (n % 26) (out ++ tail) (letter_of-digit n)
        ∙ ap (λ c. parse_column c (out ++ tail)) {y = suc n} (omega (arith, lt)))

parse_column-digits : (col : ℕ) (s : Bytes) → are_digits s ≡ true → parse_column col s ≡ (col, s)
unfolding parse_column
parse_column-digits col [] h = refl
parse_column-digits col (c ∷ s) h =
    let none_of : letter_of c ≡ 0 = ground (arith, h) in rw (parse_column, none_of) refl

length-letters_from :
    (room n : ℕ) (out letters : Bytes)
    → letters_from room n out ≡ some letters
    → length out + min 1 n ≤ length letters
unfolding letters_from
length-letters_from zero zero out letters h =
    let same : out ≡ letters = cc h in omega (arith, ap length same)
length-letters_from (suc room) zero out letters h =
    let same : out ≡ letters = cc h in omega (arith, ap length same)
length-letters_from zero (suc n) out letters h = absurd (cc h)
length-letters_from (suc room) (suc n) out letters h =
    omega (arith, length-letters_from room (n / 26) ((b'A' + n % 26) ∷ out) letters h)

all_plain-letters_from :
    (room n : ℕ) (out letters : Bytes)
    → letters_from room n out ≡ some letters
    → all_plain out ≡ true
    → all_plain letters ≡ true
unfolding letters_from
all_plain-letters_from zero zero out letters h p =
    let same : out ≡ letters = cc h in ap all_plain (sym same) ∙ p
all_plain-letters_from (suc room) zero out letters h p =
    let same : out ≡ letters = cc h in ap all_plain (sym same) ∙ p
all_plain-letters_from zero (suc n) out letters h p = absurd (cc h)
all_plain-letters_from (suc room) (suc n) out letters h p =
    all_plain-letters_from room (n / 26) ((b'A' + n % 26) ∷ out) letters h (ground (arith, p))

all_plain-append : (s t : Bytes) → all_plain (s ++ t) ≡ (all_plain s && all_plain t)
all_plain-append [] t = refl
all_plain-append (c ∷ s) t = ground (arith, all_plain-append s t)

all_plain-digits : (s : Bytes) → all_digits s ≡ true → all_plain s ≡ true
all_plain-digits [] h = refl
all_plain-digits (c ∷ s) h = ground (arith, h, all_plain-digits s (ground (arith, h)))

atoi_positive-digits :
    (s : Bytes)
    → are_digits s ≡ true
    → 0 < read_digits 0 s
    → read_digits 0 s < 2 ^ 63
    → atoi_positive s ≡ some (read_digits 0 s)
unfolding atoi_positive atoi_unsigned
atoi_positive-digits [] h low high = absurd (cc h)
atoi_positive-digits (c ∷ s) h low high =
    let unsigned : (c == b'+') ≡ false = ground (arith, h) in
    let below : ltb 0 (read_digits 0 (c ∷ s)) ≡ true = ground (arith, low) in
    let above : ltb (read_digits 0 (c ∷ s)) (2 ^ 63) ≡ true = ground (arith, high) in
    rw (atoi_positive, unsigned, atoi_unsigned, h, below, above) refl

length-digits : (s : Bytes) → are_digits s ≡ true → 1 ≤ length s
length-digits [] h = absurd (cc h)
length-digits (c ∷ s) h = omega arith

is_empty-digits : (s : Bytes) → are_digits s ≡ true → is_empty s ≡ false
is_empty-digits [] h = absurd (cc h)
is_empty-digits (c ∷ s) h = refl

all_digits-are_digits : (s : Bytes) → are_digits s ≡ true → all_digits s ≡ true
all_digits-are_digits [] h = refl
all_digits-are_digits (c ∷ s) h = h

-- A cell that was read up to its digits.
parsed_cell-digits :
    (s : Bytes) (col : ℕ) (rest : Bytes)
    → are_digits rest ≡ true
    → length rest < length s
    → 0 < read_digits 0 rest
    → read_digits 0 rest < 2 ^ 63
    → is_column col ≡ true
    → parsed_cell s (col, rest) ≡ ok (read_digits 0 rest, col)
unfolding parsed_cell
parsed_cell-digits s col rest h less low high is_col =
    let shorter : (length rest == length s) ≡ false = ground (arith, less) in
    rw (parsed_cell, shorter, is_empty-digits rest h, atoi_positive-digits rest h low high, is_col)
      refl

parse_a1_cell-letters :
    (row col : ℕ) (letters : Bytes)
    → letters_from 8 col [] ≡ some letters
    → 1 ≤ row
    → row < 2 ^ 63
    → 1 ≤ col
    → col < 2 ^ 63
    → parse_a1_cell (letters ++ decimal row) ≡ ok (row, col)
unfolding parse_a1_cell
parse_a1_cell-letters row col letters h row_low row_high col_low col_high =
    let s : Bytes = letters ++ decimal row in
    let digits : are_digits (decimal row) ≡ true = decimal-are_digits row in
    let value : read_digits 0 (decimal row) ≡ row = read_digits-decimal row in
    let visible : all_plain s ≡ true =
      rw
        (
          all_plain-append letters (decimal row),
          all_plain-letters_from 8 col [] letters h refl,
          all_plain-digits (decimal row) (all_digits-are_digits (decimal row) digits),
        )
        refl in
    let parsed : parse_column 0 s ≡ (col, decimal row) =
      parse_column-letters_from 8 col [] letters (decimal row) h (omega (arith, col_high))
      ∙ parse_column-digits col (decimal row) digits in
    let longer : length (decimal row) < length s = omega (
      arith,
      length-append letters (decimal row),
      length-letters_from 8 col [] letters h,
      col_low,
    ) in
    let is_col : is_column col ≡ true = ground (arith, col_low, col_high) in
    ap (λ t. parsed_cell t (parse_column 0 t)) (trim_space-plain s visible)
    ∙ (ap (parsed_cell s) parsed
        ∙ (parsed_cell-digits s col (decimal row) digits longer (omega (arith, value, row_low))
              (omega (arith, value, row_high)) is_col
            ∙ ap (λ n. ok (n, col)) value))

-- How many columns letters of this number can name, the one without letters included.
columns : ℕ → ℕ
columns zero = 1
columns (suc room) = columns room * 26 + 1

letters_from-columns :
    (room n : ℕ) (out : Bytes)
    → n < columns room
    → (letters : Bytes) × (letters_from room n out ≡ some letters)
unfolding letters_from columns
letters_from-columns zero zero out lt = (out, refl)
letters_from-columns (suc room) zero out lt = (out, refl)
letters_from-columns zero (suc n) out lt = absurd (omega (arith, lt))
letters_from-columns (suc room) (suc n) out lt =
    letters_from-columns room (n / 26) ((b'A' + n % 26) ∷ out) (omega (arith, lt))

-- A row and a column, both from 1 on, the row an `int` and the column one that eight letters can name, have an address, and the
-- address is read as that row and that column.
pub parse_a1_cell-format_a1 :
    (row col : ℕ)
    → 1 ≤ row
    → row < 2 ^ 63
    → 1 ≤ col
    → col ≤ 217180147158
    → (s : Bytes) × ((format_a1 row col ≡ some s) × (parse_a1_cell s ≡ ok (row, col)))
unfolding format_a1 col_letters columns
parse_a1_cell-format_a1 row col row_low row_high col_low col_high =
    let (letters, some_of) = letters_from-columns 8 col [] (omega (arith, col_high)) in
    (
      letters ++ decimal row,
      (
        rw (format_a1, col_letters, some_of) refl,
        parse_a1_cell-letters row col letters some_of row_low row_high col_low
            (omega (arith, col_high)),
      ),
    )
