-- ===== src/Cells/Rows.antt =====
-- Rows of cells, written and read (vfs/tabular.go).
use tacklr.Base.{
  ℕ, ◌≡◌, refl, sym, ◌∙◌, ap, Bool, Bool-cases, ==_iff, inl, inr, true, false, ◌||◌, ◌==◌, List, [],
  ◌∷◌, ◌++◌, Bytes, any, any-append, arith,
}
use tacklr.Cells.{
  escape_byte, escape_cell, unescape_from, unescape_cell, encode_row, split_tabs, split_row,
}

abbrev has_tab : Bytes → Bool
has_tab s = any (λ c. c == 9) s

escape_byte-no_tab : (c : ℕ) → has_tab (escape_byte c) ≡ false
escape_byte-no_tab c = ground arith

escape_cell-no_tab : (s : Bytes) → has_tab (escape_cell s) ≡ false
unfolding escape_cell
escape_cell-no_tab [] = refl
escape_cell-no_tab (c ∷ s) =
    any-append (λ d. d == 9) (escape_byte c) (escape_cell s)
    ∙ rw (escape_byte-no_tab c, escape_cell-no_tab s) refl

-- An escaped byte is read as the byte.
unescape_from-escape_byte :
    (c : ℕ) (s : Bytes) → unescape_from false (escape_byte c ++ s) ≡ c ∷ unescape_from false s
unfolding unescape_from
unescape_from-escape_byte c s = elim (Bool-cases (c == 92)) [
  | inl e ↦ rw e (read_as 92 e)
  | inr n92 ↦ elim (Bool-cases (c == 9)) [
    | inl e ↦ rw (n92, e) (read_as 9 e)
    | inr n9 ↦ elim (Bool-cases (c == 10)) [
      | inl e ↦ rw (n92, n9, e) (read_as 10 e)
      | inr n10 ↦ elim (Bool-cases (c == 13)) [
        | inl e ↦ rw (n92, n9, n10, e) (read_as 13 e)
        | inr n13 ↦ rw (n92, n9, n10, n13) (rw (unescape_from, n92) refl)
      ]
    ]
  ]
]
  where
    read_as : (d : ℕ) → (c == d) ≡ true → d ∷ unescape_from false s ≡ c ∷ unescape_from false s
    read_as d e = ap (λ b. b ∷ unescape_from false s) (sym ((==_iff c d).0 e))

unescape_cell-escape_cell : (s : Bytes) → unescape_cell (escape_cell s) ≡ s
unfolding unescape_cell escape_cell unescape_from
unescape_cell-escape_cell [] = refl
unescape_cell-escape_cell (c ∷ s) =
    unescape_from-escape_byte c (escape_cell s) ∙ ap (◌∷◌ c) (unescape_cell-escape_cell s)

or_left : (a b : Bool) → (a || b) ≡ false → a ≡ false
or_left a b h = ground (arith, h)

or_right : (a b : Bool) → (a || b) ≡ false → b ≡ false
or_right a b h = ground (arith, h)

split_tabs-cell : (p s : Bytes) → has_tab p ≡ false → split_tabs (p ++ 9 ∷ s) ≡ p ∷ split_tabs s
unfolding split_tabs
split_tabs-cell [] s h = refl
split_tabs-cell (c ∷ p) s h =
    rw (or_left (c == 9) (has_tab p) h, split_tabs-cell p s (or_right (c == 9) (has_tab p) h)) refl

split_tabs-one : (p : Bytes) → has_tab p ≡ false → split_tabs p ≡ p ∷ []
unfolding split_tabs
split_tabs-one [] h = refl
split_tabs-one (c ∷ p) h =
    rw (or_left (c == 9) (has_tab p) h, split_tabs-one p (or_right (c == 9) (has_tab p) h)) refl

-- A row of one cell or more reads back as it was written, whatever bytes its cells hold.
pub split_row-encode_row : (c : Bytes) (cs : List Bytes) → split_row (encode_row (c ∷ cs)) ≡ c ∷ cs
unfolding split_row encode_row
split_row-encode_row c [] =
    rw (split_tabs-one (escape_cell c) (escape_cell-no_tab c))
      (ap (λ d. d ∷ []) (unescape_cell-escape_cell c))
split_row-encode_row c (d ∷ cs) =
    rw (split_tabs-cell (escape_cell c) (encode_row (d ∷ cs)) (escape_cell-no_tab c)) (
      ap (λ e. e ∷ split_row (encode_row (d ∷ cs))) (unescape_cell-escape_cell c)
      ∙ ap (◌∷◌ c) (split_row-encode_row d cs))
