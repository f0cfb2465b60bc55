-- ===== src/Documents/Windows/Pieces.antt =====
-- The lines of a stream and those of its text's document (vfs/lines.go).

use tacklr.Base.{
  ℕ, suc, ◌-◌, ◌≡◌, ◌≢◌, refl, sym, ◌∙◌, ap, inl, inr, Bool, Bool-cases, true, false, ◌==◌, ◌||◌,
  if◌then◌else◌, List, [], ◌∷◌, ◌++◌, map, length, take, Bytes, is_empty, arith,
}
use tacklr.Documents.Lines.{onto_first, split_lines, lines_of}
use tacklr.Documents.Windows.{pieces, ends_line, without_end}
use tacklr.Documents.Windows.Pages.{total, ArePieces}

-- The lines that a stream shows of a text.
abbrev pub file_lines : Bytes → List Bytes
file_lines text = map without_end (pieces text)

abbrev pub last_line : Bool → List Bytes
last_line b = if b then [] ∷ [] else []

pub ends_line-cons : (c : ℕ) (p : Bytes) → (c == b'\n') ≡ false → ends_line (c ∷ p) ≡ ends_line p
unfolding ends_line
ends_line-cons c [] other = other
ends_line-cons c (d ∷ p) other = refl

pub ends_line-newline :
    (c : ℕ) (p : Bytes) → (c == b'\n') ≡ true → ends_line (c ∷ p) ≡ (is_empty p || ends_line p)
unfolding ends_line
ends_line-newline c [] nl = nl
ends_line-newline c (d ∷ p) nl = refl

onto_first-ArePieces :
    (c : ℕ) (ps : List Bytes) → (c == b'\n') ≡ false → ArePieces ps → ArePieces (onto_first c ps)
unfolding ends_line
onto_first-ArePieces c [] other h = inr (other, refl)
onto_first-ArePieces c (p ∷ ps) other (inl (e, more)) = inl (ends_line-cons c p other ∙ e, more)
onto_first-ArePieces c (p ∷ ps) other (inr (e, last)) = inr (ends_line-cons c p other ∙ e, last)

pub pieces-ArePieces : (s : Bytes) → ArePieces (pieces s)
unfolding pieces ends_line
pieces-ArePieces [] = tt
pieces-ArePieces (c ∷ s) = elim (Bool-cases (c == b'\n')) [
  | inl nl ↦ rw nl (inl (nl, pieces-ArePieces s))
  | inr other ↦ rw other (onto_first-ArePieces c (pieces s) other (pieces-ArePieces s))
]

total-onto_first : (c : ℕ) (ps : List Bytes) → total (onto_first c ps) ≡ suc (total ps)
total-onto_first c [] = omega arith
total-onto_first c (p ∷ ps) = omega arith

pub total-pieces : (s : Bytes) → total (pieces s) ≡ length s
unfolding pieces
total-pieces [] = refl
total-pieces (c ∷ s) = elim (Bool-cases (c == b'\n')) [
  | inl nl ↦ rw nl (omega (arith, total-pieces s))
  | inr other ↦ rw other (total-onto_first c (pieces s) ∙ ap suc (total-pieces s))
]

take-cons : (n c : ℕ) (s : Bytes) → take (suc (suc n) - 1) (c ∷ s) ≡ c ∷ take (suc n - 1) s
take-cons n c s =
    let inner : suc n - 1 ≡ n = omega arith in
    let outer : suc (suc n) - 1 ≡ suc n = omega arith in rw (outer, inner) refl

without_end-cons :
    (c : ℕ) (p : Bytes) → (c == b'\n') ≡ false → without_end (c ∷ p) ≡ c ∷ without_end p
unfolding ends_line
without_end-cons c [] other = rw other refl
without_end-cons c (d ∷ s) other = elim (Bool-cases (ends_line (d ∷ s))) [
  | inl e ↦ rw e (take-cons (length s) c (d ∷ s))
  | inr e ↦ rw e refl
]

without_end-newline : (c : ℕ) → (c == b'\n') ≡ true → without_end (c ∷ []) ≡ []
unfolding ends_line
without_end-newline c nl = rw nl refl

onto_first-append :
    (c : ℕ) (ps t : List Bytes)
    → (c == b'\n') ≡ false
    → ps ≢ []
    → onto_first c (map without_end ps ++ t) ≡ map without_end (onto_first c ps) ++ t
onto_first-append c [] t other h = absurd (h refl)
onto_first-append c (p ∷ ps) t other h =
    ap (λ q. q ∷ (map without_end ps ++ t)) (sym (without_end-cons c p other))

onto_first-ne : (c : ℕ) (ps : List Bytes) → onto_first c ps ≢ []
onto_first-ne c [] = λ e. absurd (cc e)
onto_first-ne c (p ∷ ps) = λ e. absurd (cc e)

pub pieces-ne : (c : ℕ) (s : Bytes) → pieces (c ∷ s) ≢ []
unfolding pieces
pieces-ne c s = elim (Bool-cases (c == b'\n')) [
  | inl nl ↦ rw nl (λ e. absurd (cc e))
  | inr other ↦ rw other (onto_first-ne c (pieces s))
]

with_first :
    (c : ℕ) (s : Bytes)
    → (c == b'\n') ≡ false
    → split_lines s ≡ file_lines s ++ last_line (is_empty s || ends_line s)
    → onto_first c (split_lines s)
      ≡ map without_end (onto_first c (pieces s)) ++ last_line (ends_line s)
unfolding split_lines pieces ends_line
with_first c [] other h = ap (λ p. p ∷ []) (sym (without_end-cons c [] other))
with_first c (d ∷ s) other h =
    ap (onto_first c) h ∙ onto_first-append c (pieces (d ∷ s)) _ other (pieces-ne d s)

split_lines-pieces :
    (s : Bytes) → split_lines s ≡ file_lines s ++ last_line (is_empty s || ends_line s)
unfolding split_lines pieces
split_lines-pieces [] = refl
split_lines-pieces (c ∷ s) = elim (Bool-cases (c == b'\n')) [
  | inl nl ↦
      rw (ends_line-newline c s nl, nl, without_end-newline c nl)
        (ap (◌∷◌ []) (split_lines-pieces s))
  | inr other ↦ rw (ends_line-cons c s other, other) (with_first c s other (split_lines-pieces s))
]

-- The lines of a document are those of its file's stream, and an empty last one when the text ends in a line end.
pub lines_of-pieces : (s : Bytes) → lines_of s ≡ file_lines s ++ last_line (ends_line s)
unfolding lines_of pieces ends_line
lines_of-pieces [] = refl
lines_of-pieces (c ∷ s) = split_lines-pieces (c ∷ s)
