-- ===== src/Documents/Lines.antt =====
-- The lines of a text, by the split at its line ends, and what the line index of vfs/document.go gives of them.
use tacklr.Base.{
  ℕ, zero, suc, ◌+◌, ◌-◌, ◌<◌, ◌≡◌, refl, sym, ◌∙◌, ap, Bool-cases, ==_iff, ◌≢◌, inl, inr, ltb,
  ◌==◌, if◌then◌else◌, List, [], ◌∷◌, ◌++◌, append_assoc, append-nil, length, length-append,
  length-drop, ltb→lt, ltb-false→le, take, drop, Bytes, arith,
}
use tacklr.Documents.{starts_after, line_starts_of, start_at, line_at, join_lines}

-- A byte in front of the first line.
abbrev pub onto_first : ℕ → List Bytes → List Bytes
onto_first c [] = (c ∷ []) ∷ []
onto_first c (l ∷ ls) = (c ∷ l) ∷ ls

-- `strings.Split` at the line ends.
unfoldable pub split_lines : Bytes → List Bytes
split_lines [] = [] ∷ []
split_lines (c ∷ s) = if c == b'\n' then [] ∷ split_lines s else onto_first c (split_lines s)

-- The lines of a document: an empty text has none.
unfoldable pub lines_of : Bytes → List Bytes
unfolding split_lines
lines_of [] = []
lines_of (c ∷ s) = split_lines (c ∷ s)

-- Each line with its end.
unfoldable pub ended : List Bytes → Bytes
ended [] = []
ended (l ∷ ls) = l ++ b'\n' ∷ ended ls

unfoldable pub starts_of : ℕ → List Bytes → List ℕ
starts_of k [] = []
starts_of k (l ∷ ls) = k ∷ starts_of (k + suc (length l)) ls

after_first : ℕ → List Bytes → List ℕ
after_first k [] = []
after_first k (l ∷ ls) = starts_of (k + suc (length l)) ls

onto_first-after :
    (k c : ℕ) (ls : List Bytes) → ls ≢ [] → after_first k (onto_first c ls) ≡ after_first (k + 1) ls
unfolding after_first
onto_first-after k c [] h = absurd (h refl)
onto_first-after k c (l ∷ ls) h = ap (λ j. starts_of j ls) (omega arith)

split_lines-ne : (s : Bytes) → split_lines s ≢ []
unfolding split_lines
split_lines-ne [] = λ e. absurd (cc e)
split_lines-ne (c ∷ s) = elim (Bool-cases (c == b'\n')) [
  | inl nl ↦ rw nl (λ e. absurd (cc e))
  | inr other ↦ rw other (onto_first-ne (split_lines s))
]
  where
    onto_first-ne : (ls : List Bytes) → onto_first c ls ≢ []
    onto_first-ne [] = λ e. absurd (cc e)
    onto_first-ne (l ∷ ls) = λ e. absurd (cc e)

starts_of-split : (k : ℕ) (ls : List Bytes) → ls ≢ [] → starts_of k ls ≡ k ∷ after_first k ls
unfolding starts_of after_first
starts_of-split k [] h = absurd (h refl)
starts_of-split k (l ∷ ls) h = refl

starts_after-split : (k : ℕ) (s : Bytes) → starts_after k s ≡ after_first k (split_lines s)
unfolding starts_after split_lines after_first starts_of
starts_after-split k [] = refl
starts_after-split k (c ∷ s) = elim (Bool-cases (c == b'\n')) [
  | inl nl ↦ rw nl (
      ap (◌∷◌ (k + 1)) (starts_after-split (k + 1) s)
      ∙ sym (starts_of-split (k + 1) (split_lines s) (split_lines-ne s)))
  | inr other ↦
      rw other (
        starts_after-split (k + 1) s
        ∙ sym (onto_first-after k c (split_lines s) (split_lines-ne s)))
]

-- The line index holds where the lines start.
pub line_starts_of-lines : (s : Bytes) → line_starts_of s ≡ starts_of 0 (lines_of s)
unfolding line_starts_of lines_of starts_of
line_starts_of-lines [] = refl
line_starts_of-lines (c ∷ s) =
    ap (◌∷◌ 0) (starts_after-split 0 (c ∷ s))
    ∙ sym (starts_of-split 0 (split_lines (c ∷ s)) (split_lines-ne (c ∷ s)))

join_lines-onto_first : (c : ℕ) (ls : List Bytes) → join_lines (onto_first c ls) ≡ c ∷ join_lines ls
unfolding join_lines
join_lines-onto_first c [] = refl
join_lines-onto_first c (l ∷ []) = refl
join_lines-onto_first c (l ∷ m ∷ ls) = refl

join_lines-empty : (ls : List Bytes) → ls ≢ [] → join_lines ([] ∷ ls) ≡ b'\n' ∷ join_lines ls
unfolding join_lines
join_lines-empty [] h = absurd (h refl)
join_lines-empty (l ∷ ls) h = refl

join_lines-split : (s : Bytes) → join_lines (split_lines s) ≡ s
unfolding split_lines join_lines
join_lines-split [] = refl
join_lines-split (c ∷ s) = elim (Bool-cases (c == b'\n')) [
  | inl nl ↦ rw nl (
      join_lines-empty (split_lines s) (split_lines-ne s)
      ∙ ap (◌∷◌ b'\n') (join_lines-split s)
      ∙ ap (λ x. x ∷ s) (sym ((==_iff c b'\n').0 nl)))
  | inr other ↦ rw other (join_lines-onto_first c (split_lines s) ∙ ap (◌∷◌ c) (join_lines-split s))
]

-- A text is its lines, joined.
pub join_lines-lines : (s : Bytes) → join_lines (lines_of s) ≡ s
unfolding lines_of join_lines
join_lines-lines [] = refl
join_lines-lines (c ∷ s) = join_lines-split (c ∷ s)

pub length-starts_of : (k : ℕ) (ls : List Bytes) → length (starts_of k ls) ≡ length ls
unfolding starts_of
length-starts_of k [] = refl
length-starts_of k (l ∷ ls) = ap suc (length-starts_of (k + suc (length l)) ls)

-- Where a line starts: after the lines before it.
pub start_at-starts_of :
    (k : ℕ) (ls : List Bytes) (i : ℕ)
    → i < length ls
    → start_at (starts_of k ls) i ≡ k + length (ended (take i ls))
unfolding starts_of ended
start_at-starts_of k [] i lt = absurd (omega (arith, lt))
start_at-starts_of k (l ∷ ls) zero lt = omega arith
start_at-starts_of k (l ∷ ls) (suc i) lt = omega (
  arith,
  start_at-starts_of (k + suc (length l)) ls i (omega (arith, lt)),
  length-append l (b'\n' ∷ ended (take i ls)),
)

pub join_lines-ended :
    (i : ℕ) (ls : List Bytes)
    → i < length ls
    → join_lines ls ≡ ended (take i ls) ++ join_lines (drop i ls)
unfolding join_lines ended
join_lines-ended zero ls lt = refl
join_lines-ended (suc i) [] lt = absurd (omega (arith, lt))
join_lines-ended (suc i) (l ∷ []) lt = absurd (omega (arith, lt))
join_lines-ended (suc i) (l ∷ m ∷ ls) lt =
    ap (λ s. l ++ b'\n' ∷ s) (join_lines-ended i (m ∷ ls) (omega (arith, lt)))
    ∙ sym (append_assoc l (b'\n' ∷ ended (take i (m ∷ ls))) (join_lines (drop i (m ∷ ls))))

pub ended-join_lines :
    (l : Bytes) (ls : List Bytes) → ended (l ∷ ls) ≡ join_lines (l ∷ ls) ++ b'\n' ∷ []
unfolding join_lines ended
ended-join_lines l [] = refl
ended-join_lines l (m ∷ ls) =
    ap (λ s. l ++ b'\n' ∷ s) (ended-join_lines m ls)
    ∙ sym (append_assoc l (b'\n' ∷ join_lines (m ∷ ls)) (b'\n' ∷ []))

pub take-length : (a b : Bytes) → take (length a) (a ++ b) ≡ a
take-length [] b = refl
take-length (x ∷ a) b = ap (◌∷◌ x) (take-length a b)

pub drop-length : (a b : Bytes) → drop (length a) (a ++ b) ≡ b
drop-length [] b = refl
drop-length (x ∷ a) b = drop-length a b

first_start_at :
    (i : ℕ) (ls : List Bytes)
    → i < length ls
    → start_at (starts_of 0 ls) i ≡ length (ended (take i ls))
first_start_at i ls lt = omega (arith, start_at-starts_of 0 ls i lt)

-- What stands in a text before a line, and from it on.
pub take-start_at :
    (i : ℕ) (ls : List Bytes)
    → i < length ls
    → take (start_at (starts_of 0 ls) i) (join_lines ls) ≡ ended (take i ls)
take-start_at i ls lt =
    rw (first_start_at i ls lt, join_lines-ended i ls lt)
      (take-length (ended (take i ls)) (join_lines (drop i ls)))

-- The same without the end of the line before.
pub take-start_at_pred :
    (i : ℕ) (l : Bytes) (ls : List Bytes)
    → suc i < suc (length ls)
    → take (start_at (starts_of 0 (l ∷ ls)) (suc i) - 1) (join_lines (l ∷ ls))
      ≡ join_lines (l ∷ take i ls)
take-start_at_pred i l ls lt =
    let kept = join_lines (l ∷ take i ls) in
    let rest = join_lines (drop i ls) in
    let before = ended-join_lines l (take i ls) in
    let place : start_at (starts_of 0 (l ∷ ls)) (suc i) - 1 ≡ length kept = omega (
      arith,
      first_start_at (suc i) (l ∷ ls) lt,
      ap length before,
      length-append kept (b'\n' ∷ []),
    ) in
    let text : join_lines (l ∷ ls) ≡ kept ++ b'\n' ∷ rest =
      join_lines-ended (suc i) (l ∷ ls) lt
      ∙ (ap (λ s. s ++ rest) before ∙ append_assoc kept (b'\n' ∷ []) rest) in
    rw (place, text) (take-length kept (b'\n' ∷ rest))

pub drop-start_at :
    (i : ℕ) (ls : List Bytes)
    → i < length ls
    → drop (start_at (starts_of 0 ls) i) (join_lines ls) ≡ join_lines (drop i ls)
drop-start_at i ls lt =
    rw (first_start_at i ls lt, join_lines-ended i ls lt)
      (drop-length (ended (take i ls)) (join_lines (drop i ls)))

length-ended_suc :
    (i : ℕ) (ls : List Bytes) (l : Bytes) (rest : List Bytes)
    → drop i ls ≡ l ∷ rest
    → length (ended (take (suc i) ls)) ≡ length (ended (take i ls)) + suc (length l)
unfolding ended
length-ended_suc zero [] l rest e = absurd (cc e)
length-ended_suc (suc i) [] l rest e = absurd (cc e)
length-ended_suc zero (m ∷ ls) l rest e =
    let same : m ≡ l = cc e in rw same (omega (arith, length-append l (b'\n' ∷ [])))
length-ended_suc (suc i) (m ∷ ls) l rest e = omega (
  arith,
  length-ended_suc i ls l rest e,
  length-append m (b'\n' ∷ ended (take (suc i) ls)),
  length-append m (b'\n' ∷ ended (take i ls)),
)

take-join_lines : (l : Bytes) (ls : List Bytes) → take (length l) (join_lines (l ∷ ls)) ≡ l
unfolding join_lines
take-join_lines l [] = ap (take (length l)) (sym (append-nil l)) ∙ take-length l []
take-join_lines l (m ∷ ls) = take-length l (b'\n' ∷ join_lines (m ∷ ls))

join_lines-last : (l : Bytes) (ls : List Bytes) → length ls ≡ 0 → join_lines (l ∷ ls) ≡ l
unfolding join_lines
join_lines-last l [] h = refl
join_lines-last l (m ∷ ls) h = absurd (omega (arith, h))

-- The line index gives the lines.
pub line_at-starts_of :
    (i : ℕ) (ls : List Bytes) (l : Bytes) (rest : List Bytes)
    → drop i ls ≡ l ∷ rest
    → line_at (join_lines ls) (starts_of 0 ls) i ≡ l
unfolding line_at
line_at-starts_of i ls l rest e =
    let size : length ls - i ≡ suc (length rest) = sym (length-drop i ls) ∙ ap length e in
    let at_line : drop (start_at (starts_of 0 ls) i) (join_lines ls) ≡ join_lines (l ∷ rest) =
      drop-start_at i ls (omega (arith, size)) ∙ ap join_lines e in
    let count = length-starts_of 0 ls in
    let next : length (ended (take (i + 1) ls)) ≡ length (ended (take (suc i) ls)) =
      ap (λ j. length (ended (take j ls))) {y = suc i} (omega arith) in
    elim (Bool-cases (ltb (i + 1) (length (starts_of 0 ls)))) [
      | inl more ↦
          let within = ltb→lt _ _ more in
          let wide : start_at (starts_of 0 ls) (i + 1) - 1 - start_at (starts_of 0 ls) i
              ≡ length l =
            omega (
              arith,
              first_start_at i ls (omega (arith, size)),
              first_start_at (i + 1) ls (omega (arith, within, count)),
              length-ended_suc i ls l rest e,
              next,
            ) in
          rw (more, at_line, wide) (take-join_lines l rest)
      | inr last ↦
          let no_more : length rest ≡ 0 = omega (arith, size, count, ltb-false→le _ _ last) in
          rw (last, at_line) (join_lines-last l rest no_more)
    ]
