-- ===== src/Documents/Splices.antt =====
-- What a change of a document's lines makes of them (vfs/document.go).
use tacklr.Base.{
  ℕ, zero, suc, ◌-◌, ◌≤◌, ◌<◌, ◌≡◌, refl, sym, ◌∙◌, ap, Bool, Bool-cases, ==_iff, ◌⊎◌, inl, inr,
  true, false, ltb, ◌==◌, ◌||◌, if◌then◌else◌, List, [], ◌∷◌, ◌++◌, append_assoc, append-nil,
  length, length-append, length-drop, take, drop, any, Bytes, arith,
}
use tacklr.Failure.{ok, err, ◌>>=◌}
use tacklr.Documents.{
  Document, line_starts_of, start_at, join_lines, line_out_of_range, invalid_line, outside,
  has_line_end, splice_prefix, splice_suffix, splice_lines, set_text, replace_lines,
}
use tacklr.Documents.Lines.{
  lines_of, ended, starts_of, line_starts_of-lines, join_lines-lines, length-starts_of,
  take-start_at, take-start_at_pred, drop-start_at, ended-join_lines,
}

join_lines-append :
    (xs : List Bytes) (y : Bytes) (ys : List Bytes)
    → join_lines (xs ++ y ∷ ys) ≡ ended xs ++ join_lines (y ∷ ys)
unfolding join_lines ended
join_lines-append [] y ys = refl
join_lines-append (x ∷ []) y ys = sym (append_assoc x (b'\n' ∷ []) (join_lines (y ∷ ys)))
join_lines-append (x ∷ w ∷ xs) y ys =
    ap (λ s. x ++ b'\n' ∷ s) (join_lines-append (w ∷ xs) y ys)
    ∙ sym (append_assoc x (b'\n' ∷ ended (w ∷ xs)) (join_lines (y ∷ ys)))

ltb-zero-suc : (n : ℕ) → ltb 0 (suc n) ≡ true
ltb-zero-suc n = ground arith

pub drop-cases :
    (n : ℕ) (ls : List Bytes)
    → ((drop n ls ≡ []) × (length ls ≤ n))
      ⊎ ((l : Bytes) × (rest : List Bytes) × (drop n ls ≡ l ∷ rest) × (n < length ls))
drop-cases zero [] = inl (refl, omega arith)
drop-cases zero (l ∷ ls) = inr (l, ls, refl, omega arith)
drop-cases (suc n) [] = inl (refl, omega arith)
drop-cases (suc n) (l ∷ ls) = elim (drop-cases n ls) [
  | inl (e, le) ↦ inl (e, omega (arith, le))
  | inr (m, rest, e, lt) ↦ inr (m, rest, e, omega (arith, lt))
]

pub take_all : (n : ℕ) (ls : List Bytes) → n ≡ length ls → take n ls ≡ ls
take_all zero [] h = refl
take_all zero (l ∷ ls) h = absurd (omega (arith, h))
take_all (suc n) [] h = refl
take_all (suc n) (l ∷ ls) h = ap (◌∷◌ l) (take_all n ls (omega (arith, h)))

-- What a splice keeps after the replacement, from the lines that it keeps.
suffix_of : List Bytes → List Bytes → Bytes
suffix_of kept [] = []
suffix_of kept (l ∷ ls) = (if ltb 0 (length kept) then b'\n' ∷ [] else []) ++ join_lines (l ∷ ls)

join_lines-suffix_of :
    (kept ls : List Bytes) → join_lines kept ++ suffix_of kept ls ≡ join_lines (kept ++ ls)
unfolding suffix_of join_lines
join_lines-suffix_of kept [] = append-nil (join_lines kept) ∙ ap join_lines (sym (append-nil kept))
join_lines-suffix_of [] (l ∷ ls) = refl
join_lines-suffix_of (k ∷ kept) (l ∷ ls) = rw (ltb-zero-suc (length kept)) (
    sym (append_assoc (join_lines (k ∷ kept)) (b'\n' ∷ []) (join_lines (l ∷ ls)))
    ∙ ap (λ s. s ++ join_lines (l ∷ ls)) (sym (ended-join_lines k kept))
    ∙ sym (join_lines-append (k ∷ kept) l ls))

splice_suffix-lines :
    (ls : List Bytes) (end : ℕ) (r : List Bytes)
    → splice_suffix (join_lines ls) (starts_of 0 ls) end r ≡ suffix_of r (drop (end - 1) ls)
unfolding splice_suffix suffix_of
splice_suffix-lines ls end r =
    let count = length-starts_of 0 ls in
    elim (drop-cases (end - 1) ls) [
      | inl (e, le) ↦
          let gone : ltb 0 (length (starts_of 0 ls) - (end - 1)) ≡ false =
            ground (arith, count, le) in
          rw (gone, e) refl
      | inr (l, rest, e, lt) ↦
          let left : ltb 0 (length (starts_of 0 ls) - (end - 1)) ≡ true =
            ground (arith, count, lt) in
          rw (left, drop-start_at (end - 1) ls lt, e) refl
    ]

-- What it keeps before it.
prefix_of : Bool → List Bytes → Bytes
prefix_of more ls = if more then ended ls else join_lines ls

splice_prefix-lines :
    (ls : List Bytes) (p : ℕ) (more : Bool)
    → p ≤ length ls
    → splice_prefix (join_lines ls) (starts_of 0 ls) p more ≡ prefix_of more (take p ls)
unfolding splice_prefix prefix_of ended join_lines
splice_prefix-lines ls zero true le = refl
splice_prefix-lines ls zero false le = refl
splice_prefix-lines [] (suc p) more le = absurd (omega (arith, le))
splice_prefix-lines (l ∷ ls) (suc p) more le =
    let count = length-starts_of 0 (l ∷ ls) in
    elim (Bool-cases (suc p == length (starts_of 0 (l ∷ ls)))) [
      | inl all ↦ rw (all, take_all p ls (omega (arith, (==_iff _ _).0 all, count))) (kept_all more)
      | inr some_of ↦
          let lt : suc p < length (l ∷ ls) = ground (arith, some_of, count, le) in
          rw some_of (kept_some more lt)
    ]
  where
    kept_all :
        (more : Bool)
        → join_lines (l ∷ ls) ++ (if more then b'\n' ∷ [] else []) ≡ prefix_of more (l ∷ ls)
    kept_all true = sym (ended-join_lines l ls)
    kept_all false = append-nil (join_lines (l ∷ ls))

    kept_some :
        (more : Bool)
        → suc p < length (l ∷ ls)
        → take
            (if more
              then start_at (starts_of 0 (l ∷ ls)) (suc p)
              else start_at (starts_of 0 (l ∷ ls)) (suc p) - 1)
            (join_lines (l ∷ ls))
          ≡ prefix_of more (l ∷ take p ls)
    kept_some true lt = take-start_at (suc p) (l ∷ ls) lt
    kept_some false lt = take-start_at_pred p l ls lt

join_lines-prefix_of :
    (kept ls : List Bytes)
    → prefix_of (ltb 0 (length ls)) kept ++ join_lines ls ≡ join_lines (kept ++ ls)
unfolding prefix_of join_lines
join_lines-prefix_of kept [] = append-nil (join_lines kept) ∙ ap join_lines (sym (append-nil kept))
join_lines-prefix_of kept (l ∷ ls) =
    rw (ltb-zero-suc (length ls)) (sym (join_lines-append kept l ls))

-- The lines of a text with some of them replaced.
abbrev pub spliced : ℕ → ℕ → List Bytes → List Bytes → List Bytes
spliced start end r ls = take (start - 1) ls ++ (r ++ drop (end - 1) ls)

more_lines :
    (end n : ℕ) (r : List Bytes) (ls : List Bytes)
    → n ≡ length ls
    → (ltb 0 (length r) || ltb 0 (n - (end - 1))) ≡ ltb 0 (length (r ++ drop (end - 1) ls))
more_lines end n r ls h =
    ground (arith, h, length-append r (drop (end - 1) ls), length-drop (end - 1) ls)

splice_lines-text :
    (ls : List Bytes) (start end : ℕ) (r : List Bytes)
    → start - 1 ≤ length ls
    → splice_prefix
          (join_lines ls)
          (starts_of 0 ls)
          (start - 1)
          (ltb 0 (length r) || ltb 0 (length (starts_of 0 ls) - (end - 1)))
        ++ (join_lines r ++ splice_suffix (join_lines ls) (starts_of 0 ls) end r)
      ≡ join_lines (spliced start end r ls)
splice_lines-text ls start end r le =
    let rest = drop (end - 1) ls in
    rw
      (
        splice_suffix-lines ls end r,
        join_lines-suffix_of r rest,
        more_lines end (length (starts_of 0 ls)) r ls (length-starts_of 0 ls),
        splice_prefix-lines ls (start - 1) (ltb 0 (length (r ++ rest))) le,
      )
      (join_lines-prefix_of (take (start - 1) ls) (r ++ rest))

abbrev no_lines : List Bytes
no_lines = []

spliced-nil : (start end : ℕ) (r : List Bytes) → spliced start end r [] ≡ r
spliced-nil start end r = rw (take_all-nil (start - 1), drop_nil (end - 1)) (append-nil r)
  where
    take_all-nil : (n : ℕ) → take n no_lines ≡ []
    take_all-nil zero = refl
    take_all-nil (suc n) = refl

    drop_nil : (n : ℕ) → drop n no_lines ≡ []
    drop_nil zero = refl
    drop_nil (suc n) = refl

outside-first : (start end n : ℕ) → outside start end n ≡ false → start - 1 ≤ n
outside-first start end n h = ground (arith, h)

some_lines : (n : ℕ) → (suc n == 0) ≡ false
some_lines n = ground arith

splice_lines_lem :
    (ls : List Bytes) (start end : ℕ) (r : List Bytes)
    → splice_lines (join_lines ls) (starts_of 0 ls) start end r ≡ (
        if outside start end (length ls)
        then err line_out_of_range
        else if any has_line_end r
        then err invalid_line
        else ok (join_lines (spliced start end r ls)))
unfolding splice_lines starts_of
splice_lines_lem [] start end r = rw (spliced-nil start end r) refl
splice_lines_lem (l ∷ ls) start end r = elim (Bool-cases (outside start end (length (l ∷ ls)))) [
  | inl out ↦ rw (length-starts_of 0 (l ∷ ls), out) refl
  | inr inside ↦
      rw (splice_lines-text (l ∷ ls) start end r (outside-first start end _ inside))
        (rw (length-starts_of 0 (l ∷ ls), inside, some_lines (length ls)) refl)
]

checks-bind :
    (out bad : Bool) (text : Bytes) (d : Document)
    → ((if out then err line_out_of_range else if bad then err invalid_line else ok text)
        >>= (λ t. ok (set_text t d)))
      ≡ (if out
          then err line_out_of_range
          else if bad
          then err invalid_line
          else ok (set_text text d))
checks-bind true bad text d = refl
checks-bind false true text d = refl
checks-bind false false text d = refl

-- A document whose line index is its text's.
abbrev pub IsIndexed : Document → Type 0
IsIndexed d = d.body.starts ≡ line_starts_of d.body.payload

-- What a replacement of lines does to a document whose line index is its text's: it refuses lines outside the document, and a line with a line end in it; otherwise the new
-- text is the old one's lines, joined by line ends, with the given ones in place of those from `start` up to, but without, `end`.
pub replace_lines_lem :
    (start end : ℕ) (r : List Bytes) (d : Document)
    → IsIndexed d
    → replace_lines start end r d ≡ (
        if outside start end (length (lines_of d.body.payload))
        then err line_out_of_range
        else if any has_line_end r
        then err invalid_line
        else ok (set_text (join_lines (spliced start end r (lines_of d.body.payload))) d))
unfolding replace_lines
replace_lines_lem start end r d h =
    let ls = lines_of d.body.payload in
    let same : splice_lines d.body.payload d.body.starts start end r
        ≡ splice_lines (join_lines ls) (starts_of 0 ls) start end r =
      ap (λ starts. splice_lines d.body.payload starts start end r)
        (h ∙ line_starts_of-lines d.body.payload)
      ∙ ap (λ text. splice_lines text (starts_of 0 ls) start end r)
          (sym (join_lines-lines d.body.payload)) in
    rw (same, splice_lines_lem ls start end r)
      (checks-bind (outside start end (length ls)) (any has_line_end r) _ d)
