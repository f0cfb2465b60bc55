-- ===== src/Documents/Reading.antt =====
-- What a document's lines read as, and after a replacement (vfs/document.go).
use tacklr.Base.{
  ℕ, zero, suc, ◌+◌, ◌-◌, ◌≤◌, ◌≡◌, ◌≢◌, refl, sym, subst, ◌∙◌, ap, Bool, Bool-cases, ==_iff, inl,
  inr, false, ◌==◌, ◌||◌, if◌then◌else◌, List, [], ◌∷◌, ◌++◌, length, take, drop, any, any-append,
  Bytes, arith,
}
use tacklr.Failure.{ok, err, guard-eq-ok}
use tacklr.Documents.{
  Document, lines_from, join_lines, outside, lines, line_out_of_range, invalid_line, has_line_end,
  set_text, replace_lines,
}
use tacklr.Documents.Lines.{
  onto_first, split_lines, lines_of, starts_of, line_starts_of-lines, join_lines-lines,
  length-starts_of, line_at-starts_of,
}
use tacklr.Documents.Splices.{spliced, IsIndexed, replace_lines_lem, drop-cases, take_all}

-- Lines with no line end in them.
abbrev Whole : List Bytes → Type 0
Whole ls = any has_line_end ls ≡ false

pub or_left : (a b : Bool) → (a || b) ≡ false → a ≡ false
or_left a b h = ground (arith, h)

pub or_right : (a b : Bool) → (a || b) ≡ false → b ≡ false
or_right a b h = ground (arith, h)

any-onto_first :
    (c : ℕ) (ls : List Bytes) → (c == b'\n') ≡ false → Whole ls → Whole (onto_first c ls)
any-onto_first c [] other h = ground (arith, other)
any-onto_first c (l ∷ ls) other h = ground (arith, other, h)

split_lines-Whole : (s : Bytes) → Whole (split_lines s)
unfolding split_lines
split_lines-Whole [] = refl
split_lines-Whole (c ∷ s) = elim (Bool-cases (c == b'\n')) [
  | inl nl ↦ rw nl (split_lines-Whole s)
  | inr other ↦ rw other (any-onto_first c (split_lines s) other (split_lines-Whole s))
]

lines_of-Whole : (s : Bytes) → Whole (lines_of s)
unfolding lines_of
lines_of-Whole [] = refl
lines_of-Whole (c ∷ s) = split_lines-Whole (c ∷ s)

-- What no line of a list is, none of a part of it is.
pub any-take :
    (p : Bytes → Bool) (n : ℕ) (ls : List Bytes) → any p ls ≡ false → any p (take n ls) ≡ false
any-take p zero ls h = refl
any-take p (suc n) [] h = refl
any-take p (suc n) (l ∷ ls) h = ground (arith, any-take p n ls (ground (arith, h)), h)

pub any-drop :
    (p : Bytes → Bool) (n : ℕ) (ls : List Bytes) → any p ls ≡ false → any p (drop n ls) ≡ false
any-drop p zero ls h = h
any-drop p (suc n) [] h = refl
any-drop p (suc n) (l ∷ ls) h = any-drop p n ls (ground (arith, h))

spliced-Whole :
    (start end : ℕ) (r ls : List Bytes) → Whole r → Whole ls → Whole (spliced start end r ls)
spliced-Whole start end r ls hr h =
    let front = any-take has_line_end (start - 1) ls h in
    let back = any-drop has_line_end (end - 1) ls h in
    rw
      (
        any-append has_line_end (take (start - 1) ls) (r ++ drop (end - 1) ls),
        any-append has_line_end r (drop (end - 1) ls),
        front,
        hr,
        back,
      )
      refl

split_lines-line :
    (l s : Bytes) → has_line_end l ≡ false → split_lines (l ++ b'\n' ∷ s) ≡ l ∷ split_lines s
unfolding split_lines
split_lines-line [] s h = refl
split_lines-line (c ∷ l) s h =
    rw
      (
        or_left (c == b'\n') (has_line_end l) h,
        split_lines-line l s (or_right (c == b'\n') (has_line_end l) h),
      )
      refl

split_lines-one : (l : Bytes) → has_line_end l ≡ false → split_lines l ≡ l ∷ []
unfolding split_lines
split_lines-one [] h = refl
split_lines-one (c ∷ l) h =
    rw
      (
        or_left (c == b'\n') (has_line_end l) h,
        split_lines-one l (or_right (c == b'\n') (has_line_end l) h),
      )
      refl

pub split_lines-join_lines :
    (l : Bytes) (ls : List Bytes) → Whole (l ∷ ls) → split_lines (join_lines (l ∷ ls)) ≡ l ∷ ls
unfolding join_lines
split_lines-join_lines l [] h = split_lines-one l (or_left _ _ h)
split_lines-join_lines l (m ∷ ls) h =
    split_lines-line l (join_lines (m ∷ ls)) (or_left _ _ h)
    ∙ ap (◌∷◌ l) (split_lines-join_lines m ls (or_right _ _ h))

lines_of-split : (s : Bytes) → s ≢ [] → lines_of s ≡ split_lines s
unfolding lines_of
lines_of-split [] h = absurd (h refl)
lines_of-split (c ∷ s) h = refl

join_lines-ne : (ls : List Bytes) → ls ≢ [] → ls ≢ [] ∷ [] → join_lines ls ≢ []
unfolding join_lines
join_lines-ne [] h j = absurd (h refl)
join_lines-ne ([] ∷ []) h j = absurd (j refl)
join_lines-ne ((c ∷ l) ∷ []) h j = λ e. absurd (cc e)
join_lines-ne ([] ∷ m ∷ ls) h j = λ e. absurd (cc e)
join_lines-ne ((c ∷ l) ∷ m ∷ ls) h j = λ e. absurd (cc e)

-- Lines with no line end are those of their text, but for a single empty one.
lines_of-join_lines : (ls : List Bytes) → Whole ls → ls ≢ [] ∷ [] → lines_of (join_lines ls) ≡ ls
unfolding lines_of join_lines
lines_of-join_lines [] h j = refl
lines_of-join_lines (l ∷ ls) h j =
    lines_of-split _ (join_lines-ne (l ∷ ls) (λ e. absurd (cc e)) j) ∙ split_lines-join_lines l ls h

set_text-IsIndexed : (text : Bytes) (d : Document) → IsIndexed (set_text text d)
unfolding set_text
set_text-IsIndexed text d = refl

drop-suc :
    (i : ℕ) (ls : List Bytes) (l : Bytes) (rest : List Bytes)
    → drop i ls ≡ l ∷ rest
    → drop (suc i) ls ≡ rest
drop-suc zero [] l rest e = absurd (cc e)
drop-suc zero (m ∷ ls) l rest e = cc e
drop-suc (suc i) [] l rest e = absurd (cc e)
drop-suc (suc i) (m ∷ ls) l rest e = drop-suc i ls l rest e

lines_from-drop :
    (k i : ℕ) (ls : List Bytes)
    → i + k ≤ length ls
    → lines_from k i (record { payload = join_lines ls; starts = starts_of 0 ls })
      ≡ take k (drop i ls)
unfolding lines_from
lines_from-drop zero i ls le = refl
lines_from-drop (suc k) i ls le = elim (drop-cases i ls) [
  | inl (e, short) ↦ absurd (omega (arith, le, short))
  | inr (l, rest, e, lt) ↦
      let next : drop (i + 1) ls ≡ rest =
        ap (λ j. drop j ls) {y = suc i} (omega arith) ∙ drop-suc i ls l rest e in
      rw
        (line_at-starts_of i ls l rest e, lines_from-drop k (i + 1) ls (omega (arith, le)), e, next)
        refl
]

body_lines :
    (d : Document)
    → IsIndexed d
    → d.body ≡ record {
      payload = join_lines (lines_of d.body.payload);
      starts = starts_of 0 (lines_of d.body.payload);
    }
body_lines d h i = record {
  payload = sym (join_lines-lines d.body.payload) i;
  starts = (h ∙ line_starts_of-lines d.body.payload) i;
}

pub starts-count :
    (d : Document) → IsIndexed d → length d.body.starts ≡ length (lines_of d.body.payload)
starts-count d h =
    ap (λ b. length b.starts) (body_lines d h) ∙ length-starts_of 0 (lines_of d.body.payload)

take_none : (n : ℕ) (ls : List Bytes) → n ≡ 0 → take n ls ≡ []
take_none zero ls h = refl
take_none (suc n) ls h = absurd (omega (arith, h))

-- What a read of a document's lines gives, where its line index is its text's: lines outside the document are refused, and others
-- are those of the split of the text at its line ends.
pub lines_lem :
    (start end : ℕ) (d : Document)
    → IsIndexed d
    → lines start end d ≡ (
        if outside start end (length (lines_of d.body.payload))
        then err line_out_of_range
        else ok (take (end - start) (drop (start - 1) (lines_of d.body.payload))))
unfolding lines
lines_lem start end d h =
    let ls = lines_of d.body.payload in
    let same = body_lines d h in
    let count = starts-count d h in
    elim (Bool-cases (outside start end (length ls))) [
      | inl out ↦ rw (count, out) refl
      | inr inside ↦
          let got : lines_from (end - start) (start - 1) d.body
              ≡ take (end - start) (drop (start - 1) ls) =
            ap (lines_from (end - start) (start - 1)) same
            ∙ lines_from-drop (end - start) (start - 1) ls (ground (arith, inside)) in
          elim (Bool-cases (start == end)) [
            | inl none_asked ↦
                rw (count, inside, none_asked, (==_iff start end).0 none_asked)
                  (ap ok (sym (take_none (end - end) (drop (end - 1) ls) (omega arith))))
            | inr some_asked ↦ rw (count, inside, some_asked, got) refl
          ]
    ]

lines-set_text :
    (ls : List Bytes) (d : Document)
    → Whole ls
    → ls ≢ [] ∷ []
    → lines 1 (length ls + 1) (set_text (join_lines ls) d) ≡ ok ls
unfolding set_text
lines-set_text ls d whole h =
    let same : lines_of (join_lines ls) ≡ ls = lines_of-join_lines ls whole h in
    let inside : outside 1 (length ls + 1) (length ls) ≡ false = ground arith in
    let all : take (length ls + 1 - 1) (drop (1 - 1) ls) ≡ ls =
      take_all (length ls + 1 - 1) ls (omega arith) in
    lines_lem 1 (length ls + 1) (set_text (join_lines ls) d) refl ∙ rw (same, inside, all) refl

-- A replacement that succeeds, in a document whose line index is its text's, leaves such a document, and its lines
-- read as the old ones with the given ones in place of those from `start` up to, but without, `end`; but a
-- single empty line that is left reads as no line.
pub replace_lines-lines :
    (start end : ℕ) (r : List Bytes) (d d' : Document)
    → IsIndexed d
    → replace_lines start end r d ≡ ok d'
    → IsIndexed d'
      × (spliced start end r (lines_of d.body.payload) ≢ [] ∷ []
          → lines 1 (length (spliced start end r (lines_of d.body.payload)) + 1) d'
            ≡ ok (spliced start end r (lines_of d.body.payload)))
replace_lines-lines start end r d d' h done =
    let ls = spliced start end r (lines_of d.body.payload) in
    let (_, checked) =
      guard-eq-ok (outside start end (length (lines_of d.body.payload))) line_out_of_range
        (if any has_line_end r then err invalid_line else ok (set_text (join_lines ls) d))
        (sym (replace_lines_lem start end r d h) ∙ done) in
    let (whole, made) =
      guard-eq-ok (any has_line_end r) invalid_line (ok (set_text (join_lines ls) d)) checked in
    let same : set_text (join_lines ls) d ≡ d' = cc made in
    subst (λ e. IsIndexed e × (ls ≢ [] ∷ [] → lines 1 (length ls + 1) e ≡ ok ls)) same
      (
        set_text-IsIndexed (join_lines ls) d,
        lines-set_text ls d (spliced-Whole start end r _ whole (lines_of-Whole d.body.payload)),
      )
