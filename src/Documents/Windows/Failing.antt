-- ===== src/Documents/Windows/Failing.antt =====
-- A stream that fails where its lines end (vfs/lines.go).
use tacklr.Base.{
  ℕ, suc, ◌+◌, ◌-◌, ◌≤◌, ◌<◌, ◌≡◌, ◌≢◌, refl, sym, ◌∙◌, ap, Bool-cases, inl, inr, true, false, ◌||◌,
  ◌&&◌, ◌==◌, ltb, leb, if◌then◌else◌, some, List, [], ◌∷◌, All, length, length-map, Bytes,
  is_empty, valid_utf8, arith,
}
use tacklr.Failure.{Failure, ok}
use tacklr.Documents.Lines.{onto_first}
use tacklr.Documents.Windows.{
  max_line_scan_bytes, pieces, ends_line, without_end, Request, after_end, scan, read_line_range,
}
use tacklr.Documents.Windows.Pages.{page, total, FitsLine, pass_lem}
use tacklr.Documents.Windows.Pieces.{
  file_lines, ends_line-cons, ends_line-newline, pieces-ne, total-pieces,
}

abbrev Ended : Bytes → Type 0
Ended s = ends_line s ≡ true

onto_first-Ended :
    (c : ℕ) (ps : List Bytes)
    → (c == b'\n') ≡ false
    → ps ≢ []
    → All Ended ps
    → All Ended (onto_first c ps)
onto_first-Ended c [] other h all = absurd (h refl)
onto_first-Ended c (p ∷ ps) other h (e, all) = (ends_line-cons c p other ∙ e, all)

extended-Ended :
    (c : ℕ) (s : Bytes)
    → (c == b'\n') ≡ false
    → ends_line s ≡ true
    → All Ended (pieces s)
    → All Ended (onto_first c (pieces s))
unfolding ends_line
extended-Ended c [] other e all = absurd (cc e)
extended-Ended c (d ∷ s) other e all = onto_first-Ended c (pieces (d ∷ s)) other (pieces-ne d s) all

ended_so : (s : Bytes) → ends_line s ≡ true → (is_empty s || ends_line s) ≡ true
ended_so s e = ground (arith, e)

-- When a text is empty or ends in a line end, each of its pieces does.
pieces-Ended : (s : Bytes) → (is_empty s || ends_line s) ≡ true → All Ended (pieces s)
unfolding pieces
pieces-Ended [] h = tt
pieces-Ended (c ∷ s) h = elim (Bool-cases (c == b'\n')) [
  | inl nl ↦ rw nl (ends_line-newline c [] nl, pieces-Ended s (sym (ends_line-newline c s nl) ∙ h))
  | inr other ↦
      let e = sym (ends_line-cons c s other) ∙ h in
      rw other (extended-Ended c s other e (pieces-Ended s (ended_so s e)))
]

-- Lines before the start are passed over.
scan-before :
    (rq : Request) (ps : List Bytes) (k scanned : ℕ)
    → All Ended ps
    → All FitsLine ps
    → scanned + total ps ≤ max_line_scan_bytes
    → k + length ps < rq.start
    → rq.start < rq.end
    → scan rq ps k scanned [] ≡ scan rq [] (k + length ps) (scanned + total ps) []
unfolding scan
scan-before rq [] k scanned ended fits le early wide =
    ap (λ j. scan rq [] j scanned []) {y = k + 0} (omega arith)
    ∙ ap (λ j. scan rq [] (k + 0) j []) {y = scanned + 0} (omega arith)
scan-before rq (s ∷ ps) k scanned (e, ended) (fit, fits) le early wide =
    let short : (leb rq.start (k + 1) && ltb (k + 1) rq.end) ≡ false = ground (arith, early) in
    let more : leb (rq.end - 1) (k + 1) ≡ false = ground (arith, early, wide) in
    let open_start : ltb rq.start rq.end ≡ true = ground (arith, wide) in
    let passed =
      pass_lem rq s (if ends_line s then scan rq ps else after_end rq) k scanned [] fit
        (omega (arith, le)) in
    let next =
      scan-before rq ps (k + 1) (scanned + length s) ended fits (omega (arith, le))
        (omega (arith, early)) wide in
    let count : k + 1 + length ps ≡ k + suc (length ps) = omega arith in
    let size : scanned + length s + total ps ≡ scanned + (length s + total ps) = omega arith in
    let chosen : (if ends_line s then scan rq ps else after_end rq) ≡ scan rq ps = rw e refl in
    rw (passed, short, more, open_start, chosen, sym count, sym size) next

blank_end : without_end [] ≡ []
unfolding ends_line
blank_end = refl

blank-FitsLine : FitsLine []
unfolding ends_line valid_utf8
blank-FitsLine = (omega arith, refl)

-- A stream, within the limits, whose lines are all complete when it fails: a read of the line after them succeeds, with
-- an empty line that the file does not have, and the failure is lost.
pub read_line_range-loses_failure :
    (text path : Bytes) (e : Failure)
    → (is_empty text || ends_line text) ≡ true
    → length text ≤ max_line_scan_bytes
    → All FitsLine (pieces text)
    → page (
        read_line_range
          (record { bytes = text; ends = some e })
          path
          (length (file_lines text) + 1)
          (length (file_lines text) + 2))
      ≡ ok ([] ∷ [], false, length (file_lines text) + 2)
unfolding read_line_range scan
read_line_range-loses_failure text path e h le fits =
    let n = length (file_lines text) in
    let rq : Request = record { path = path; start = n + 1; end = n + 2; ends = some e } in
    let count : length (pieces text) ≡ n = sym (length-map (pieces text) without_end) in
    let before =
      scan-before rq (pieces text) 0 0 (pieces-Ended text h) fits
        (omega (arith, total-pieces text, le)) (omega (arith, count)) (omega arith) in
    let last =
      pass_lem rq [] (after_end rq) (0 + length (pieces text)) (0 + total (pieces text)) []
        blank-FitsLine (omega (arith, total-pieces text, le)) in
    let full : (ltb (n + 1) (n + 2) && leb (n + 2 - 1) (0 + length (pieces text) + 1)) ≡ true =
      ground (arith, count) in
    let shown : (leb (n + 1) (0 + length (pieces text) + 1)
          && ltb (0 + length (pieces text) + 1) (n + 2))
        ≡ true =
      ground (arith, count) in
    let two : n + 1 + 1 ≡ n + 2 = omega arith in rw (before, last, full, shown, blank_end, two) refl
