-- ===== src/Documents/Windows/Pages/Streams.antt =====
-- The page that the loop over a stream reads (vfs/lines.go).
use tacklr.Base.{
  ℕ, ◌+◌, ◌-◌, ◌≤◌, ◌<◌, ◌≡◌, refl, sym, ◌∙◌, ap, inl, inr, Bool, Bool-cases, true, false, ltb, leb,
  if◌then◌else◌, none, List, [], ◌∷◌, ◌++◌, append_assoc, append-nil, map, All, length,
  length-append, length-drop, take, drop, Bytes, arith,
}
use tacklr.Failure.{ok, err}
use tacklr.Documents.{line_out_of_range}
use tacklr.Documents.Windows.{
  max_line_scan_bytes, LineWindow, ends_line, without_end, Request, at_eof, after_end, scan,
}
use tacklr.Documents.Windows.Pages.{
  page, page_of, total, FitsLine, ArePieces, taken, pass_lem, drop-snoc, drop_past, take_more,
  take_less, drop-append,
}

abbrev pub request : Bytes → ℕ → ℕ → Request
request path start end = record { path = path; start = start; end = end; ends = none }

-- Before the window is full, what was kept is what was read from the start on.
pub record Before (start end : ℕ) (done : List Bytes) (k : ℕ) (out : List Bytes) : Type 0 where
  pub count : k ≡ length done
  pub kept : out ≡ drop (start - 1) done
  pub room : k + 1 < end
  pub first : 1 ≤ start
  pub wide : start < end

taken-drop :
    (path : Bytes) (start end : ℕ) (done : List Bytes) (k : ℕ) (out : List Bytes) (s : Bytes)
    → Before start end done k out
    → taken (request path start end) s k out ≡ drop (start - 1) (done ++ without_end s ∷ [])
taken-drop path start end done k out s h =
    let size = length-append done (without_end s ∷ []) in
    elim (Bool-cases (leb start (k + 1))) [
      | inl from ↦
          let inside : ltb (k + 1) end ≡ true = ground (arith, h.room) in
          let le : start - 1 ≤ length done = ground (arith, from, h.count) in
          rw (from, inside, h.kept) (sym (drop-snoc (start - 1) done (without_end s) le))
      | inr before ↦
          let short : length done + 1 ≤ start - 1 = ground (arith, before, h.count) in
          rw
            (
              before,
              h.kept,
              drop_past (start - 1) done (omega (arith, short)),
              drop_past (start - 1) (done ++ without_end s ∷ []) (omega (arith, short, size)),
            )
            refl
    ]

page_if :
    (b : Bool) (w : LineWindow)
    → page (if b then err line_out_of_range else ok w)
      ≡ (if b then err line_out_of_range else ok (w.lines, w.eof, w.next_start))
page_if true w = refl
page_if false w = refl

page-at_eof :
    (path : Bytes) (start end : ℕ) (done : List Bytes) (k : ℕ) (out : List Bytes)
    → Before start end done k out
    → page (at_eof (request path start end) k out) ≡ page_of start end done
unfolding at_eof
page-at_eof path start end done k out h =
    let early : ltb (length done + 1) end ≡ true = ground (arith, h.room, h.count) in
    let whole : take (end - start) (drop (start - 1) done) ≡ drop (start - 1) done =
      take_less (end - start) _ (omega (arith, length-drop (start - 1) done, h.count, h.room)) in
    rw (h.count, h.kept, whole, early) (page_if (ltb (length done + 1) start) _)

if_true {ℓ} : {A : Type ℓ} (b : Bool) (x y : A) → b ≡ true → (if b then x else y) ≡ x
if_true b x y e = rw e refl

if_false {ℓ} : {A : Type ℓ} (b : Bool) (x y : A) → b ≡ false → (if b then x else y) ≡ y
if_false b x y e = rw e refl

-- The page of a window that is full.
page_of-full :
    (start end : ℕ) (done rest : List Bytes)
    → 1 ≤ start
    → start < end
    → length done + 1 ≡ end
    → page_of start end (done ++ rest)
      ≡ ok (drop (start - 1) done, false, start + length (drop (start - 1) done))
page_of-full start end done rest first wide full =
    let size = length-append done rest in
    let inside : ltb (length (done ++ rest) + 1) start ≡ false = ground (arith, size, full, wide) in
    let more : ltb (length (done ++ rest) + 1) end ≡ false = ground (arith, size, full) in
    let front : drop (start - 1) (done ++ rest) ≡ drop (start - 1) done ++ rest =
      drop-append (start - 1) done rest (omega (arith, full, wide)) in
    let shown : take (end - start) (drop (start - 1) done ++ rest) ≡ drop (start - 1) done =
      take_more (end - start) (drop (start - 1) done) rest
        (omega (arith, length-drop (start - 1) done, full, first, wide)) in
    rw (inside, more, front, shown) refl

after_taken :
    (path : Bytes) (start end : ℕ) (done : List Bytes) (k : ℕ) (out : List Bytes) (s : Bytes)
    → Before start end done k out
    → leb (end - 1) (k + 1) ≡ false
    → Before start end (done ++ without_end s ∷ []) (k + 1) (taken (request path start end) s k out)
after_taken path start end done k out s h open_end = record {
  count = omega (arith, length-append done (without_end s ∷ []), h.count);
  kept = taken-drop path start end done k out s h;
  room = ground (arith, open_end, h.room);
  first = h.first;
  wide = h.wide;
}

pub page-scan :
    (path : Bytes) (start end : ℕ) (ps done : List Bytes) (k scanned : ℕ) (out : List Bytes)
    → ArePieces ps
    → All FitsLine ps
    → scanned + total ps ≤ max_line_scan_bytes
    → Before start end done k out
    → page (scan (request path start end) ps k scanned out)
      ≡ page_of start end (done ++ map without_end ps)
unfolding scan
page-scan path start end [] done k scanned out pieced fits le h =
    page-at_eof path start end done k out h ∙ ap (page_of start end) (sym (append-nil done))
page-scan path start end (s ∷ ps) done k scanned out pieced (fit, fits) le h =
    let rq = request path start end in
    let done' = done ++ without_end s ∷ [] in
    let joined : done ++ map without_end (s ∷ ps) ≡ done' ++ map without_end ps =
      sym (append_assoc done (without_end s ∷ []) (map without_end ps)) in
    let wide : ltb start end ≡ true = ground (arith, h.wide) in
    let passed =
      pass_lem rq s (if ends_line s then scan rq ps else after_end rq) k scanned out fit
        (omega (arith, le)) in
    elim (Bool-cases (leb (end - 1) (k + 1))) [
      | inl full ↦
          let size : length done' + 1 ≡ end =
            ground (arith, full, h.room, h.count, length-append done (without_end s ∷ [])) in
          rw
            (
              passed,
              wide,
              full,
              joined,
              page_of-full start end done' (map without_end ps) h.first h.wide size,
              taken-drop path start end done k out s h,
            )
            refl
      | inr more ↦
          let next = after_taken path start end done k out s h more in
          elim pieced [
            | inl (e, pieced') ↦
                rw (joined, passed, wide, more, if_true (ends_line s) (scan rq ps) (after_end rq) e)
                  (page-scan path start end ps done' (k + 1) (scanned + length s) _ pieced' fits
                    (omega (arith, le)) next)
            | inr (e, last) ↦
                let passed_end =
                  pass_lem rq s (if ends_line s then scan rq [] else after_end rq) k scanned out fit
                    (omega (arith, le)) in
                rw
                  (
                    joined,
                    last,
                    passed_end,
                    wide,
                    more,
                    if_false (ends_line s) (scan rq []) (after_end rq) e,
                    append-nil done',
                  )
                  (page-at_eof path start end done' (k + 1) _ next)
          ]
    ]
