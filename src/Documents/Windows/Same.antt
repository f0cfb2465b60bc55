-- ===== src/Documents/Windows/Same.antt =====
-- The windows of a file, read as a stream and as a document (vfs/lines.go).
use tacklr.Base.{
  ℕ, zero, suc, ◌+◌, ◌-◌, ◌≤◌, ◌<◌, ◌≡◌, refl, sym, ◌∙◌, ap, Bool, Bool-cases, inl, inr, true,
  false, ◌||◌, ltb, none, List, [], ◌∷◌, ◌++◌, map, All, any, any-append, length, length-drop, drop,
  Bytes, arith,
}
use tacklr.Documents.{Document, line_count, outside}
use tacklr.Documents.Lines.{lines_of}
use tacklr.Documents.Splices.{IsIndexed}
use tacklr.Documents.Reading.{lines_lem, starts-count, any-take, any-drop}
use tacklr.Documents.Windows.{
  max_line_scan_bytes, max_line_bytes, pieces, ends_line, without_end, line_window_from_doc,
  read_line_range,
}
use tacklr.Documents.Windows.Pages.{page, page_of, FitsLine, take_less}
use tacklr.Documents.Windows.Pages.Streams.{page-scan}
use tacklr.Documents.Windows.Pieces.{
  file_lines, last_line, pieces-ArePieces, total-pieces, lines_of-pieces,
}

abbrev long_line : Bytes → Bool
long_line l = ltb max_line_bytes (length l)

none_long : (ps : List Bytes) → All FitsLine ps → any long_line (map without_end ps) ≡ false
none_long [] h = refl
none_long (s ∷ ps) ((small, valid), h) = ground (arith, small, none_long ps h)

lines_of-none_long :
    (text : Bytes) → All FitsLine (pieces text) → any long_line (lines_of text) ≡ false
lines_of-none_long text h =
    rw
      (
        lines_of-pieces text,
        any-append long_line (file_lines text) (last_line (ends_line text)),
        none_long (pieces text) h,
      )
      (last_short (ends_line text))
  where
    last_short : (b : Bool) → (false || any long_line (last_line b)) ≡ false
    last_short true = refl
    last_short false = refl

abbrev no_lines : List Bytes
no_lines = []

drop_nil : (n : ℕ) → drop n no_lines ≡ []
drop_nil zero = refl
drop_nil (suc n) = refl

page-read_line_range :
    (text path : Bytes) (start end : ℕ)
    → 1 ≤ start
    → start < end
    → length text ≤ max_line_scan_bytes
    → All FitsLine (pieces text)
    → page (read_line_range (record { bytes = text; ends = none }) path start end)
      ≡ page_of start end (file_lines text)
unfolding read_line_range
page-read_line_range text path start end first wide le fits =
    page-scan path start end (pieces text) [] 0 0 [] (pieces-ArePieces text) fits
      (omega (arith, total-pieces text, le))
      (record {
        count = refl;
        kept = sym (drop_nil (start - 1));
        room = omega (arith, first, wide);
        first = first;
        wide = wide;
      })

page-line_window_from_doc :
    (hash : Bytes → Bytes) (path : Bytes) (d : Document) (start end : ℕ)
    → IsIndexed d
    → 1 ≤ start
    → start < end
    → any long_line (lines_of d.body.payload) ≡ false
    → page (line_window_from_doc hash path d start end)
      ≡ page_of start end (lines_of d.body.payload)
unfolding line_window_from_doc line_count
page-line_window_from_doc hash path d start end h first wide short =
    let ls = lines_of d.body.payload in
    let from_start = drop (start - 1) ls in
    let count = starts-count d h in
    elim (Bool-cases (ltb (length ls + 1) start)) [
      | inl past ↦ rw (count, past) refl
      | inr inside ↦ elim (Bool-cases (ltb (length ls + 1) end)) [
        | inl eof ↦
            let in_range : outside start (length ls + 1) (length ls) ≡ false =
              ground (arith, first, inside) in
            let got = lines_lem start (length ls + 1) d h in
            let size = length-drop (start - 1) ls in
            let to_end =
              take_less (length ls + 1 - start) from_start (omega (arith, size, first)) in
            let all = take_less (end - start) from_start (ground (arith, size, first, eof)) in
            rw
              (
                count,
                inside,
                eof,
                got,
                in_range,
                to_end,
                any-drop long_line (start - 1) ls short,
                all,
              )
              refl
        | inr before ↦
            let in_range : outside start end (length ls) ≡ false =
              ground (arith, first, wide, before) in
            let got = lines_lem start end d h in
            rw
              (
                count,
                inside,
                before,
                got,
                in_range,
                any-take long_line (end - start) from_start
                    (any-drop long_line (start - 1) ls short),
              )
              refl
      ]
    ]

-- A window of a file within the limits, whose range is not empty, is the same read as a stream and as a document, when the
-- text does not end in a line end; when it does, the document has one more line, which is empty.
pub read_line_range-document :
    (hash : Bytes → Bytes) (path : Bytes) (d : Document) (start end : ℕ)
    → IsIndexed d
    → 1 ≤ start
    → start < end
    → length d.body.payload ≤ max_line_scan_bytes
    → All FitsLine (pieces d.body.payload)
    → (page (read_line_range (record { bytes = d.body.payload; ends = none }) path start end)
        ≡ page_of start end (file_lines d.body.payload))
      × (page (line_window_from_doc hash path d start end)
          ≡ page_of start end (file_lines d.body.payload ++ last_line (ends_line d.body.payload)))
read_line_range-document hash path d start end h first wide le fits = (
  page-read_line_range d.body.payload path start end first wide le fits,
  page-line_window_from_doc hash path d start end h first wide
        (lines_of-none_long d.body.payload fits)
      ∙ ap (page_of start end) (lines_of-pieces d.body.payload),
)
