-- ===== src/Documents/Windows/Pages.antt =====
-- The lines that a window of a stream shows (vfs/lines.go).
pub mod Streams
use tacklr.Base.{
  ℕ, zero, suc, ◌+◌, ◌-◌, ◌≤◌, ◌<◌, ◌≡◌, refl, sym, ◌∙◌, ap, ◌⊎◌, inl, inr, Bool, Bool-cases,
  ==_iff, true, false, not, ◌&&◌, ltb, leb, ltb→lt, lt→ltb, ltb-false→le, ◌==◌, if◌then◌else◌,
  Option, none, some, List, [], ◌∷◌, ◌++◌, append_assoc, map, All, length, length-append,
  length-map, take, drop, Bytes, valid_utf8, arith,
}
use tacklr.Failure.{Result, ok, err}
use tacklr.Documents.{line_out_of_range}
use tacklr.Documents.Windows.{
  max_line_scan_bytes, max_line_bytes, LineWindow, Stream, pieces, ends_line, without_end, Request,
  at_eof, pass, after_end, scan, read_line_range,
}

-- What a caller sees of a window: its lines, whether the file ended, and where the next window starts.
abbrev pub page : Result LineWindow → Result (List Bytes × Bool × ℕ)
page (err e) = err e
page (ok w) = ok (w.lines, w.eof, w.next_start)

-- The page of a list of lines.
abbrev pub page_of : ℕ → ℕ → List Bytes → Result (List Bytes × Bool × ℕ)
page_of start end ls =
    let out = take (end - start) (drop (start - 1) ls) in
    if ltb (length ls + 1) start
    then err line_out_of_range
    else ok (out, ltb (length ls + 1) end, start + length out)

abbrev pub total : List Bytes → ℕ
total [] = 0
total (s ∷ ps) = length s + total ps

-- A piece within the limits of a line.
abbrev pub FitsLine : Bytes → Type 0
FitsLine s = (length (without_end s) ≤ max_line_bytes) × (valid_utf8 (without_end s) ≡ true)

-- Pieces of which only the last may have no line end.
abbrev pub ArePieces : List Bytes → Type 0
ArePieces [] = Unit {0}
ArePieces (s ∷ ps) = ((ends_line s ≡ true) × ArePieces ps) ⊎ ((ends_line s ≡ false) × (ps ≡ []))

-- What a pass does within the limits.
abbrev pub taken : Request → Bytes → ℕ → List Bytes → List Bytes
taken rq s k out =
    if leb rq.start (k + 1) && ltb (k + 1) rq.end then out ++ without_end s ∷ [] else out

pub pass_lem :
    (rq : Request) (s : Bytes) (next : ℕ → ℕ → List Bytes → Result LineWindow) (k scanned : ℕ)
    (out : List Bytes)
    → FitsLine s
    → scanned + length s ≤ max_line_scan_bytes
    → pass rq s next k scanned out ≡ (
        if ltb rq.start rq.end && leb (rq.end - 1) (k + 1)
        then ok (record {
          path = rq.path;
          start = rq.start;
          end = rq.end;
          lines = taken rq s k out;
          returned = length (taken rq s k out);
          eof = false;
          next_start = rq.start + length (taken rq s k out);
          rev = record { path = []; hash = [] };
        })
        else next (k + 1) (scanned + length s) (taken rq s k out))
unfolding pass
pass_lem rq s next k scanned out (small, valid) le =
    let fits : ltb max_line_scan_bytes (scanned + length s) ≡ false = ground (arith, le) in
    let short : ltb max_line_bytes (length (without_end s)) ≡ false = ground (arith, small) in
    rw (fits, short, valid) refl

-- Lines with more before the start, or after the end.
pub drop-snoc :
    (n : ℕ) (xs : List Bytes) (l : Bytes)
    → n ≤ length xs
    → drop n (xs ++ l ∷ []) ≡ drop n xs ++ l ∷ []
drop-snoc zero xs l le = refl
drop-snoc (suc n) [] l le = absurd (omega (arith, le))
drop-snoc (suc n) (x ∷ xs) l le = drop-snoc n xs l (omega (arith, le))

pub drop_past : (n : ℕ) (xs : List Bytes) → length xs ≤ n → drop n xs ≡ []
drop_past zero [] le = refl
drop_past zero (x ∷ xs) le = absurd (omega (arith, le))
drop_past (suc n) [] le = refl
drop_past (suc n) (x ∷ xs) le = drop_past n xs (omega (arith, le))

pub take_more : (n : ℕ) (xs ys : List Bytes) → length xs ≡ n → take n (xs ++ ys) ≡ xs
take_more zero [] ys e = refl
take_more zero (x ∷ xs) ys e = absurd (omega (arith, e))
take_more (suc n) [] ys e = absurd (omega (arith, e))
take_more (suc n) (x ∷ xs) ys e = ap (◌∷◌ x) (take_more n xs ys (omega (arith, e)))

pub take_less : (n : ℕ) (xs : List Bytes) → length xs ≤ n → take n xs ≡ xs
take_less zero [] le = refl
take_less zero (x ∷ xs) le = absurd (omega (arith, le))
take_less (suc n) [] le = refl
take_less (suc n) (x ∷ xs) le = ap (◌∷◌ x) (take_less n xs (omega (arith, le)))

pub drop-append : (n : ℕ) (xs ys : List Bytes) → n ≤ length xs → drop n (xs ++ ys) ≡ drop n xs ++ ys
drop-append zero xs ys le = refl
drop-append (suc n) [] ys le = absurd (omega (arith, le))
drop-append (suc n) (x ∷ xs) ys le = drop-append n xs ys (omega (arith, le))
