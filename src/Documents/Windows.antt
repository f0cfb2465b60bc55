-- ===== src/Documents/Windows.antt =====
-- Windows of a file's lines, from a document or from a stream (vfs/lines.go). What a route answers at a call is a record:
-- a stream is the bytes that it gives and what ends them, `none` the end of the file, and the hash of a text is
-- a parameter.
pub mod Pages
pub mod Pieces
pub mod Same
pub mod Failing
use tacklr.Base.{
  ℕ, zero, suc, ◌+◌, ◌-◌, ◌*◌, ◌^◌, Bool, true, false, not, ◌&&◌, ◌||◌, ltb, leb, ◌==◌,
  if◌then◌else◌, Option, none, some, List, [], ◌∷◌, ◌++◌, length, take, any, Bytes, codes, ℤ, pos,
  negsuc, valid_utf8,
}
use tacklr.Failure.{Failure, Result, ok, err, plain, ◌>>=◌}
use tacklr.Documents.{Document, line_out_of_range, line_count, lines}
use tacklr.Documents.Lines.{onto_first}

abbrev pub max_line_scan_bytes : ℕ
max_line_scan_bytes = 64 * 2 ^ 20

abbrev pub max_lines_per_window : ℕ
max_lines_per_window = 500

abbrev pub max_line_bytes : ℕ
max_line_bytes = 2 ^ 20

abbrev pub max_read_file_bytes : ℕ
max_read_file_bytes = 32 * 2 ^ 20

abbrev pub line_too_long : Failure
line_too_long = plain (codes "vfs: line too long")

abbrev pub invalid_utf8 : Failure
invalid_utf8 = plain (codes "vfs: invalid utf-8")

abbrev pub file_exceeds : Failure
file_exceeds = plain (codes "vfs: file too large")

abbrev not_readable : Failure
not_readable = plain (codes "vfs: file is not readable")

-- `ContentRev`
pub record ContentRev : Type 0 where
  pub path : Bytes
  pub hash : Bytes

abbrev pub no_rev : ContentRev
no_rev = record { path = []; hash = [] }

-- `LineWindow`
pub record LineWindow : Type 0 where
  pub path : Bytes
  pub start : ℕ
  pub end : ℕ
  pub lines : List Bytes
  pub returned : ℕ
  pub eof : Bool
  pub next_start : ℕ
  pub rev : ContentRev

-- The window of lines that were read from a start.
abbrev pub window : Bytes → ℕ → ℕ → List Bytes → Bool → ContentRev → LineWindow
window path start end out eof rev = record {
  path = path;
  start = start;
  end = end;
  lines = out;
  returned = length out;
  eof = eof;
  next_start = start + length out;
  rev = rev;
}

-- `lineWindowFromDoc`
unfoldable pub line_window_from_doc : (Bytes → Bytes) → Bytes → Document → ℕ → ℕ → Result LineWindow
line_window_from_doc hash path d start end =
    let n = line_count d in
    let eof = ltb (n + 1) end in
    let end' = if eof then n + 1 else end in
    if ltb (n + 1) start
    then err line_out_of_range
    else lines start end' d >>= λ out.
        if any (λ l. ltb max_line_bytes (length l)) out
        then err line_too_long
        else ok
            (window path start end' out eof (record { path = path; hash = hash d.body.payload }))

-- A stream, as `bufio.Reader` reads it.
pub record Stream : Type 0 where
  pub bytes : Bytes
  pub ends : Option Failure

-- What `ReadString('\n')` gives, call by call: each line with its end, and the rest when there is any.
unfoldable pub pieces : Bytes → List Bytes
pieces [] = []
pieces (c ∷ s) = if c == b'\n' then (c ∷ []) ∷ pieces s else onto_first c (pieces s)

unfoldable pub ends_line : Bytes → Bool
ends_line [] = false
ends_line (c ∷ []) = c == b'\n'
ends_line (c ∷ d ∷ s) = ends_line (d ∷ s)

-- A piece without its line end.
abbrev pub without_end : Bytes → Bytes
without_end s = if ends_line s then take (length s - 1) s else s

-- What a call of `readLineRange` asks, and what ends its stream.
pub record Request : Type 0 where
  pub path : Bytes
  pub start : ℕ
  pub end : ℕ
  pub ends : Option Failure

-- The end of the file: a start past it is refused.
unfoldable pub at_eof : Request → ℕ → List Bytes → Result LineWindow
at_eof rq line_no out =
    if ltb (line_no + 1) rq.start
    then err line_out_of_range
    else ok (window rq.path rq.start rq.end out true no_rev)

-- A pass of the loop over a piece, and what follows when it does not complete the window.
unfoldable pub pass :
    Request
    → Bytes
    → (ℕ → ℕ → List Bytes → Result LineWindow)
    → ℕ
    → ℕ
    → List Bytes
    → Result LineWindow
pass rq s next line_no scanned out =
    let l = without_end s in
    let no' = line_no + 1 in
    let out' = if leb rq.start no' && ltb no' rq.end then out ++ l ∷ [] else out in
    if ltb max_line_scan_bytes (scanned + length s)
    then err file_exceeds
    else if ltb max_line_bytes (length l)
    then err line_too_long
    else if not (valid_utf8 l)
    then err invalid_utf8
    else if ltb rq.start rq.end && leb (rq.end - 1) no'
    then ok (window rq.path rq.start rq.end out' false no_rev)
    else next no' (scanned + length s) out'

-- What follows a piece that the stream's end cut.
abbrev pub after_end : Request → ℕ → ℕ → List Bytes → Result LineWindow
after_end rq line_no scanned out = elim rq.ends [ none ↦ at_eof rq line_no out | some e ↦ err e ]

-- The loop of `readLineRange`.
unfoldable pub scan : Request → List Bytes → ℕ → ℕ → List Bytes → Result LineWindow
scan rq [] line_no scanned out = elim rq.ends [
  | none ↦ at_eof rq line_no out
  | some e ↦ pass rq [] (after_end rq) line_no scanned out
]
scan rq (s ∷ ps) line_no scanned out =
    pass rq s (if ends_line s then scan rq ps else after_end rq) line_no scanned out

-- `readLineRange`
unfoldable pub read_line_range : Stream → Bytes → ℕ → ℕ → Result LineWindow
read_line_range rd path start end =
    scan (record { path = path; start = start; end = end; ends = rd.ends }) (pieces rd.bytes) 0 0 []

-- What the route's methods answer; a file that is opened may not be readable.
pub record Route : Type 0 where
  pub failure : Option Failure
  pub virtual : Bytes
  pub is_dir : Bool
  pub stat_size : Result ℤ
  pub read_text : Result Document
  pub open_file : Result (Option Stream)

abbrev small_file : ℤ → Bool
small_file (pos n) = leb n max_read_file_bytes
small_file (negsuc n) = false

-- The document of a small text file.
small_document : Route → Option Document
small_document r = elim r.stat_size [
  | err e ↦ none
  | ok size ↦
      if not r.is_dir && small_file size
      then (elim r.read_text [ err e ↦ none | ok d ↦ some d ])
      else none
]

stream_window : Bytes → ℕ → ℕ → Option Stream → Result LineWindow
stream_window path start end f =
    if start == 1 && end == 1
    then ok (window path 1 1 [] false no_rev)
    else elim f [ none ↦ err not_readable | some rd ↦ read_line_range rd path start end ]

window_end : ℕ → ℕ → ℕ
window_end start end =
    if ltb max_lines_per_window (end - start) then start + max_lines_per_window else end

-- `Route.ReadLines`
unfoldable pub read_lines : (Bytes → Bytes) → Route → ℕ → ℕ → Result LineWindow
unfolding small_document stream_window window_end
read_lines hash r start end =
    let end' = window_end start end in
    if ltb start 1 || ltb end start then err line_out_of_range else elim r.failure [
      | some e ↦ err e
      | none ↦ elim (small_document r) [
        | some d ↦ line_window_from_doc hash r.virtual d start end'
        | none ↦ r.open_file >>= stream_window r.virtual start end'
      ]
    ]
