-- ===== src/Documents.antt =====
-- Text documents and their lines (vfs/document.go, with lineStartsOf of vfs/rich.go). A text is its bytes, and a line number is a
-- natural number: the code refuses a negative one as it refuses 0.
pub mod Lines
pub mod Splices
pub mod Reading
pub mod Windows
pub mod Blocks
mod Tests
use tacklr.Base.{
  ℕ, zero, suc, ◌+◌, ◌-◌, Bool, true, false, ◌||◌, ltb, ◌==◌, if◌then◌else◌, Option, none, some,
  List, [], ◌∷◌, ◌++◌, map, length, take, drop, get_elem?, any, Bytes, codes, is_empty,
}
use tacklr.Failure.{Failure, Result, ok, err, plain, ◌>>=◌}

abbrev pub line_out_of_range : Failure
line_out_of_range = plain (codes "vfs: line out of range")

abbrev pub invalid_line : Failure
invalid_line = plain (codes "vfs: line contains newline")

-- `textBody`
pub record TextBody : Type 0 where
  pub payload : Bytes
  pub starts : List ℕ

-- `IR` of a text body.
pub record Document : Type 0 where
  pub path : Bytes
  pub media_type : Bytes
  pub encoding : Bytes
  pub body : TextBody

-- Where lines start after the first, in a text that stands at an offset.
unfoldable pub starts_after : ℕ → Bytes → List ℕ
starts_after i [] = []
starts_after i (c ∷ s) =
    if c == b'\n' then (i + 1) ∷ starts_after (i + 1) s else starts_after (i + 1) s

-- `lineStartsOf`
unfoldable pub line_starts_of : Bytes → List ℕ
line_starts_of [] = []
line_starts_of (c ∷ s) = 0 ∷ starts_after 0 (c ∷ s)

-- `starts[i]`, which is read inside the index only.
abbrev pub start_at : List ℕ → ℕ → ℕ
start_at starts i = elim (get_elem? starts i) [ none ↦ 0 | some k ↦ k ]

-- `text[a:b]`
abbrev pub slice : ℕ → ℕ → Bytes → Bytes
slice a b text = take (b - a) (drop a text)

-- `lineAt`
unfoldable pub line_at : Bytes → List ℕ → ℕ → Bytes
line_at text starts i =
    let start = start_at starts i in
    if ltb (i + 1) (length starts)
    then slice start (start_at starts (i + 1) - 1) text
    else drop start text

-- `strings.Join` with line ends.
unfoldable pub join_lines : List Bytes → Bytes
join_lines [] = []
join_lines (l ∷ []) = l
join_lines (l ∷ m ∷ ls) = l ++ b'\n' ∷ join_lines (m ∷ ls)

unfoldable pub line_count : Document → ℕ
line_count d = length d.body.starts

-- `Line`
unfoldable pub line : ℕ → Document → Result Bytes
line n d =
    if ltb n 1 || ltb (length d.body.starts) n
    then err line_out_of_range
    else ok (line_at d.body.payload d.body.starts (n - 1))

-- The loop of `Lines`, which fills so many lines.
lines_from : ℕ → ℕ → TextBody → List Bytes
lines_from zero i b = []
lines_from (suc k) i b = line_at b.payload b.starts i ∷ lines_from k (i + 1) b

abbrev pub outside : ℕ → ℕ → ℕ → Bool
outside start end n = ltb start 1 || ltb end start || ltb (n + 1) end

-- `Lines`
unfoldable pub lines : ℕ → ℕ → Document → Result (List Bytes)
unfolding lines_from
lines start end d =
    if outside start end (length d.body.starts)
    then err line_out_of_range
    else if start == end
    then ok []
    else ok (lines_from (end - start) (start - 1) d.body)

-- `setText` of a text body.
unfoldable pub set_text : Bytes → Document → Document
set_text text d = record d { body = record { payload = text; starts = line_starts_of text } }

-- `NewTextDocument`
unfoldable pub new_text_document : Bytes → Bytes → Bytes → Bytes → Document
unfolding set_text
new_text_document path media_type encoding text = set_text text (record {
  path = path;
  media_type = if is_empty media_type then codes "text/plain" else media_type;
  encoding = if is_empty encoding then codes "utf-8" else encoding;
  body = record { payload = []; starts = [] };
})

-- `strings.Contains(line, "\n")`
abbrev pub has_line_end : Bytes → Bool
has_line_end l = any (λ c. c == b'\n') l

-- What `spliceLines` keeps before the replacement.
unfoldable pub splice_prefix : Bytes → List ℕ → ℕ → Bool → Bytes
splice_prefix text starts zero more = []
splice_prefix text starts (suc p) more =
    if suc p == length starts
    then text ++ (if more then b'\n' ∷ [] else [])
    else take (if more then start_at starts (suc p) else start_at starts (suc p) - 1) text

-- What it keeps after it.
unfoldable pub splice_suffix : Bytes → List ℕ → ℕ → List Bytes → Bytes
splice_suffix text starts end replacement =
    if ltb 0 (length starts - (end - 1))
    then (if ltb 0 (length replacement) then b'\n' ∷ [] else [])
      ++ drop (start_at starts (end - 1)) text
    else []

-- `spliceLines`
unfoldable pub splice_lines : Bytes → List ℕ → ℕ → ℕ → List Bytes → Result Bytes
splice_lines text starts start end replacement =
    let n = length starts in
    let more = ltb 0 (length replacement) || ltb 0 (n - (end - 1)) in
    if outside start end n
    then err line_out_of_range
    else if any has_line_end replacement
    then err invalid_line
    else if n == 0
    then ok (join_lines replacement)
    else ok (
        splice_prefix text starts (start - 1) more
        ++ (join_lines replacement ++ splice_suffix text starts end replacement))

-- `replaceLines`, which changes nothing when it fails.
unfoldable pub replace_lines : ℕ → ℕ → List Bytes → Document → Result Document
replace_lines start end replacement d =
    splice_lines d.body.payload d.body.starts start end replacement >>= λ text. ok (set_text text d)

-- `setLine`
unfoldable pub set_line : ℕ → Bytes → Document → Result Document
set_line n l d = replace_lines n (n + 1) (l ∷ []) d
