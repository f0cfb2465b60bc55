-- ===== src/Documents/Blocks.antt =====
-- The blocks of a Markdown text (vfs/structure.go), and how a block is found and replaced (vfs/document.go). What the tables
-- of Unicode say of a rune is a parameter.
pub mod Spans
pub mod Ids
use tacklr.Base.{
  ℕ, zero, suc, ◌+◌, ◌-◌, Bool, true, false, not, ◌&&◌, ◌||◌, ltb, leb, ◌==◌, if◌then◌else◌, Option,
  none, some, List, [], ◌∷◌, ◌++◌, length, take, drop, Bytes, codes, text_eq, is_empty, has_prefix,
  decimal, Dict, lookup, insert, trim_space, rune_size, valid_utf8,
}
use tacklr.Failure.{Result, ok, err}
use tacklr.Documents.{TextBody, line_at, line_out_of_range}

-- `strings.ToLower`, and `unicode.IsLetter` or `unicode.IsNumber` of a rune's bytes.
pub record Unicode : Type 0 where
  pub to_lower : Bytes → Bytes
  pub is_word : Bytes → Bool

pub data BlockKind : Type 0 where
  preamble heading : BlockKind

-- `Block`, with its `StyleMeta` and `Span`; a Markdown block has no runs.
pub record Block : Type 0 where
  pub id : Bytes
  pub kind : BlockKind
  pub text : Bytes
  pub level : ℕ
  pub start_line : ℕ
  pub end_line : ℕ
  pub attributes : Dict Bytes

abbrev heading_path : Bytes → Dict Bytes
heading_path id = (codes "heading_path", id) ∷ []

-- The bytes of the rune that a text begins with: an invalid byte stands alone.
abbrev rune_bytes : Bytes → ℕ
rune_bytes [] = 0
rune_bytes (c ∷ s) = if valid_utf8 (take (rune_size c) (c ∷ s)) then rune_size c else 1

-- The loop of `Slugify` over runes, as many as the text's bytes at most; the flag is `prevDash`.
slug_runes : Unicode → ℕ → Bytes → Bool → Bytes → Bytes
slug_runes u zero s dash out = out
slug_runes u (suc fuel) s dash out = elim (rune_bytes s) [
  | zero ↦ out
  | suc n ↦
      let r = take (suc n) s in
      let rest = drop (suc n) s in
      if valid_utf8 r && u.is_word r
      then slug_runes u fuel rest false (out ++ r)
      else if not dash && not (is_empty out)
      then slug_runes u fuel rest true (out ++ b'-' ∷ [])
      else slug_runes u fuel rest dash out
]

-- `strings.Trim(s, "-")`
drop_dashes : Bytes → Bytes
drop_dashes [] = []
drop_dashes (c ∷ s) = if c == b'-' then drop_dashes s else c ∷ s

trim_dashes_end : Bytes → Bytes
trim_dashes_end [] = []
trim_dashes_end (c ∷ s) =
    let rest = trim_dashes_end s in if is_empty rest && c == b'-' then [] else c ∷ rest

-- `Slugify`
unfoldable pub slugify : Unicode → Bytes → Bytes
unfolding slug_runes drop_dashes trim_dashes_end
slugify u s =
    let lowered = u.to_lower (trim_space s) in
    trim_dashes_end (drop_dashes (slug_runes u (length lowered) lowered false []))

-- The loops of `atxHeading`: at most so many spaces, and the hashes.
skip_spaces : ℕ → Bytes → Bytes
skip_spaces zero s = s
skip_spaces (suc n) [] = []
skip_spaces (suc n) (c ∷ s) = if c == b' ' then skip_spaces n s else c ∷ s

hashes : Bytes → ℕ
hashes [] = 0
hashes (c ∷ s) = if c == b'#' then suc (hashes s) else 0

-- The text before the hashes that it ends with.
before_hashes : Bytes → Bytes
before_hashes [] = []
before_hashes (c ∷ s) =
    let rest = before_hashes s in if is_empty rest && c == b'#' then [] else c ∷ rest

abbrev is_blank : ℕ → Bool
is_blank c = c == b' ' || c == 9

ends_blank : Bytes → Bool
ends_blank [] = false
ends_blank (c ∷ []) = is_blank c
ends_blank (c ∷ d ∷ s) = ends_blank (d ∷ s)

-- A closing run of hashes is no part of the title when a blank stands before it.
closed_title : Bytes → Bytes
closed_title title =
    let kept = before_hashes title in
    if ltb (length kept) (length title) && ends_blank kept then trim_space kept else title

starts_blank : Bytes → Bool
starts_blank [] = true
starts_blank (c ∷ s) = is_blank c

-- `atxHeading`: the level and the title.
unfoldable pub atx_heading : Bytes → Option (ℕ × Bytes)
unfolding skip_spaces hashes closed_title before_hashes ends_blank starts_blank
atx_heading line =
    let s = skip_spaces 3 line in
    let level = hashes s in
    let rest = drop level s in
    if ltb level 1 || ltb 6 level || not (starts_blank rest)
    then none
    else some (level, closed_title (trim_space rest))

-- `fenceOpen`
unfoldable pub fence_open : Bytes → Option Bytes
fence_open trim =
    if has_prefix trim (codes "```")
    then some (codes "```")
    else if has_prefix trim (codes "~~~")
    then some (codes "~~~")
    else none

-- `fenceClose`
unfoldable pub fence_close : Bytes → Bytes → Bool
fence_close trim mark = not (is_empty mark) && has_prefix trim mark

pub record Head : Type 0 where
  pub line : ℕ
  pub level : ℕ
  pub title : Bytes

-- What a line does outside a fence: it opens one, or it may be a heading.
outside_fence : Bytes → Option Bytes → Option Bytes × Option (ℕ × Bytes)
outside_fence line (some mark) = (some mark, none)
outside_fence line none = (none, atx_heading line)

-- A line, and the mark of the fence that is open: the mark after it, and the heading that it is.
unfoldable pub line_step : Bytes → Option Bytes → Option Bytes × Option (ℕ × Bytes)
unfolding outside_fence
line_step line (some mark) = (if fence_close (trim_space line) mark then none else some mark, none)
line_step line none = outside_fence line (fence_open (trim_space line))

unfoldable pub with_head : ℕ → Option (ℕ × Bytes) → List Head → List Head
with_head n none hs = hs
with_head n (some found) hs = record { line = n; level = found.0; title = found.1 } ∷ hs

-- The headings of so many lines from the `i`-th on.
unfoldable pub heads_from : ℕ → ℕ → TextBody → Option Bytes → List Head
heads_from zero i b fence = []
heads_from (suc k) i b fence =
    let (fence', found) = line_step (line_at b.payload b.starts i) fence in
    with_head (i + 1) found (heads_from k (i + 1) b fence')

-- The open headings, the innermost first: each one's level and id.
abbrev pub Stack : Type 0
Stack = List (ℕ × Bytes)

unfoldable pub pop_stack : ℕ → Stack → Stack
pop_stack level [] = []
pop_stack level ((l, path) ∷ stack) =
    if leb level l then pop_stack level stack else (l, path) ∷ stack

unfoldable pub id_under : Stack → Bytes → Bytes
id_under [] seg = seg
id_under ((l, path) ∷ stack) seg = path ++ b'/' ∷ seg

abbrev pub uses : Bytes → Dict ℕ → ℕ
uses id used = elim (lookup id used) [ none ↦ 0 | some n ↦ n ]

-- A heading's id: the `n`-th of one base id has its number, from 2 on.
unfoldable pub heading_id : Stack → Bytes → ℕ → Bytes
heading_id stack seg n =
    if ltb 1 n then id_under stack (seg ++ b'-' ∷ decimal n) else id_under stack seg

unfoldable pub segment_of : Unicode → Bytes → Bytes
segment_of u title = let seg = slugify u title in if is_empty seg then codes "section" else seg

-- Where the region of a heading of a level ends: at the next heading that is no deeper.
unfoldable pub end_of : ℕ → ℕ → List Head → ℕ
end_of level end_eof [] = end_eof
end_of level end_eof (h ∷ hs) = if leb h.level level then h.line else end_of level end_eof hs

unfoldable pub heading_blocks : Unicode → ℕ → Stack → Dict ℕ → List Head → List Block
heading_blocks u end_eof stack used [] = []
heading_blocks u end_eof stack used (h ∷ hs) =
    let outer = pop_stack h.level stack in
    let seg = segment_of u h.title in
    let base = id_under outer seg in
    let n = uses base used + 1 in
    let id = heading_id outer seg n in
    record {
      id = id;
      kind = heading;
      text = h.title;
      level = h.level;
      start_line = h.line;
      end_line = end_of h.level end_eof hs;
      attributes = heading_path id;
    }
    ∷ heading_blocks u end_eof ((h.level, id) ∷ outer) (insert base n used) hs

-- The first heading's line, or the end of the file.
abbrev pub preamble_end : ℕ → List Head → ℕ
preamble_end end_eof [] = end_eof
preamble_end end_eof (h ∷ hs) = h.line

abbrev pub preamble_blocks : ℕ → List Block
preamble_blocks pre_end =
    if ltb 1 pre_end
    then record {
      id = codes "preamble";
      kind = preamble;
      text = [];
      level = 0;
      start_line = 1;
      end_line = pre_end;
      attributes = heading_path (codes "preamble");
    }
      ∷ []
    else []

-- `blocksFromMarkdown`
unfoldable pub blocks_from_markdown : Unicode → TextBody → List Block
blocks_from_markdown u b =
    let n = length b.starts in
    let heads = heads_from n 0 b none in
    if n == 0
    then []
    else preamble_blocks (preamble_end (n + 1) heads) ++ heading_blocks u (n + 1) [] [] heads

-- `structureFor`
unfoldable pub structure_for : Unicode → Bytes → TextBody → List Block
structure_for u media_type b =
    if text_eq media_type (codes "text/markdown") then blocks_from_markdown u b else []

block_matches : Bytes → Block → Bool
block_matches key b = text_eq b.id key || (elim (lookup (codes "heading_path") b.attributes) [
  | none ↦ false
  | some path ↦ text_eq path key
])

first_block : Bytes → List Block → Option Block
unfolding block_matches
first_block key [] = none
first_block key (b ∷ bs) = if block_matches key b then some b else first_block key bs

-- `FindBlock`
unfoldable pub find_block : List Block → Bytes → Option Block
unfolding first_block
find_block blocks id_or_path =
    let key = trim_space id_or_path in if is_empty key then none else first_block key blocks

abbrev is_heading : BlockKind → Bool
is_heading heading = true
is_heading preamble = false

-- `BlockReplaceSpan`
unfoldable pub block_replace_span : Block → Bool → Result (ℕ × ℕ)
block_replace_span b include_heading =
    if ltb b.start_line 1 || ltb b.end_line b.start_line
    then err line_out_of_range
    else ok (
      if is_heading b.kind && not include_heading then b.start_line + 1 else b.start_line,
      b.end_line,
    )
