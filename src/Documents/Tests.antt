-- ===== src/Documents/Tests.antt =====
-- Small texts: one with two lines, one with three headings, and a stream that fails.
use tacklr.Base.{
  ◌≡◌, ◌≢◌, refl, false, some, none, [], ◌∷◌, ◌++◌, map, length, Bytes, codes, any, if◌then◌else◌,
  valid_utf8, trim_space, leb, arith, ◌+◌,
}
use tacklr.Failure.{ok, err, plain}
use tacklr.Documents.{
  Document, line_starts_of, line_out_of_range, invalid_line, outside, has_line_end, join_lines,
  splice_lines, splice_prefix, splice_suffix, starts_after, lines, set_text, replace_lines,
}
use tacklr.Documents.Lines.{lines_of}
use tacklr.Documents.Splices.{spliced, IsIndexed, replace_lines_lem}
use tacklr.Documents.Reading.{replace_lines-lines}
use tacklr.Documents.Windows.{pieces, ends_line, read_line_range, line_window_from_doc}
use tacklr.Documents.Windows.Pages.{page, page_of}
use tacklr.Documents.Windows.Pieces.{file_lines, last_line}
use tacklr.Documents.Windows.Same.{read_line_range-document}
use tacklr.Documents.Windows.Failing.{read_line_range-loses_failure}
use tacklr.Documents.Blocks.{
  Unicode, Block, heading_blocks, blocks_from_markdown, segment_of, slugify,
}
use tacklr.Documents.Blocks.Spans.{Laid, blocks_from_markdown-Laid}
use tacklr.Documents.Blocks.Ids.{head_at, heading_blocks-same_id}

abbrev two_lines : Bytes
two_lines = codes "one" ++ b'\n' ∷ codes "two"

abbrev a_text : Bytes → Document
a_text text = record {
  path = codes "/workspace/a.md";
  media_type = codes "text/markdown";
  encoding = codes "utf-8";
  body = record { payload = text; starts = line_starts_of text };
}

replace_lines_lem_example : replace_lines 2 3 (codes "2" ∷ []) (a_text two_lines) ≡ (
    if outside 2 3 (length (lines_of two_lines))
    then err line_out_of_range
    else if any has_line_end (codes "2" ∷ [])
    then err invalid_line
    else ok (
        set_text
          (join_lines (spliced 2 3 (codes "2" ∷ []) (lines_of two_lines)))
          (a_text two_lines)))
replace_lines_lem_example = replace_lines_lem 2 3 (codes "2" ∷ []) (a_text two_lines) refl

replaced :
    replace_lines 2 3 (codes "2" ∷ []) (a_text two_lines)
    ≡ ok (a_text (codes "one" ++ b'\n' ∷ codes "2"))
unfolding replace_lines splice_lines splice_prefix splice_suffix line_starts_of starts_after
    join_lines set_text
replaced = refl

replace_lines-lines_example :
    IsIndexed (a_text (codes "one" ++ b'\n' ∷ codes "2"))
    × (spliced 2 3 (codes "2" ∷ []) (lines_of two_lines) ≢ [] ∷ []
        → lines 1
            (length (spliced 2 3 (codes "2" ∷ []) (lines_of two_lines)) + 1)
            (a_text (codes "one" ++ b'\n' ∷ codes "2"))
          ≡ ok (spliced 2 3 (codes "2" ∷ []) (lines_of two_lines)))
replace_lines-lines_example =
    replace_lines-lines 2 3 (codes "2" ∷ []) (a_text two_lines)
      (a_text (codes "one" ++ b'\n' ∷ codes "2")) refl replaced

read_line_range-document_example :
    (page (read_line_range (record { bytes = two_lines; ends = none }) (codes "/f") 1 3)
      ≡ page_of 1 3 (file_lines two_lines))
    × (page (line_window_from_doc (λ s. s) (codes "/f") (a_text two_lines) 1 3)
        ≡ page_of 1 3 (file_lines two_lines ++ last_line (ends_line two_lines)))
unfolding pieces ends_line valid_utf8
read_line_range-document_example =
    read_line_range-document (λ s. s) (codes "/f") (a_text two_lines) 1 3 refl (omega arith)
      (omega arith) (omega arith) ((omega arith, refl), ((omega arith, refl), tt))

read_line_range-loses_failure_example :
    page (
      read_line_range
        (record { bytes = codes "one" ++ b'\n' ∷ []; ends = some (plain (codes "reset")) })
        (codes "/f")
        (length (file_lines (codes "one" ++ b'\n' ∷ [])) + 1)
        (length (file_lines (codes "one" ++ b'\n' ∷ [])) + 2))
    ≡ ok ([] ∷ [], false, length (file_lines (codes "one" ++ b'\n' ∷ [])) + 2)
unfolding pieces ends_line valid_utf8
read_line_range-loses_failure_example =
    read_line_range-loses_failure (codes "one" ++ b'\n' ∷ []) (codes "/f") (plain (codes "reset"))
      refl (omega arith) ((omega arith, refl), tt)

-- Every rune is a letter but the space and the dash.
abbrev letters : Unicode
letters = record { to_lower = λ s. s; is_word = λ r. any (λ c. leb b'0' c) r }

abbrev headings : Bytes
headings = codes "# A" ++ b'\n' ∷ codes "text" ++ b'\n' ∷ codes "# A" ++ b'\n' ∷ codes "# A-2"

blocks_from_markdown-Laid_example :
    Laid 1
      (length (line_starts_of headings) + 1)
      (blocks_from_markdown letters (a_text headings).body)
blocks_from_markdown-Laid_example = blocks_from_markdown-Laid letters (a_text headings).body

numbered : segment_of letters (codes "A-2") ≡ segment_of letters (codes "A") ++ codes "-2"
unfolding segment_of slugify trim_space valid_utf8
numbered = refl

heading_blocks-same_id_example :
    map
      (λ (b : Block). b.id)
      (heading_blocks letters 5 [] []
        (head_at 1 1 (codes "A") ∷ head_at 3 1 (codes "A") ∷ head_at 4 1 (codes "A-2") ∷ []))
    ≡ segment_of letters (codes "A")
      ∷ (segment_of letters (codes "A") ++ codes "-2")
      ∷ (segment_of letters (codes "A") ++ codes "-2")
      ∷ []
heading_blocks-same_id_example =
    heading_blocks-same_id letters 5 1 1 3 4 (codes "A") (codes "A-2") numbered
