-- ===== src/Writes/Apply.antt =====
-- `Apply` and its modes (vfs/mutate.go).
use tacklr.Base.{
  ℕ, Bool, true, false, not, ◌&&◌, ◌||◌, ltb, ◌==◌, if◌then◌else◌, Option, none, some, List, [],
  ◌∷◌, length, Bytes, codes, text_eq, is_empty, trim_space, lookup,
}
use tacklr.Failure.{Failure, is, plain, Result, ok, err, ◌>>=◌, not_exist}
use tacklr.Documents.{Document, new_text_document, replace_lines, set_text}
use tacklr.Documents.Lines.{split_lines}
use tacklr.Documents.Windows.{max_read_file_bytes, ends_line, file_exceeds}
use tacklr.Documents.Blocks.{Block, find_block, block_replace_span, structure_for}
use tacklr.Writes.{
  Mutation, ApplyResult, text_or_empty, mode_count, err_not_exist, err_projected, Doc, text, other,
  Files, Step, fail, then_do, opened, read_text, checkout, stage,
}
use tacklr.Writes.Paths.{clean_path}
use tacklr.Writes.Substrings.{count_of, replace_first}

abbrev err_unknown_block : Failure
err_unknown_block =
    plain (codes "vfs: unknown block_id; read with outline=true and use an id from that outline")

abbrev err_empty_replace : Failure
err_empty_replace = plain (
    codes
      "that HTML had no headings, paragraphs, lists, or tables; put the text in <p> or <h1> tags")

abbrev pub err_nothing : Failure
err_nothing = plain (codes "write: nothing to change")

abbrev pub err_many : Failure
err_many = plain (codes "write: pass only one change: content, line range, or block_id")

abbrev pub err_range : Failure
err_range =
    plain (codes "invalid range; use 1-based half-open start/end, or omit them and pass content")

abbrev pub err_old : Failure
err_old = plain (codes "old is required; pass the exact unique substring to replace")

abbrev err_old_missing : Failure
err_old_missing =
    plain (codes "old text was not found; read the file and copy the exact substring into old")

abbrev err_old_many : Failure
err_old_many =
    plain (codes "old text occurs more than once; pass replace_all=true or a unique substring")

abbrev err_tab : Failure
err_tab = plain (codes "vfs: tab_id does not match block")

-- `replacementLines`, with the last, empty, piece of a body that ends in a line end cut off.
without_last : List Bytes → List Bytes
without_last [] = []
without_last (l ∷ []) = []
without_last (l ∷ m ∷ ls) = l ∷ without_last (m ∷ ls)

body_lines : Bytes → List Bytes
unfolding without_last
body_lines s = if ends_line s then without_last (split_lines s) else split_lines s

unfoldable pub replacement_lines : List Bytes → Option Bytes → List Bytes
unfolding body_lines
replacement_lines (l ∷ ls) body = l ∷ ls
replacement_lines [] none = []
replacement_lines [] (some s) = if is_empty s then [] else body_lines s

-- The new text of `applySubstring`, and how many occurrences it found.
unfoldable pub substituted : Mutation → Bytes → Bytes → Result (Bytes × ℕ)
substituted m old body =
    let n = count_of body old in
    if n == 0
    then err err_old_missing
    else if not m.replace_all && not (n == 1)
    then err err_old_many
    else ok (replace_first (if m.replace_all then n else 1) old (text_or_empty m.new_text) body, n)

tab_mismatch : Bytes → Block → Bool
tab_mismatch tab b = not (is_empty tab) && (elim (lookup (codes "tab_id") b.attributes) [
  | none ↦ false
  | some got ↦ not (is_empty got) && not (text_eq got tab)
])

-- The lines of a found block, replaced.
unfoldable pub replace_found : Mutation → Document → Option Block → Result Document
unfolding tab_mismatch
replace_found m d none = err err_unknown_block
replace_found m d (some b) =
    if tab_mismatch m.tab_id b
    then err err_tab
    else block_replace_span b m.include_heading >>= λ span.
        replace_lines span.0 span.1 (replacement_lines m.lines m.body) d

module _ {W O : Type 0} (fs : Files W O) where
  -- What becomes of a text; of another body, what `change` says.
  abbrev pub changed : (Document → Result Document) → Mutation → Doc O → Result (Doc O)
  changed on_text m (text d) = on_text d >>= λ d'. ok (text d')
  changed on_text m (other o) = fs.change m o >>= λ o'. ok (other o')

  -- A checkout, its change, and the write.
  unfoldable pub edit : Bytes → (Document → Result Document) → Mutation → Step W ApplyResult
  edit path on_text m s =
      then_do (checkout fs path m.rev s) (λ d s. then_do (changed on_text m d, s) (stage fs))

  -- A document that did not exist: `createMediaType` and `create` are `new_document`.
  unfoldable pub create : Bytes → Mutation → Step W ApplyResult
  create path m s = then_do (opened fs (fs.new_document path m), s) (stage fs)

  -- `applyFull`, with `applyProjectedFull`; `none` for a file that does not exist.
  unfoldable pub apply_full : Bytes → Option Bytes → Mutation → Bytes → Step W ApplyResult
  apply_full path media m body s =
      if ltb max_read_file_bytes (length body) then fail file_exceeds s else elim media [
        | none ↦ create path m s
        | some mt ↦
            if fs.is_projected mt
            then edit path (λ d. err err_projected) m s
            else stage fs (text (new_text_document path mt (codes "utf-8") body)) s
      ]

  -- `applyBlocks`
  unfoldable pub apply_blocks : Bytes → Option Bytes → Mutation → List Block → Step W ApplyResult
  apply_blocks path none m blocks s = create path m s
  apply_blocks path (some mt) m blocks s =
      if not (fs.is_projected mt) then fail err_projected s else elim blocks [
        | [] ↦ fail err_empty_replace s
        | b ∷ bs ↦ edit path (λ d. err err_projected) m s
      ]

  -- `applySubstring` on a document. A body that is not text has a projected type.
  unfoldable pub replace_in : Bytes → Mutation → Doc O → Step W ApplyResult
  replace_in old m (other o) s = fail err_projected s
  replace_in old m (text d) s =
      if fs.is_projected d.media_type
      then fail err_projected s
      else then_do (substituted m old d.body.payload, s)
          (λ r s.
            then_do (stage fs (text (set_text r.0 d)) s)
              (λ out s. (ok (record out { replacements = r.1 }), s)))

  -- `applySubstring`
  unfoldable pub apply_substring : Bytes → Mutation → Bytes → Step W ApplyResult
  apply_substring path m old s =
      if is_empty old
      then fail err_old s
      else then_do
          (if is_empty (trim_space m.rev) then read_text fs path s else checkout fs path m.rev s)
          (replace_in old m)

  -- `applyBlock`, with `applyTabularBlock` in `change`.
  unfoldable pub apply_block : Bytes → Mutation → Step W ApplyResult
  unfolding replace_found
  apply_block path m s =
      edit path
        (λ d.
          replace_found m d (find_block (structure_for fs.unicode d.media_type d.body) m.block_id))
        m s

  -- `applyLines`, once its range is known not to be empty of an end.
  unfoldable pub apply_lines : Bytes → Mutation → ℕ → Option ℕ → Step W ApplyResult
  apply_lines path m start none s = fail err_range s
  apply_lines path m start (some end) s =
      if ltb start 1 || ltb end start
      then fail err_range s
      else edit path (replace_lines start end (replacement_lines m.lines m.body)) m s

  -- The modes in the order of `Apply`: of a line range, which is the last,
  unfoldable pub last_mode : Bytes → Mutation → Option ℕ → Step W ApplyResult
  last_mode path m none s = fail err_nothing s
  last_mode path m (some start) s = apply_lines path m start m.end s

  -- of a block,
  unfoldable pub block_mode : Bytes → Mutation → Bool → Step W ApplyResult
  block_mode path m true s = last_mode path m m.start s
  block_mode path m false s = apply_block path m s

  -- of a substring,
  unfoldable pub old_mode : Bytes → Mutation → Option Bytes → Step W ApplyResult
  old_mode path m none s = block_mode path m (is_empty m.block_id) s
  old_mode path m (some old) s = apply_substring path m old s

  -- of blocks, on a file's media type or on no file,
  unfoldable pub blocks_mode :
      Bytes → Option Bytes → Mutation → Option (List Block) → Step W ApplyResult
  blocks_mode path media m (some blocks) s = apply_blocks path media m blocks s
  blocks_mode path none m none s = fail err_not_exist s
  blocks_mode path (some mt) m none s = old_mode path m m.old s

  -- of the whole content.
  unfoldable pub dispatch : Bytes → Option Bytes → Mutation → Option Bytes → Step W ApplyResult
  dispatch path media m (some body) s = apply_full path media m body s
  dispatch path media m none s = blocks_mode path media m m.blocks s

  -- What `Stat` says: a failure other than that there is no file ends the write.
  unfoldable pub on_stat : Bytes → Mutation → Result Bytes → Step W ApplyResult
  on_stat path m (ok mt) s = dispatch path (some mt) m m.content s
  on_stat path m (err e) s = if is e not_exist then dispatch path none m m.content s else fail e s

  -- `Apply`, once its path is cleaned.
  unfoldable pub on_path : Mutation → Result Bytes → Step W ApplyResult
  on_path m (err e) s = fail e s
  on_path m (ok path) s =
      if mode_count m == 0
      then fail err_nothing s
      else if ltb 1 (mode_count m)
      then fail err_many s
      else on_stat path m (fs.stat path s.world) s

  -- `Apply`
  unfoldable pub apply : Bytes → Mutation → Step W ApplyResult
  apply virtual m s = on_path m (clean_path virtual) s
