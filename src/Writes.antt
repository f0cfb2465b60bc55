-- ===== src/Writes.antt =====
-- One write against a file (vfs/mutate.go), with the paths of vfs/path.go and the revisions of vfs/session.go and vfs/route.go. The
-- backends behind a path, and what bodies other than text do, are parameters: a record of functions over a world of theirs.
pub mod Paths
pub mod Substrings
pub mod Apply
pub mod Revisions
pub mod Remembered
mod Tests
use tacklr.Base.{
  ℕ, zero, suc, ◌+◌, ◌≡◌, Bool, true, false, not, ◌&&◌, ◌||◌, ltb, ◌==◌, if◌then◌else◌, Option,
  none, some, List, [], ◌∷◌, ◌++◌, length, Bytes, codes, text_eq, is_empty, trim_space, Dict,
  lookup, insert,
}
use tacklr.Failure.{
  Failure, Sentinel, is, wrap, plain, Result, ok, err, not_exist, conflict, stale_content,
}
use tacklr.Documents.{Document, new_text_document, line_count, replace_lines, set_text}
use tacklr.Documents.Lines.{split_lines}
use tacklr.Documents.Windows.{max_read_file_bytes, ends_line, file_exceeds}
use tacklr.Documents.Blocks.{Unicode, Block, find_block, block_replace_span, structure_for}
use tacklr.Writes.Paths.{clean_path}
use tacklr.Writes.Substrings.{count_of, replace_first}

-- `Mutation`, without the format of a cell; a line number is a natural number: a negative one is refused as 0 is.
pub record Mutation : Type 0 where
  pub rev : Bytes
  pub content : Option Bytes
  pub old : Option Bytes
  pub new_text : Option Bytes
  pub replace_all : Bool
  pub start : Option ℕ
  pub end : Option ℕ
  pub lines : List Bytes
  pub body : Option Bytes
  pub block_id : Bytes
  pub include_heading : Bool
  pub blocks : Option (List Block)
  pub tab_id : Bytes
  pub media_type : Bytes

-- `ApplyResult`, without the outline of a rich body.
pub record ApplyResult : Type 0 where
  pub path : Bytes
  pub rev : Bytes
  pub line_count : ℕ
  pub replacements : ℕ

abbrev pub is_given {ℓ} : {A : Type ℓ} → Option A → ℕ
is_given none = 0
is_given (some x) = 1

-- `modeCount`
unfoldable pub mode_count : Mutation → ℕ
mode_count m =
    is_given m.content
    + is_given m.old
    + (if is_empty m.block_id then 0 else 1)
    + is_given m.start
    + is_given m.blocks

abbrev pub err_not_exist : Failure
err_not_exist = wrap (codes "vfs: not found") not_exist

abbrev pub err_stale : Failure
err_stale = wrap (codes "the file changed since last read") stale_content

abbrev pub err_conflict : Failure
err_conflict = wrap (codes "the file changed on the server since it was last read") conflict

abbrev pub err_not_textual : Failure
err_not_textual = plain (codes "vfs: not a textual document")

abbrev pub err_projected : Failure
err_projected = plain (codes "that write is not supported on this file type")

-- A textual document: a text, or a body of another kind (rich text or a grid).
pub data Doc (O : Type 0) : Type 0 where
  text : Document → Doc O
  other : O → Doc O

-- What a path's backend and the other bodies do. `open_document` gives `none` for a document with no text; `change` is what
-- a body that is not text makes of a mutation, and `rebase` gives it the persist hint of a fresh read.
pub record Files (W O : Type 0) : Type 0 where
  pub stat : Bytes → W → Result Bytes
  pub open_document : Bytes → W → Result (Option (Doc O))
  pub write_document : Doc O → W → Result (Unit {0}) × W
  pub content_hash : Bytes → Bytes
  pub unicode : Unicode
  pub path_of : O → Bytes
  pub token_of : O → Bytes
  pub line_count_of : O → ℕ
  pub media_type_of : O → Bytes
  pub is_rich : O → Bool
  pub change : Mutation → O → Result O
  pub rebase : O → Doc O → O
  pub is_projected : Bytes → Bool
  pub new_document : Bytes → Mutation → Result (Option (Doc O))

-- The part of a `MountSession` that a write uses, with the backends' world.
pub record Session (W : Type 0) : Type 0 where
  pub last_rev : Dict Bytes
  pub world : W

-- `rememberRev`
unfoldable pub remember_rev : {W : Type 0} → Bytes → Bytes → Session W → Session W
remember_rev path hash s = record s { last_rev = insert path hash s.last_rev }

-- Nothing is the empty text.
abbrev pub text_or_empty : Option Bytes → Bytes
text_or_empty none = []
text_or_empty (some s) = s

-- `storedRev`
unfoldable pub stored_rev : {W : Type 0} → Bytes → Session W → Bytes
stored_rev path s = text_or_empty (lookup path s.last_rev)

-- The revision that a write expects: its own, or that of the last read.
unfoldable pub expected_rev : {W : Type 0} → Bytes → Bytes → Session W → Bytes
expected_rev path rev s =
    let own = trim_space rev in if is_empty own then stored_rev path s else own

-- A call that may fail, on a session.
abbrev pub Step : Type 0 → Type 0 → Type 0
Step W T = Session W → Result T × Session W

abbrev pub fail : {W T : Type 0} → Failure → Step W T
fail e s = (err e, s)

-- What follows a call, on its value or on its failure.
abbrev pub follow :
    {W T V : Type 0}
    → Result T × Session W
    → (Failure → Step W V)
    → (T → Step W V)
    → Result V × Session W
follow (err e, s) failed next = failed e s
follow (ok v, s) failed next = next v s

abbrev pub then_do : {W T V : Type 0} → Result T × Session W → (T → Step W V) → Result V × Session W
then_do r next = follow r fail next

module _ {W O : Type 0} (fs : Files W O) where
  -- `ContentToken`
  unfoldable pub content_token : Doc O → Bytes
  content_token (text d) = fs.content_hash d.body.payload
  content_token (other o) = fs.token_of o

  abbrev pub doc_path : Doc O → Bytes
  doc_path (text d) = d.path
  doc_path (other o) = fs.path_of o

  abbrev pub doc_lines : Doc O → ℕ
  doc_lines (text d) = line_count d
  doc_lines (other o) = fs.line_count_of o

  abbrev pub doc_media_type : Doc O → Bytes
  doc_media_type (text d) = d.media_type
  doc_media_type (other o) = fs.media_type_of o

  abbrev pub opened : Result (Option (Doc O)) → Result (Doc O)
  opened (err e) = err e
  opened (ok none) = err err_not_textual
  opened (ok (some d)) = ok d

  -- `Route.ReadText`
  unfoldable pub read_text : Bytes → Step W (Doc O)
  read_text path s =
      then_do (opened (fs.open_document path s.world), s)
        (λ d s. (ok d, remember_rev (doc_path d) (content_token d) s))

  -- `loadMatching`
  unfoldable pub load_matching : Bytes → Bytes → Step W (Doc O)
  load_matching path expected s =
      then_do (opened (fs.open_document path s.world), s)
        (λ d s.
          if text_eq (content_token d) expected
          then (ok d, remember_rev (doc_path d) expected s)
          else fail err_stale s)

  -- `checkout`
  unfoldable pub checkout : Bytes → Bytes → Step W (Doc O)
  checkout path rev s =
      let expected = expected_rev path rev s in
      if is_empty expected then read_text path s else load_matching path expected s

  -- `MountSession.WriteDocument`
  unfoldable pub write_doc : Doc O → Step W (Unit {0})
  write_doc d s = let (r, w) = fs.write_document d s.world in (r, record s { world = w })

  -- `retryRichPersist`
  unfoldable pub retry_rich : Doc O → Step W (Doc O)
  retry_rich (text d) s = fail err_stale s
  retry_rich (other o) s =
      if fs.is_rich o
      then then_do (read_text (fs.path_of o) s) (λ fresh s.
        let o' = fs.rebase o fresh in then_do (write_doc (other o') s) (λ _ s. (ok (other o'), s)))
      else fail err_stale s

  -- The end of `stage`: the document's revision is remembered.
  unfoldable pub staged : Doc O → Step W ApplyResult
  staged d s =
      let token = content_token d in
      (
        ok (record { path = doc_path d; rev = token; line_count = doc_lines d; replacements = 0 }),
        remember_rev (doc_path d) token s,
      )

  -- `stage`
  unfoldable pub stage : Doc O → Step W ApplyResult
  stage d s =
      follow (write_doc d s)
        (λ e s. if is e conflict then then_do (retry_rich d s) staged else fail e s)
        (λ _ s. staged d s)
