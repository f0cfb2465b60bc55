-- ===== src/Writes/Revisions.antt =====
-- What a write does with revisions (vfs/mutate.go).
use tacklr.Base.{
  ℕ, ◌≡◌, refl, ◌⊎◌, inl, inr, Bool, Bool-cases, true, false, ◌||◌, ltb, ◌==◌, Option, none, some,
  List, Bytes, text_eq, is_empty, trim_space,
}
use tacklr.Failure.{Failure, is, Result, ok, err, not_exist}
use tacklr.Documents.Blocks.{Block, find_block, structure_for}
use tacklr.Documents.{Document, replace_lines}
use tacklr.Writes.{
  Mutation, mode_count, err_stale, err_not_exist, Doc, Files, Session, content_token, load_matching,
  expected_rev, checkout,
}
use tacklr.Writes.Apply.{
  err_nothing, err_many, err_range, err_old, edit, apply_substring, apply_block, apply_lines,
  last_mode, block_mode, old_mode, blocks_mode, dispatch, replacement_lines, replace_found, on_stat,
  on_path, apply,
}
use tacklr.Writes.Paths.{clean_path}

-- A step that fails and changes nothing.
abbrev pub Refused : {W T : Type 0} → Result T × Session W → Session W → Type 0
Refused r s = (e : Failure) × (r ≡ (err e, s))

module _ {W O : Type 0} (fs : Files W O) where
  -- The file's document has another revision than the one that the write expects.
  abbrev pub IsStale : Bytes → Mutation → Session W → Type 0
  IsStale path m s =
      (d : Doc O) × (fs.open_document path s.world ≡ ok (some d))
      × (is_empty (expected_rev path m.rev s) ≡ false)
      × (text_eq (content_token fs d) (expected_rev path m.rev s) ≡ false)

  checkout_stale :
      (path : Bytes) (m : Mutation) (s : Session W)
      → IsStale path m s
      → checkout fs path m.rev s ≡ (err err_stale, s)
  unfolding checkout load_matching
  checkout_stale path m s (d, found, given, differs) = rw (given, found, differs) refl

  edit_stale :
      (path : Bytes) (on_text : Document → Result Document) (m : Mutation) (s : Session W)
      → IsStale path m s
      → Refused (edit fs path on_text m s) s
  unfolding edit
  edit_stale path on_text m s h = (err_stale, rw (checkout_stale path m s h) refl)

  apply_lines_stale :
      (path : Bytes) (m : Mutation) (start : ℕ) (end : Option ℕ) (s : Session W)
      → IsStale path m s
      → Refused (apply_lines fs path m start end s) s
  unfolding apply_lines
  apply_lines_stale path m start none s h = (err_range, refl)
  apply_lines_stale path m start (some end) s h = elim (Bool-cases (ltb start 1 || ltb end start)) [
    | inl empty ↦ (err_range, rw empty refl)
    | inr range ↦
        let (e, failed) =
          edit_stale path (replace_lines start end (replacement_lines m.lines m.body)) m s h in
        (e, rw range failed)
  ]

  last_mode_stale :
      (path : Bytes) (m : Mutation) (o : Option ℕ) (s : Session W)
      → IsStale path m s
      → Refused (last_mode fs path m o s) s
  unfolding last_mode
  last_mode_stale path m none s h = (err_nothing, refl)
  last_mode_stale path m (some start) s h = apply_lines_stale path m start m.end s h

  block_mode_stale :
      (path : Bytes) (m : Mutation) (b : Bool) (s : Session W)
      → IsStale path m s
      → Refused (block_mode fs path m b s) s
  unfolding block_mode apply_block
  block_mode_stale path m true s h = last_mode_stale path m m.start s h
  block_mode_stale path m false s h =
      edit_stale path
        (λ d.
          replace_found m d (find_block (structure_for fs.unicode d.media_type d.body) m.block_id))
        m s h

  -- A replacement of a substring checks the revision only when the write names one.
  abbrev pub Checks : Mutation → Type 0
  Checks m = (m.old ≡ none) ⊎ (is_empty (trim_space m.rev) ≡ false)

  substring_stale :
      (path : Bytes) (m : Mutation) (old : Bytes) (s : Session W)
      → IsStale path m s
      → is_empty (trim_space m.rev) ≡ false
      → Refused (apply_substring fs path m old s) s
  unfolding apply_substring
  substring_stale path m old s h own = elim (Bool-cases (is_empty old)) [
    | inl e ↦ (err_old, rw e refl)
    | inr e ↦ (err_stale, rw (e, own, checkout_stale path m s h) refl)
  ]

  old_mode_stale :
      (path : Bytes) (m : Mutation) (old : Option Bytes) (s : Session W)
      → IsStale path m s
      → (old ≡ none) ⊎ (is_empty (trim_space m.rev) ≡ false)
      → Refused (old_mode fs path m old s) s
  unfolding old_mode
  old_mode_stale path m none s h c = block_mode_stale path m (is_empty m.block_id) s h
  old_mode_stale path m (some old) s h (inl none_given) = absurd (cc none_given)
  old_mode_stale path m (some old) s h (inr own) = substring_stale path m old s h own

  blocks_mode_stale :
      (path : Bytes) (media : Option Bytes) (m : Mutation) (blocks : Option (List Block))
      (s : Session W)
      → blocks ≡ none
      → IsStale path m s
      → Checks m
      → Refused (blocks_mode fs path media m blocks s) s
  unfolding blocks_mode
  blocks_mode_stale path media m (some blocks) s b h k = absurd (cc b)
  blocks_mode_stale path none m none s b h k = (err_not_exist, refl)
  blocks_mode_stale path (some mt) m none s b h k = old_mode_stale path m m.old s h k

  dispatch_stale :
      (path : Bytes) (media : Option Bytes) (m : Mutation) (content : Option Bytes) (s : Session W)
      → content ≡ none
      → m.blocks ≡ none
      → IsStale path m s
      → Checks m
      → Refused (dispatch fs path media m content s) s
  unfolding dispatch
  dispatch_stale path media m (some body) s c b h k = absurd (cc c)
  dispatch_stale path media m none s c b h k = blocks_mode_stale path media m m.blocks s b h k

  on_stat_stale :
      (path : Bytes) (m : Mutation) (stat : Result Bytes) (s : Session W)
      → m.content ≡ none
      → m.blocks ≡ none
      → IsStale path m s
      → Checks m
      → Refused (on_stat fs path m stat s) s
  unfolding on_stat
  on_stat_stale path m (ok mt) s c b h k = dispatch_stale path (some mt) m m.content s c b h k
  on_stat_stale path m (err e) s c b h k = elim (Bool-cases (is e not_exist)) [
    | inl gone ↦
        let (f, failed) = dispatch_stale path none m m.content s c b h k in (f, rw gone failed)
    | inr broken ↦ (e, rw broken refl)
  ]

  -- A change of lines, of a block, or, where the write names a revision, of a substring fails and changes nothing, neither the
  -- file nor the remembered revisions, when the file's document has another revision than the expected one: the write's own, or that of the last read.
  pub apply_stale :
      (virtual path : Bytes) (m : Mutation) (s : Session W)
      → clean_path virtual ≡ ok path
      → m.content ≡ none
      → m.blocks ≡ none
      → Checks m
      → IsStale path m s
      → Refused (apply fs virtual m s) s
  unfolding apply on_path
  apply_stale virtual path m s p c b k h = elim (Bool-cases (mode_count m == 0)) [
    | inl none_given ↦ (err_nothing, rw (p, none_given) refl)
    | inr some_given ↦ elim (Bool-cases (ltb 1 (mode_count m))) [
      | inl many ↦ (err_many, rw (p, some_given, many) refl)
      | inr one ↦
          let (e, failed) = on_stat_stale path m (fs.stat path s.world) s c b h k in
          (e, rw (p, some_given, one) failed)
    ]
  ]
