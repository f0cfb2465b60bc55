-- ===== src/Writes/Remembered.antt =====
-- The revision that a write leaves remembered, and what a write of a whole text checks (vfs/mutate.go).
use tacklr.Base.{
  ℕ, ◌≡◌, ◌≤◌, refl, subst, ◌∙◌, ap, Bool, true, false, not, ◌||◌, ltb, ◌==◌, if◌then◌else◌, Option,
  none, some, List, [], ◌∷◌, length, Bytes, codes, text_eq_refl, is_empty, trim_space,
  lookup-insert, arith,
}
use tacklr.Failure.{Failure, is, Result, ok, err, conflict, not_exist}
use tacklr.Documents.{Document, new_text_document, set_text}
use tacklr.Documents.Windows.{max_read_file_bytes}
use tacklr.Documents.Blocks.{Block}
use tacklr.Writes.{
  Mutation, ApplyResult, mode_count, Doc, text, other, Files, Session, remember_rev, stored_rev,
  Step, follow, then_do, content_token, doc_path, doc_lines, opened, load_matching, expected_rev,
  checkout, write_doc, retry_rich, staged, stage,
}
use tacklr.Writes.Apply.{
  changed, edit, create, apply_full, apply_blocks, substituted, replace_in, apply_substring,
  apply_block, apply_lines, last_mode, block_mode, old_mode, blocks_mode, dispatch, on_stat,
  on_path, apply,
}
use tacklr.Writes.Paths.{clean_path}

-- When a step gives a result, its revision is the one that is remembered for its path.
abbrev pub Remembers : {W : Type 0} → Result ApplyResult × Session W → Type 0
Remembers r = (out : ApplyResult) → r.0 ≡ ok out → stored_rev out.path r.1 ≡ out.rev

then_do-Remembers :
    {W T : Type 0} (r : Result T × Session W) (next : T → Step W ApplyResult)
    → ((v : T) (s : Session W) → Remembers (next v s))
    → Remembers (then_do r next)
then_do-Remembers (err e, s) next h = λ out done. absurd (cc done)
then_do-Remembers (ok v, s) next h = h v s

if-Remembers :
    {W : Type 0} (b : Bool) (r r' : Result ApplyResult × Session W)
    → Remembers r
    → Remembers r'
    → Remembers (if b then r else r')
if-Remembers true r r' h h' = h
if-Remembers false r r' h h' = h'

follow-Remembers :
    {W T : Type 0} (r : Result T × Session W) (failed : Failure → Step W ApplyResult)
    (next : T → Step W ApplyResult)
    → ((e : Failure) (s : Session W) → Remembers (failed e s))
    → ((v : T) (s : Session W) → Remembers (next v s))
    → Remembers (follow r failed next)
follow-Remembers (err e, s) failed next f h = f e s
follow-Remembers (ok v, s) failed next f h = h v s

refused : {W : Type 0} (e : Failure) (s : Session W) → Remembers (err e, s)
refused e s = λ out done. absurd (cc done)

stored_rev-remember_rev :
    {W : Type 0} (path rev : Bytes) (s : Session W)
    → stored_rev path (remember_rev path rev s) ≡ rev
unfolding stored_rev remember_rev
stored_rev-remember_rev path rev s =
    rw (lookup-insert path path rev s.last_rev, text_eq_refl path) refl

module _ {W O : Type 0} (fs : Files W O) where
  staged-Remembers : (d : Doc O) (s : Session W) → Remembers (staged fs d s)
  unfolding staged
  staged-Remembers d s = λ out done.
      let made : ApplyResult = record {
        path = doc_path fs d;
        rev = content_token fs d;
        line_count = doc_lines fs d;
        replacements = 0;
      } in
      let same : made ≡ out = cc done in
      subst (λ o. stored_rev o.path (remember_rev (doc_path fs d) (content_token fs d) s) ≡ o.rev)
        same (stored_rev-remember_rev (doc_path fs d) (content_token fs d) s)

  stage-Remembers : (d : Doc O) (s : Session W) → Remembers (stage fs d s)
  unfolding stage
  stage-Remembers d s =
      follow-Remembers (write_doc fs d s) _ _
        (λ e s.
          if-Remembers (is e conflict) _ _
            (then_do-Remembers (retry_rich fs d s) (staged fs) staged-Remembers) (refused e s))
        (λ _ s. staged-Remembers d s)

  edit-Remembers :
      (path : Bytes) (on_text : Document → Result Document) (m : Mutation) (s : Session W)
      → Remembers (edit fs path on_text m s)
  unfolding edit
  edit-Remembers path on_text m s =
      then_do-Remembers (checkout fs path m.rev s) _
        (λ d s. then_do-Remembers (changed fs on_text m d, s) (stage fs) stage-Remembers)

  create-Remembers : (path : Bytes) (m : Mutation) (s : Session W) → Remembers (create fs path m s)
  unfolding create
  create-Remembers path m s =
      then_do-Remembers (opened fs (fs.new_document path m), s) (stage fs) stage-Remembers

  apply_full-Remembers :
      (path : Bytes) (media : Option Bytes) (m : Mutation) (body : Bytes) (s : Session W)
      → Remembers (apply_full fs path media m body s)
  unfolding apply_full
  apply_full-Remembers path none m body s =
      if-Remembers (ltb max_read_file_bytes (length body)) _ _ (refused _ s)
        (create-Remembers path m s)
  apply_full-Remembers path (some mt) m body s =
      if-Remembers (ltb max_read_file_bytes (length body)) _ _ (refused _ s)
        (if-Remembers (fs.is_projected mt) _ _ (edit-Remembers path _ m s) (stage-Remembers _ s))

  apply_blocks-Remembers :
      (path : Bytes) (media : Option Bytes) (m : Mutation) (blocks : List Block) (s : Session W)
      → Remembers (apply_blocks fs path media m blocks s)
  unfolding apply_blocks
  apply_blocks-Remembers path none m blocks s = create-Remembers path m s
  apply_blocks-Remembers path (some mt) m [] s =
      if-Remembers (not (fs.is_projected mt)) _ _ (refused _ s) (refused _ s)
  apply_blocks-Remembers path (some mt) m (b ∷ bs) s =
      if-Remembers (not (fs.is_projected mt)) _ _ (refused _ s) (edit-Remembers path _ m s)

  counted-Remembers :
      (n : ℕ) (r : Result ApplyResult × Session W)
      → Remembers r
      → Remembers (then_do r (λ out s. (ok (record out { replacements = n }), s)))
  counted-Remembers n (err e, s) h = refused e s
  counted-Remembers n (ok v, s) h = λ out done.
      let same : record v { replacements = n } ≡ out = cc done in
      subst (λ o. stored_rev o.path s ≡ o.rev) same (h v refl)

  replace_in-Remembers :
      (old : Bytes) (m : Mutation) (d : Doc O) (s : Session W) → Remembers (replace_in fs old m d s)
  unfolding replace_in
  replace_in-Remembers old m (other o) s = refused _ s
  replace_in-Remembers old m (text d) s =
      if-Remembers (fs.is_projected d.media_type) _ _ (refused _ s) (
        then_do-Remembers (substituted m old d.body.payload, s) _
          (λ r s.
            counted-Remembers r.1 (stage fs (text (set_text r.0 d)) s)
              (stage-Remembers (text (set_text r.0 d)) s)))

  old_mode-Remembers :
      (path : Bytes) (m : Mutation) (old : Option Bytes) (s : Session W)
      → Remembers (old_mode fs path m old s)
  unfolding old_mode apply_substring apply_lines last_mode block_mode apply_block
  old_mode-Remembers path m (some old) s =
      if-Remembers (is_empty old) _ _ (refused _ s)
        (then_do-Remembers _ (replace_in fs old m) (replace_in-Remembers old m))
  old_mode-Remembers path m none s = block_mode-Remembers (is_empty m.block_id)
    where
      lines-Remembers : (start : ℕ) (end : Option ℕ) → Remembers (apply_lines fs path m start end s)
      lines-Remembers start none = refused _ s
      lines-Remembers start (some end) =
          if-Remembers (ltb start 1 || ltb end start) _ _ (refused _ s) (edit-Remembers path _ m s)

      last_mode-Remembers : (o : Option ℕ) → Remembers (last_mode fs path m o s)
      last_mode-Remembers none = refused _ s
      last_mode-Remembers (some start) = lines-Remembers start m.end

      block_mode-Remembers : (b : Bool) → Remembers (block_mode fs path m b s)
      block_mode-Remembers true = last_mode-Remembers m.start
      block_mode-Remembers false = edit-Remembers path _ m s

  dispatch-Remembers :
      (path : Bytes) (media : Option Bytes) (m : Mutation) (content : Option Bytes) (s : Session W)
      → Remembers (dispatch fs path media m content s)
  unfolding dispatch blocks_mode
  dispatch-Remembers path media m (some body) s = apply_full-Remembers path media m body s
  dispatch-Remembers path media m none s = by_blocks media m.blocks
    where
      by_blocks :
          (media : Option Bytes) (blocks : Option (List Block))
          → Remembers (blocks_mode fs path media m blocks s)
      by_blocks media (some blocks) = apply_blocks-Remembers path media m blocks s
      by_blocks none none = refused _ s
      by_blocks (some mt) none = old_mode-Remembers path m m.old s

  on_path-Remembers :
      (m : Mutation) (p : Result Bytes) (s : Session W) → Remembers (on_path fs m p s)
  unfolding on_path on_stat
  on_path-Remembers m (err e) s = refused e s
  on_path-Remembers m (ok path) s =
      if-Remembers (mode_count m == 0) _ _ (refused _ s)
        (if-Remembers (ltb 1 (mode_count m)) _ _ (refused _ s) (by_stat (fs.stat path s.world)))
    where
      by_stat : (r : Result Bytes) → Remembers (on_stat fs path m r s)
      by_stat (ok mt) = dispatch-Remembers path (some mt) m m.content s
      by_stat (err e) =
          if-Remembers (is e not_exist) _ _ (dispatch-Remembers path none m m.content s)
            (refused e s)

  checkout-stored :
      (path rev : Bytes) (s : Session W) (d : Doc O)
      → stored_rev path s ≡ rev
      → is_empty rev ≡ false
      → fs.open_document path s.world ≡ ok (some d)
      → content_token fs d ≡ rev
      → (checkout fs path [] s).0 ≡ ok d
  unfolding checkout expected_rev load_matching trim_space
  checkout-stored path rev s d stored given found same =
      rw (stored, given, found, same, text_eq_refl rev) refl

  -- A write that succeeds leaves its result's revision remembered for the result's path; while the file's document has that
  -- revision, which is not empty, the next write that names none checks the document out.
  pub apply-remembers :
      (virtual : Bytes) (m : Mutation) (s : Session W) (out : ApplyResult)
      → (apply fs virtual m s).0 ≡ ok out
      → (stored_rev out.path (apply fs virtual m s).1 ≡ out.rev)
        × ((d : Doc O)
            → is_empty out.rev ≡ false
            → fs.open_document out.path (apply fs virtual m s).1.world ≡ ok (some d)
            → content_token fs d ≡ out.rev
            → (checkout fs out.path [] (apply fs virtual m s).1).0 ≡ ok d)
  unfolding apply
  apply-remembers virtual m s out done =
      let stored = on_path-Remembers m (clean_path virtual) s out done in
      (
        stored,
        λ d given found same.
            checkout-stored out.path out.rev (apply fs virtual m s).1 d stored given found same,
      )

  full_text :
      (path mt body : Bytes) (m : Mutation) (s : Session W)
      → fs.is_projected mt ≡ false
      → length body ≤ max_read_file_bytes
      → dispatch fs path (some mt) m (some body) s
        ≡ stage fs (text (new_text_document path mt (codes "utf-8") body)) s
  unfolding dispatch apply_full
  full_text path mt body m s plain_type size =
      let fits : ltb max_read_file_bytes (length body) ≡ false = ground (arith, size) in
      rw (fits, plain_type) refl

  -- A write of the whole content over a text file, within the size limit, writes it whatever the file holds and whatever revision the
  -- write names or the last read left: only the result of the backend's write counts.
  pub apply-overwrites :
      (virtual path mt body : Bytes) (m : Mutation) (s : Session W)
      → clean_path virtual ≡ ok path
      → m.content ≡ some body
      → mode_count m ≡ 1
      → fs.stat path s.world ≡ ok mt
      → fs.is_projected mt ≡ false
      → length body ≤ max_read_file_bytes
      → apply fs virtual m s ≡ stage fs (text (new_text_document path mt (codes "utf-8") body)) s
  unfolding apply on_path on_stat
  apply-overwrites virtual path mt body m s p c one st plain_type size =
      rw (p, one, st)
        (ap (λ b. dispatch fs path (some mt) m b s) c ∙ full_text path mt body m s plain_type size)
