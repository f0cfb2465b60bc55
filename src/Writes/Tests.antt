-- ===== src/Writes/Tests.antt =====
-- Writes against a world of one file.
use tacklr.Base.{
  ◌≡◌, refl, true, false, some, none, inl, [], ◌∷◌, length, Bytes, codes, trim_space, lookup,
  text_eq, is_empty,
}
use tacklr.Failure.{ok}
use tacklr.Documents.{line_starts_of, starts_after, new_text_document, set_text, line_count}
use tacklr.Writes.{
  Mutation, ApplyResult, mode_count, Doc, text, other, Files, Session, stored_rev, content_token,
  expected_rev, checkout, stage, staged, write_doc,
}
use tacklr.Writes.Apply.{apply, on_path, on_stat, dispatch, apply_full}
use tacklr.Writes.Paths.{clean_path, clean_rooted}
use tacklr.Writes.Revisions.{Refused, apply_stale}
use tacklr.Writes.Remembered.{apply-remembers}

abbrev as_doc : Bytes → Doc Bytes
as_doc s = text (record {
  path = codes "/workspace/a.txt";
  media_type = codes "text/plain";
  encoding = codes "utf-8";
  body = record { payload = s; starts = line_starts_of s };
})

abbrev payload : Doc Bytes → Bytes
payload (text d) = d.body.payload
payload (other s) = s

-- One text file, whose revision is its text.
abbrev one_file : Files Bytes Bytes
one_file = record {
  stat = λ path w. ok (codes "text/plain");
  open_document = λ path w. ok (some (as_doc w));
  write_document = λ d w. (ok tt, payload d);
  content_hash = λ s. s;
  unicode = record { to_lower = λ s. s; is_word = λ r. true };
  path_of = λ o. o;
  token_of = λ o. o;
  line_count_of = λ o. length o;
  media_type_of = λ o. codes "application/pdf";
  is_rich = λ o. false;
  change = λ m o. ok o;
  rebase = λ o d. o;
  is_projected = λ mt. false;
  new_document = λ path m. ok none;
}

abbrev no_change : Mutation
no_change = record {
  rev = [];
  content = none;
  old = none;
  new_text = none;
  replace_all = false;
  start = none;
  end = none;
  lines = [];
  body = none;
  block_id = [];
  include_heading = false;
  blocks = none;
  tab_id = [];
  media_type = [];
}

abbrev first_line : Mutation
first_line = record no_change { start = some 1; end = some 2; lines = codes "new" ∷ [] }

abbrev whole : Mutation
whole = record no_change { content = some (codes "new") }

-- The file was read as "old", and holds "other" now.
abbrev read_before : Session Bytes
read_before = record {
  last_rev = (codes "/workspace/a.txt", codes "old") ∷ [];
  world = codes "other";
}

a_path : clean_path (codes "/workspace/b/../a.txt") ≡ ok (codes "/workspace/a.txt")
unfolding clean_path clean_rooted trim_space text_eq
a_path = refl

expected : expected_rev (codes "/workspace/a.txt") [] read_before ≡ codes "old"
unfolding expected_rev stored_rev trim_space lookup text_eq
expected = refl

apply_stale_example :
    Refused (apply one_file (codes "/workspace/b/../a.txt") first_line read_before) read_before
unfolding expected_rev stored_rev trim_space lookup text_eq content_token
apply_stale_example =
    apply_stale one_file (codes "/workspace/b/../a.txt") (codes "/workspace/a.txt") first_line
      read_before a_path refl refl (inl refl) (as_doc (codes "other"), refl, refl, refl)

abbrev written : ApplyResult
written = record {
  path = codes "/workspace/a.txt";
  rev = codes "new";
  line_count = 1;
  replacements = 0;
}

wrote : (apply one_file (codes "/workspace/b/../a.txt") whole read_before).0 ≡ ok written
unfolding apply on_path on_stat dispatch apply_full stage staged write_doc content_token mode_count
    clean_path clean_rooted trim_space text_eq new_text_document set_text line_starts_of
    starts_after line_count
wrote = refl

apply-remembers_example :
    (stored_rev written.path (apply one_file (codes "/workspace/b/../a.txt") whole read_before).1
      ≡ written.rev)
    × ((d : Doc Bytes)
        → is_empty written.rev ≡ false
        → one_file.open_document written.path
            (apply one_file (codes "/workspace/b/../a.txt") whole read_before).1.world
          ≡ ok (some d)
        → content_token one_file d ≡ written.rev
        → (checkout one_file written.path []
            (apply one_file (codes "/workspace/b/../a.txt") whole read_before).1).0
          ≡ ok d)
apply-remembers_example =
    apply-remembers one_file (codes "/workspace/b/../a.txt") whole read_before written wrote
