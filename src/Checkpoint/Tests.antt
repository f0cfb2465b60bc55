-- ===== src/Checkpoint/Tests.antt =====
-- A checkpoint of two rows, saved once.
use tacklr.Base.{
  ◌≡◌, refl, true, Option, none, some, List, [], ◌∷◌, Bytes, codes, decimal, text_eq, lookup,
  insert,
}
use tacklr.Failure.{Failure, err, is, stale_checkpoint}
use tacklr.Checkpoint.{Row, Entry, Rows, find_row, diff}
use tacklr.Checkpoint.Store.{MemoryStore, new_memory_store, apply_changes, save}
use tacklr.Checkpoint.Diffs.{hashed, IsDigest, rows_of, diff-IsDigest}
use tacklr.Checkpoint.Saves.{save_once}

abbrev todo : Bytes → Bytes → Entry
todo key value = record { kind = codes "todo"; key = key; value = value }

-- A hash that is the value itself.
abbrev whole : Bytes → Bytes
whole v = v

abbrev old_rows : Rows Bytes
old_rows =
    (record { kind = codes "todo"; key = codes "1" }, codes "a")
    ∷ ((record { kind = codes "todo"; key = codes "2" }, codes "b") ∷ [])

-- The first row changes, the second goes, and a third comes.
abbrev next_entries : List Entry
next_entries = todo (codes "1") (codes "c") ∷ (todo (codes "3") (codes "d") ∷ [])

whole-IsDigest : (r : Row) (m : Rows Bytes) → find_row r m ≡ hashed whole (find_row r m)
whole-IsDigest r m = hashed_whole (find_row r m)
  where
    hashed_whole : (o : Option Bytes) → o ≡ hashed whole o
    hashed_whole none = refl
    hashed_whole (some v) = refl

diff-IsDigest_example :
    ((r : Row)
      → find_row r (apply_changes (diff whole old_rows next_entries).0 old_rows)
        ≡ find_row r (rows_of next_entries))
    × IsDigest whole
        (diff whole old_rows next_entries).1
        (apply_changes (diff whole old_rows next_entries).0 old_rows)
diff-IsDigest_example =
    diff-IsDigest whole old_rows next_entries old_rows (λ a b same. same)
      (λ r. whole-IsDigest r old_rows)

abbrev first_saved : MemoryStore
first_saved = record { records = (codes "s", record { rows = []; gen = 1 }) ∷ []; calls = [] }

-- The second writer of a new session comes too late.
save_once_example :
    (e : Failure) × (save (codes "s") [] (codes "") first_saved ≡ (err e, first_saved))
    × (is e stale_checkpoint ≡ true)
unfolding save insert lookup decimal apply_changes text_eq
save_once_example =
    save_once (codes "s") [] [] (codes "") (codes "1") new_memory_store first_saved refl
