-- ===== src/Checkpoint.antt =====
-- The rows of a session's checkpoint, and the changes that a commit saves of them
-- (session/checkpoint.go, session/session.go). The hash of a row's value is a parameter.
pub mod Store
pub mod Diffs
pub mod Saves
mod Tests
use tacklr.Base.{
  ◌≡◌, refl, ◌↔◌, ℕ, Bool, true, false, not, ◌&&◌, ◌||◌, ltb, ◌==◌, Option, none, some, is_some,
  List, [], ◌∷◌, ◌++◌, map, Bytes, text_eq, text_eq_iff, keep, arith, if◌then◌else◌,
}

-- `CheckpointRow`
pub record Row : Type 0 where
  pub kind : Bytes
  pub key : Bytes

-- `CheckpointEntry`
pub record Entry : Type 0 where
  pub kind : Bytes
  pub key : Bytes
  pub value : Bytes

-- `CheckpointChange`: a put of the entry, or the removal of its row.
pub record Change : Type 0 where
  pub entry : Entry
  pub delete : Bool

abbrev pub row_of : Entry → Row
row_of e = record { kind = e.kind; key = e.key }

unfoldable pub row_eq : Row → Row → Bool
row_eq a b = text_eq a.kind b.kind && text_eq a.key b.key

pub row_eq_iff : (a b : Row) → (row_eq a b ≡ true) ↔ (a ≡ b)
unfolding row_eq
row_eq_iff a b = ground (arith, text_eq_iff a.kind b.kind, text_eq_iff a.key b.key)

-- Go maps keyed by rows.
abbrev pub Rows : Type 0 → Type 0
Rows V = List (Row × V)

module _ {V : Type 0} where
  unfoldable pub find_row : Row → Rows V → Option V
  find_row r [] = none
  find_row r ((s, v) ∷ m) = if row_eq s r then some v else find_row r m

  unfoldable pub put_row : Row → V → Rows V → Rows V
  put_row r v [] = (r, v) ∷ []
  put_row r v ((s, w) ∷ m) = if row_eq s r then (r, v) ∷ m else (s, w) ∷ put_row r v m

  unfoldable pub drop_row : Row → Rows V → Rows V
  drop_row r [] = []
  drop_row r ((s, w) ∷ m) = let rest = drop_row r m in if row_eq s r then rest else (s, w) ∷ rest

  pub find_row-put_row :
      (r s : Row) (v : V) (m : Rows V)
      → find_row s (put_row r v m) ≡ (if row_eq r s then some v else find_row s m)
  unfolding find_row put_row
  find_row-put_row r s v [] = refl
  find_row-put_row r s v ((t, w) ∷ m) =
      ground (arith, row_eq_iff r s, row_eq_iff t r, row_eq_iff t s, find_row-put_row r s v m)

  pub find_row-drop_row :
      (r s : Row) (m : Rows V)
      → find_row s (drop_row r m) ≡ (if row_eq r s then none else find_row s m)
  unfolding find_row drop_row
  find_row-drop_row r s [] = ground arith
  find_row-drop_row r s ((t, w) ∷ m) =
      ground (arith, row_eq_iff r s, row_eq_iff t r, row_eq_iff t s, find_row-drop_row r s m)

-- The order of `cmp.Compare` on strings: whether the first is before the second.
text_lt : Bytes → Bytes → Bool
text_lt a [] = false
text_lt [] (y ∷ ys) = true
text_lt (x ∷ xs) (y ∷ ys) = ltb x y || x == y && text_lt xs ys

row_lt : Row → Row → Bool
unfolding text_lt
row_lt a b = text_lt a.kind b.kind || text_eq a.kind b.kind && text_lt a.key b.key

insert_sorted : Row → List Row → List Row
unfolding row_lt
insert_sorted r [] = r ∷ []
insert_sorted r (s ∷ rs) = if row_lt s r then s ∷ insert_sorted r rs else r ∷ s ∷ rs

-- `slices.SortedFunc`, on rows that differ.
sort_rows : List Row → List Row
unfolding insert_sorted
sort_rows [] = []
sort_rows (r ∷ rs) = insert_sorted r (sort_rows rs)

abbrev same_value : Option Bytes → Option Bytes → Bool
same_value none now = false
same_value (some had) none = text_eq had []
same_value (some had) (some now) = text_eq had now

-- Whether `Diff` leaves a row alone: `ok && had == digest[row]`.
abbrev pub unchanged : Rows Bytes → Rows Bytes → Row → Bool
unchanged prev digest r = same_value (find_row r prev) (find_row r digest)

puts : Rows Bytes → Rows Bytes → List Entry → List Change
puts prev digest [] = []
puts prev digest (e ∷ es) =
    let rest = puts prev digest es in
    if unchanged prev digest (row_of e) then rest else record { entry = e; delete = false } ∷ rest

abbrev removal : Row → Change
removal r = record { entry = record { kind = r.kind; key = r.key; value = [] }; delete = true }

deletes : Rows Bytes → List Row → List Change
deletes digest [] = []
deletes digest (r ∷ rs) =
    let rest = deletes digest rs in if is_some (find_row r digest) then rest else removal r ∷ rest

abbrev rows_in : Rows Bytes → List Row
rows_in m = map (λ (e : Row × Bytes). e.0) m

module _ (hash : Bytes → Bytes) where
  digest_from : List Entry → Rows Bytes → Rows Bytes
  digest_from [] d = d
  digest_from (e ∷ es) d = digest_from es (put_row (row_of e) (hash e.value) d)

  -- `DigestOf`
  unfoldable pub digest_of : List Entry → Rows Bytes
  unfolding digest_from
  digest_of entries = digest_from entries []

  -- `Diff`
  unfoldable pub diff : Rows Bytes → List Entry → List Change × Rows Bytes
  unfolding puts deletes sort_rows digest_of
  diff prev next =
      let digest = digest_of next in
      (puts prev digest next ++ deletes digest (sort_rows (rows_in prev)), digest)
