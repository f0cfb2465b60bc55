-- ===== src/Checkpoint/Diffs.antt =====
-- The rows that the changes of `Diff` make (session/checkpoint.go, session/snapshot.go).
use tacklr.Base.{
  ◌≡◌, refl, sym, ◌∙◌, ap, subst, Bool, Bool-cases, inl, inr, true, false, not, ◌&&◌, ◌||◌, Option,
  none, some, is_some, List, [], ◌∷◌, ◌++◌, any, Bytes, text_eq, text_eq_iff, arith, if◌then◌else◌,
}
use tacklr.Checkpoint.{
  Row, Entry, Change, row_of, row_eq, row_eq_iff, Rows, find_row, put_row, find_row-put_row,
  find_row-drop_row, insert_sorted, sort_rows, unchanged, puts, deletes, rows_in, digest_from,
  digest_of, diff,
}
use tacklr.Checkpoint.Store.{apply_changes}

-- The rows of a checkpoint's entries, the last of a row's.
rows_from : List Entry → Rows Bytes → Rows Bytes
rows_from [] m = m
rows_from (e ∷ es) m = rows_from es (put_row (row_of e) e.value m)

unfoldable pub rows_of : List Entry → Rows Bytes
unfolding rows_from
rows_of entries = rows_from entries []

module _ (r : Row) where
  -- What changes, and what entries, make of the row.
  step : Change → Option Bytes → Option Bytes
  step c o =
      if row_eq (row_of c.entry) r then (if c.delete then none else some c.entry.value) else o

  after : List Change → Option Bytes → Option Bytes
  unfolding step
  after [] o = o
  after (c ∷ cs) o = after cs (step c o)

  latest : List Entry → Option Bytes → Option Bytes
  latest [] o = o
  latest (e ∷ es) o = latest es (if row_eq (row_of e) r then some e.value else o)

  find_row-apply_changes :
      (cs : List Change) (m : Rows Bytes)
      → find_row r (apply_changes cs m) ≡ after cs (find_row r m)
  unfolding apply_changes after step
  find_row-apply_changes [] m = refl
  find_row-apply_changes (c ∷ cs) m =
      find_row-apply_changes cs _
      ∙ ap (after cs) (
          ground (
            arith,
            find_row-put_row (row_of c.entry) r c.entry.value m,
            find_row-drop_row (row_of c.entry) r m,
          ))

  find_row-rows_from :
      (es : List Entry) (m : Rows Bytes) → find_row r (rows_from es m) ≡ latest es (find_row r m)
  unfolding rows_from latest
  find_row-rows_from [] m = refl
  find_row-rows_from (e ∷ es) m =
      find_row-rows_from es _ ∙ ap (latest es) (find_row-put_row (row_of e) r e.value m)

  after-append :
      (cs ds : List Change) (o : Option Bytes) → after (cs ++ ds) o ≡ after ds (after cs o)
  unfolding after
  after-append [] ds o = refl
  after-append (c ∷ cs) ds o = after-append cs ds _

  module _ (prev digest : Rows Bytes) where
    put_kept :
        (e : Entry) (rest : List Change) (o : Option Bytes) (b : Bool)
        → unchanged prev digest (row_of e) ≡ b
        → unchanged prev digest r ≡ true
        → after (if b then rest else record { entry = e; delete = false } ∷ rest) o ≡ after rest o
    unfolding after step
    put_kept e rest o true here same = refl
    put_kept e rest o false here same = elim (Bool-cases (row_eq (row_of e) r)) [
      | inl is_r ↦ absurd (cc (here, same, (row_eq_iff (row_of e) r).0 is_r))
      | inr other ↦ rw (other, after, step) refl
    ]

    puts_kept :
        (es : List Entry) (o : Option Bytes)
        → unchanged prev digest r ≡ true
        → after (puts prev digest es) o ≡ o
    unfolding puts after
    puts_kept [] o same = refl
    puts_kept (e ∷ es) o same = put_kept e _ o _ refl same ∙ puts_kept es o same

    put_made :
        (e : Entry) (rest : List Change) (o : Option Bytes) (b : Bool)
        → unchanged prev digest (row_of e) ≡ b
        → unchanged prev digest r ≡ false
        → after (if b then rest else record { entry = e; delete = false } ∷ rest) o
          ≡ after rest (if row_eq (row_of e) r then some e.value else o)
    unfolding after step
    put_made e rest o false here changed = refl
    put_made e rest o true here changed = elim (Bool-cases (row_eq (row_of e) r)) [
      | inl is_r ↦ absurd (cc (here, changed, (row_eq_iff (row_of e) r).0 is_r))
      | inr other ↦ rw other refl
    ]

    puts_made :
        (es : List Entry) (o : Option Bytes)
        → unchanged prev digest r ≡ false
        → after (puts prev digest es) o ≡ latest es o
    unfolding puts after latest
    puts_made [] o changed = refl
    puts_made (e ∷ es) o changed = put_made e _ o _ refl changed ∙ puts_made es _ changed

  delete_made : Rows Bytes → List Row → Option Bytes → Option Bytes
  delete_made digest rs o =
      if any (λ s. row_eq s r) rs && not (is_some (find_row r digest)) then none else o

  deletes_made :
      (digest : Rows Bytes) (rs : List Row) (o : Option Bytes)
      → after (deletes digest rs) o ≡ delete_made digest rs o
  unfolding deletes after step delete_made
  deletes_made digest [] o = refl
  deletes_made digest (s ∷ rs) o = elim (Bool-cases (row_eq s r)) [
    | inl is_r ↦
        let same : s ≡ r = (row_eq_iff s r).0 is_r in
        subst (λ t. after (deletes digest (t ∷ rs)) o ≡ delete_made digest (t ∷ rs) o) (sym same)
          (ground (arith, row_eq_iff r r, deletes_made digest rs o, deletes_made digest rs none))
    | inr other ↦ ground (arith, deletes_made digest rs o)
  ]

  -- Entries that have the row settle it, whatever it was.
  latest_found :
      (es : List Entry) (o : Option Bytes) (v : Bytes)
      → latest es none ≡ some v
      → latest es o ≡ some v
  unfolding latest
  latest_found [] o v found = absurd (cc found)
  latest_found (e ∷ es) o v found = elim (Bool-cases (row_eq (row_of e) r)) [
    | inl is_r ↦ rw (is_r, latest) (rw (is_r, latest) at found)
    | inr other ↦ rw (other, latest) (latest_found es o v (rw (other, latest) at found))
  ]

  latest-some : (es : List Entry) (v : Bytes) → (w : Bytes) × (latest es (some v) ≡ some w)
  unfolding latest
  latest-some [] v = (v, refl)
  latest-some (e ∷ es) v = elim (Bool-cases (row_eq (row_of e) r)) [
    | inl is_r ↦ rw (is_r, latest) (latest-some es e.value)
    | inr other ↦ rw (other, latest) (latest-some es v)
  ]

  -- Entries that do not have it leave it alone.
  latest-none : (es : List Entry) (o : Option Bytes) → latest es none ≡ none → latest es o ≡ o
  unfolding latest
  latest-none [] o absent = refl
  latest-none (e ∷ es) o absent = elim (Bool-cases (row_eq (row_of e) r)) [
    | inl is_r ↦
        let (w, found) = latest-some es e.value in absurd (cc (found, rw (is_r, latest) at absent))
    | inr other ↦ rw (other, latest) (latest-none es o (rw (other, latest) at absent))
  ]

any-insert_sorted :
    (p : Row → Bool) (r : Row) (rs : List Row) → any p (insert_sorted r rs) ≡ (p r || any p rs)
unfolding insert_sorted
any-insert_sorted p r [] = refl
any-insert_sorted p r (s ∷ rs) = ground (arith, any-insert_sorted p r rs)

any-sort_rows : (p : Row → Bool) (rs : List Row) → any p (sort_rows rs) ≡ any p rs
unfolding sort_rows
any-sort_rows p [] = refl
any-sort_rows p (r ∷ rs) =
    any-insert_sorted p r (sort_rows rs) ∙ ap (◌||◌ (p r)) (any-sort_rows p rs)

any-rows_in :
    (r : Row) (m : Rows Bytes) → any (λ s. row_eq s r) (rows_in m) ≡ is_some (find_row r m)
unfolding find_row
any-rows_in r [] = refl
any-rows_in r ((s, v) ∷ m) = ground (arith, any-rows_in r m)

-- A digest of rows has the hash of each row's value.
abbrev pub hashed : (Bytes → Bytes) → Option Bytes → Option Bytes
hashed hash none = none
hashed hash (some v) = some (hash v)

abbrev pub IsDigest : (Bytes → Bytes) → Rows Bytes → Rows Bytes → Type 0
IsDigest hash d m = (r : Row) → find_row r d ≡ hashed hash (find_row r m)

module _ (hash : Bytes → Bytes) where
  digest_from-latest :
      (r : Row) (es : List Entry) (d : Rows Bytes) (o : Option Bytes)
      → find_row r d ≡ hashed hash o
      → find_row r (digest_from hash es d) ≡ hashed hash (latest r es o)
  unfolding digest_from latest
  digest_from-latest r [] d o h = h
  digest_from-latest r (e ∷ es) d o h =
      digest_from-latest r es (put_row (row_of e) (hash e.value) d) _
        (ground (arith, find_row-put_row (row_of e) r (hash e.value) d))

  module _ (injective : (a b : Bytes) → hash a ≡ hash b → a ≡ b) (r : Row)
      (prev digest : Rows Bytes) (next : List Entry) where
    -- The row after the puts.
    put_row_is :
        (o : Option Bytes) (l : Option Bytes)
        → latest r next none ≡ l
        → find_row r prev ≡ hashed hash o
        → find_row r digest ≡ hashed hash l
        → after r (puts prev digest next) o ≡ (if is_some l then l else o)
    put_row_is o none absent had now = elim (Bool-cases (unchanged prev digest r)) [
      | inl same ↦ puts_kept r prev digest next o same
      | inr changed ↦ puts_made r prev digest next o changed ∙ latest-none r next o absent
    ]
    put_row_is none (some v) found had now = puts_made r prev digest next none (rw had refl) ∙ found
    put_row_is (some w) (some v) found had now = elim (Bool-cases (unchanged prev digest r)) [
      | inl same ↦
          let equal : text_eq (hash w) (hash v) ≡ true = rw (had, now) at same in
          puts_kept r prev digest next (some w) same
          ∙ ap some (injective w v ((text_eq_iff (hash w) (hash v)).0 equal))
      | inr changed ↦
          puts_made r prev digest next (some w) changed ∙ latest_found r next (some w) v found
    ]

    deleted_row_is :
        (o : Option Bytes) (l : Option Bytes)
        → find_row r prev ≡ hashed hash o
        → find_row r digest ≡ hashed hash l
        → delete_made r digest (sort_rows (rows_in prev)) (if is_some l then l else o) ≡ l
    unfolding delete_made
    deleted_row_is o l had now =
        rw (any-sort_rows (λ s. row_eq s r) (rows_in prev), any-rows_in r prev, had, now)
          (settled o l)
      where
        settled :
            (o l : Option Bytes)
            → (if is_some (hashed hash o) && not (is_some (hashed hash l))
                then none
                else if is_some l
                then l
                else o)
              ≡ l
        settled none none = refl
        settled (some w) none = refl
        settled none (some v) = refl
        settled (some w) (some v) = refl

  -- Let no two values have one hash. The changes of `Diff` from the digest of some rows to the next
  -- checkpoint take those rows to the next checkpoint's, each row's last entry counting, and its digest is
  -- again the digest of the rows.
  pub diff-IsDigest :
      (prev : Rows Bytes) (next : List Entry) (m : Rows Bytes)
      → ((a b : Bytes) → hash a ≡ hash b → a ≡ b)
      → IsDigest hash prev m
      → ((r : Row)
          → find_row r (apply_changes (diff hash prev next).0 m) ≡ find_row r (rows_of next))
        × IsDigest hash (diff hash prev next).1 (apply_changes (diff hash prev next).0 m)
  unfolding diff digest_of rows_of find_row
  diff-IsDigest prev next m injective had =
      (taken, λ r. now r ∙ ap (hashed hash) (sym (taken r ∙ is_latest r)))
    where
      now : (r : Row) → find_row r (digest_of hash next) ≡ hashed hash (latest r next none)
      now r = digest_from-latest r next [] none refl

      is_latest : (r : Row) → find_row r (rows_of next) ≡ latest r next none
      is_latest r = find_row-rows_from r next []

      taken :
          (r : Row)
          → find_row r (apply_changes (diff hash prev next).0 m) ≡ find_row r (rows_of next)
      taken r =
          let digest = digest_of hash next in
          let o = find_row r m in
          find_row-apply_changes r _ m
          ∙ (after-append r (puts prev digest next) _ o
              ∙ (deletes_made r digest (sort_rows (rows_in prev)) _
                  ∙ (ap (delete_made r digest (sort_rows (rows_in prev)))
                        (put_row_is injective r prev digest next o _ refl (had r) (now r))
                      ∙ (deleted_row_is injective r prev digest next o _ (had r) (now r)
                          ∙ sym (is_latest r)))))
