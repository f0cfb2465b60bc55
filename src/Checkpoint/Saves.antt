-- ===== src/Checkpoint/Saves.antt =====
-- The revisions of saves (session/snapshot.go).
use tacklr.Base.{
  ◌≡◌, ◌≢◌, refl, sym, ◌∙◌, ap, subst, ◌+◌, ◌%◌, ◌^◌, Bool-cases, inl, inr, true, false, Option,
  none, some, List, Bytes, codes, decimal, decimal_injective, text_eq, text_eq_iff, text_eq_refl,
  is_empty, lookup, insert, lookup-insert, arith,
}
use tacklr.Failure.{Failure, ok, err, is, wrap, stale_checkpoint}
use tacklr.Checkpoint.{Change}
use tacklr.Orchestrator.Runtime.{Advanced}
use tacklr.Checkpoint.Store.{
  MemoryStore, SnapRecord, revision_at, record_at, apply_changes, saved, save, revision,
}

revision_at-moved :
    (cur : Option SnapRecord) → decimal (((record_at cur).gen + 1) % 2 ^ 64) ≢ revision_at cur
unfolding decimal
revision_at-moved none = λ same. absurd (cc same)
revision_at-moved (some cur) =
    λ same. absurd (omega (arith, decimal_injective ((cur.gen + 1) % 2 ^ 64) cur.gen same))

-- What a save on the session's revision leaves: the store at another revision, with the session's rows
-- changed and the other sessions' records as they were.
pub record SavedTo (id : Bytes) (changes : List Change) (s : MemoryStore) (rev : Bytes)
    (s' : MemoryStore) : Type 0 where
  pub moved : rev ≢ revision id s
  pub at : revision id s' ≡ rev
  pub rows :
      (record_at (lookup id s'.records)).rows
      ≡ apply_changes changes (record_at (lookup id s.records)).rows
  pub others : (other : Bytes) → id ≢ other → lookup other s'.records ≡ lookup other s.records

abbrev Stale : Bytes → List Change → Bytes → MemoryStore → Type 0
Stale id changes expected s =
    (e : Failure) × (save id changes expected s ≡ (err e, s)) × (is e stale_checkpoint ≡ true)

lookup-insert_self :
    (id : Bytes) (r : SnapRecord) (m : List (Bytes × SnapRecord))
    → lookup id (insert id r m) ≡ some r
lookup-insert_self id r m = rw (lookup-insert id id r m, text_eq_refl id) refl

lookup-insert_other :
    (id other : Bytes) (r : SnapRecord) (m : List (Bytes × SnapRecord))
    → id ≢ other
    → lookup other (insert id r m) ≡ lookup other m
lookup-insert_other id other r m differ =
    ground (arith, lookup-insert id other r m, text_eq_iff id other)

save_current :
    (id : Bytes) (changes : List Change) (s : MemoryStore)
    → is_empty id ≡ false
    → (rev : Bytes) × (s' : MemoryStore) × (save id changes (revision id s) s ≡ (ok rev, s'))
      × SavedTo id changes s rev s'
unfolding save revision
save_current id changes s named =
    let cur = lookup id s.records in
    let next : SnapRecord = saved changes (record_at cur) in
    let found = lookup-insert_self id next s.records in
    (
      decimal next.gen,
      record s { records = insert id next s.records },
      rw (named, text_eq_refl (revision_at cur)) refl,
      record {
        moved = revision_at-moved cur;
        at = ap revision_at found;
        rows = ap (λ o. (record_at o).rows) found;
        others = λ other differ. lookup-insert_other id other next s.records differ;
      },
    )

save-Stale :
    (id : Bytes) (changes : List Change) (expected : Bytes) (s : MemoryStore)
    → is_empty id ≡ false
    → expected ≢ revision id s
    → Stale id changes expected s
unfolding save revision is
save-Stale id changes expected s named off =
    elim (Bool-cases (text_eq expected (revision_at (lookup id s.records)))) [
      | inl on ↦ absurd (off ((text_eq_iff expected (revision_at (lookup id s.records))).0 on))
      | inr other ↦ (wrap (codes "stale checkpoint") stale_checkpoint, rw (named, other) refl, refl)
    ]

-- A save of a session's changes, in every case. On the session's revision it succeeds, and returns
-- another revision, which is the session's then; the session's rows are changed, and no other session's
-- record. On any other revision it fails as stale, and the store is as it was.
pub save_lem :
    (id : Bytes) (changes : List Change) (expected : Bytes) (s : MemoryStore)
    → is_empty id ≡ false
    → (expected ≡ revision id s
        → (rev : Bytes) × (s' : MemoryStore) × (save id changes expected s ≡ (ok rev, s'))
          × SavedTo id changes s rev s')
      × (expected ≢ revision id s → Stale id changes expected s)
save_lem id changes expected s named = (
  λ on.
      subst
        (λ x.
          (rev : Bytes) × (s' : MemoryStore) × (save id changes x s ≡ (ok rev, s'))
          × SavedTo id changes s rev s')
        (sym on) (save_current id changes s named),
  save-Stale id changes expected s named,
)

-- A save that succeeds was one on the session's revision.
saved_on :
    (id : Bytes) (changes : List Change) (expected rev : Bytes) (s s' : MemoryStore)
    → save id changes expected s ≡ (ok rev, s')
    → (is_empty id ≡ false) × (expected ≡ revision id s)
unfolding save revision
saved_on id changes expected rev s s' won = elim (Bool-cases (is_empty id)) [
  | inl empty ↦ absurd (cc (rw (empty, save) at won))
  | inr named ↦ elim (Bool-cases (text_eq expected (revision_at (lookup id s.records)))) [
    | inl on ↦ (named, (text_eq_iff expected (revision_at (lookup id s.records))).0 on)
    | inr off ↦ absurd (cc (rw (named, off, save) at won))
  ]
]

-- Of two saves on one revision, the second fails as stale when the first succeeded, and changes nothing.
pub save_once :
    (id : Bytes) (first second : List Change) (expected rev : Bytes) (s s' : MemoryStore)
    → save id first expected s ≡ (ok rev, s')
    → Stale id second expected s'
save_once id first second expected rev s s' won =
    let (named, on) = saved_on id first expected rev s s' won in
    let (rev1, s1, won1, facts) = save_current id first s named in
    let same : (ok rev, s') ≡ (ok rev1, s1) = sym won ∙ (ap (λ x. save id first x s) on ∙ won1) in
    let later : revision id s' ≡ rev1 = ap (λ x. revision id x.1) same ∙ facts.at in
    save-Stale id second expected s' named λ again. facts.moved (sym later ∙ (sym again ∙ on))

-- A save on a session's revision moves the session to the revision that it returns: what a turn asks of the
-- commits of its runtime.
pub save-Advanced :
    (id : Bytes) (changes : List Change) (rev : Bytes) (s : MemoryStore)
    → is_empty id ≡ false
    → revision id s ≡ rev
    → Advanced (λ r s'. revision id s' ≡ r) rev (save id changes rev s)
save-Advanced id changes rev s named on =
    let (rev1, s1, won, facts) = save_current id changes s named in
    subst (Advanced (λ r s'. revision id s' ≡ r) rev) (sym won ∙ ap (λ r. save id changes r s) on)
      facts.at
