-- ===== src/Checkpoint/Store.antt =====
-- The store of checkpoints in memory (`MemoryStore` of session/snapshot.go), which is one step at a time under its
-- lock. The revision of a record is its generation, a uint64, in decimal.
use tacklr.Base.{
  ℕ, ◌+◌, ◌%◌, ◌^◌, Option, none, some, List, [], ◌∷◌, map, Bytes, codes, decimal, text_eq,
  is_empty, Dict, lookup, insert, erase, if◌then◌else◌,
}
use tacklr.Failure.{Result, ok, err, plain, wrap, stale_checkpoint, session_not_found}
use tacklr.Checkpoint.{Row, Entry, Change, row_of, Rows, put_row, drop_row}

-- `snapRecord`
pub record SnapRecord : Type 0 where
  pub rows : Rows Bytes
  pub gen : ℕ

-- `MemoryStore`
pub record MemoryStore : Type 0 where
  pub records : Dict SnapRecord
  pub calls : Dict (Dict Bytes)

abbrev pub new_memory_store : MemoryStore
new_memory_store = record { records = []; calls = [] }

-- A record that is not there.
abbrev pub no_record : SnapRecord
no_record = record { rows = []; gen = 0 }

abbrev pub revision_at : Option SnapRecord → Bytes
revision_at none = []
revision_at (some cur) = decimal cur.gen

-- The rows of a session, none of an unknown one.
abbrev pub record_at : Option SnapRecord → SnapRecord
record_at none = no_record
record_at (some cur) = cur

-- The loop of `Save`.
unfoldable pub apply_changes : List Change → Rows Bytes → Rows Bytes
apply_changes [] rows = rows
apply_changes (c ∷ cs) rows = apply_changes cs (
    if c.delete
    then drop_row (row_of c.entry) rows
    else put_row (row_of c.entry) c.entry.value rows)

abbrev next_gen : ℕ → ℕ
next_gen gen = (gen + 1) % 2 ^ 64

abbrev pub saved : List Change → SnapRecord → SnapRecord
saved changes cur = record { rows = apply_changes changes cur.rows; gen = next_gen cur.gen }

-- `MemoryStore.Save`
unfoldable pub save : Bytes → List Change → Bytes → MemoryStore → Result Bytes × MemoryStore
save id changes expected s =
    let cur = lookup id s.records in
    let next = saved changes (record_at cur) in
    if is_empty id
    then (err (plain (codes "snapshot: session id is required")), s)
    else if text_eq expected (revision_at cur)
    then (ok (decimal next.gen), record s { records = insert id next s.records })
    else (err (wrap (codes "stale checkpoint") stale_checkpoint), s)

abbrev entry_of : Row × Bytes → Entry
entry_of (r, v) = record { kind = r.kind; key = r.key; value = v }

-- `MemoryStore.Load`; the entries come in no particular order.
unfoldable pub load : Bytes → MemoryStore → Result (List Entry × Bytes)
load id s = elim (lookup id s.records) [
  | none ↦ err (wrap (codes "load snapshot: session not found") session_not_found)
  | some cur ↦ ok (map entry_of cur.rows, decimal cur.gen)
]

-- `MemoryStore.Revision`
unfoldable pub revision : Bytes → MemoryStore → Bytes
revision id s = revision_at (lookup id s.records)

abbrev calls_at : Option (Dict Bytes) → Dict Bytes
calls_at none = []
calls_at (some m) = m

-- `MemoryStore.PutCall`
unfoldable pub put_call : Bytes → Bytes → Bytes → MemoryStore → MemoryStore
put_call id key body s = record s {
  calls = insert id (insert key body (calls_at (lookup id s.calls))) s.calls;
}

calls_in : Dict Bytes → List Bytes → Dict Bytes → Dict Bytes
calls_in found [] out = out
calls_in found (key ∷ keys) out =
    calls_in found keys (elim (lookup key found) [ none ↦ out | some body ↦ insert key body out ])

-- `MemoryStore.Calls`
unfoldable pub calls_of : Bytes → List Bytes → MemoryStore → Dict Bytes
unfolding calls_in
calls_of id keys s = calls_in (calls_at (lookup id s.calls)) keys []

-- `MemoryStore.ClearCalls`
unfoldable pub clear_calls : Bytes → MemoryStore → MemoryStore
clear_calls id s = record s { calls = erase id s.calls }

-- `MemoryStore.Delete`
unfoldable pub delete_session : Bytes → MemoryStore → MemoryStore
delete_session id s = record s { records = erase id s.records; calls = erase id s.calls }
