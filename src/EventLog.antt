-- ===== src/EventLog.antt =====
-- The event log in memory (session/eventlog.go). A session's log is one step at a time under its lock, and
-- a tail is the position that it reads next; the channel that a tail sends on takes what it is given.
pub mod Tails
mod Tests
use tacklr.Base.{
  ℕ, ◌+◌, ◌-◌, min, Bool, true, false, not, Option, none, some, List, [], ◌∷◌, ◌++◌, map, length,
  drop, keep, Bytes, codes, text_eq, Dict, lookup, insert, erase,
}

-- `logEntry`
pub record LogEntry (E : Type 0) : Type 0 where
  pub topic : Bytes
  pub ev : E

-- `sessionLog`: the entries are the events after `base`.
pub record SessionLog (E : Type 0) : Type 0 where
  pub entries : List (LogEntry E)
  pub base : ℕ
  pub closed : Bool

module _ {E : Type 0} where
  abbrev empty_log : SessionLog E
  empty_log = record { entries = []; base = 0; closed = false }

  abbrev log_at : Option (SessionLog E) → SessionLog E
  log_at none = empty_log
  log_at (some s) = s

  abbrev pub append_entry : LogEntry E → SessionLog E → SessionLog E
  append_entry e s = record s { entries = s.entries ++ e ∷ [] }

  -- `MemoryEventLog.Append`
  unfoldable pub append : Bytes → Bytes → E → Dict (SessionLog E) → Dict (SessionLog E)
  append id topic ev logs =
      insert id (append_entry (record { topic = topic; ev = ev }) (log_at (lookup id logs))) logs

  -- The position after the last event of a log.
  abbrev pub head_of : SessionLog E → ℕ
  head_of s = s.base + length s.entries

  -- `MemoryEventLog.Head`
  unfoldable pub head : Bytes → Dict (SessionLog E) → ℕ
  head id logs = elim (lookup id logs) [ none ↦ 0 | some s ↦ head_of s ]

  unfoldable pub trim_log : ℕ → SessionLog E → SessionLog E
  trim_log through s =
      let n = min (through - s.base) (length s.entries) in
      record s { entries = drop n s.entries; base = s.base + n }

  -- `MemoryEventLog.Trim`
  unfoldable pub trim : Bytes → ℕ → Dict (SessionLog E) → Dict (SessionLog E)
  unfolding trim_log
  trim id through logs = elim (lookup id logs) [
    | none ↦ logs
    | some s ↦ insert id (trim_log through s) logs
  ]

  -- What the tails of a dropped log find.
  abbrev pub close_log : SessionLog E → SessionLog E
  close_log s = record s { entries = []; closed = true }

  -- `MemoryEventLog.CloseSession`: the log is dropped, and closed for its tails (`close_log`).
  unfoldable pub close_session : Bytes → Dict (SessionLog E) → Dict (SessionLog E)
  close_session id logs = erase id logs

  -- The events that a tail sends of some entries: those of retries are not sent.
  abbrev pub sent : List (LogEntry E) → List E
  sent es =
      map (λ (e : LogEntry E). e.ev)
        (keep (λ (e : LogEntry E). not (text_eq e.topic (codes "retry"))) es)

  -- A round of the loop of `Subscribe`: what it sends, and the position it reads next. `none`: the log
  -- is closed, and the tail ends.
  unfoldable pub read_tail : ℕ → SessionLog E → Option (List E × ℕ)
  read_tail next s = elim s.closed [
    | true ↦ none
    | false ↦ some (sent (drop (min (next - s.base) (length s.entries)) s.entries), head_of s)
  ]
