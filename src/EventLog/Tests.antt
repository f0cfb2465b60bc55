-- ===== src/EventLog/Tests.antt =====
-- A tail of a log with two events.
use tacklr.Base.{ℕ, ◌≡◌, refl, false, List, [], ◌∷◌, ◌++◌, codes, arith}
use tacklr.EventLog.{LogEntry, sent}
use tacklr.EventLog.Tails.{
  Tail, LogStep, appends, reads, trims, log_step, log_steps, appended, pending, log_steps-sent,
}

abbrev an_event : ℕ → LogEntry ℕ
an_event n = record { topic = codes "events"; ev = n }

-- The tail has read the first of its log's two events.
abbrev behind : Tail ℕ
behind = record {
  log = record { entries = an_event 4 ∷ (an_event 5 ∷ []); base = 3; closed = false };
  next = 4;
  got = 4 ∷ [];
}

abbrev some_steps : List (LogStep ℕ)
some_steps = trims 4 ∷ (appends (an_event 6) ∷ (reads ∷ (appends (an_event 7) ∷ [])))

log_steps-sent_example :
    (log_step reads (log_steps some_steps behind)).got
    ≡ behind.got ++ sent (pending behind ++ appended some_steps)
log_steps-sent_example =
    log_steps-sent some_steps behind
      (record { opened = refl; low = omega arith; high = omega arith }) (omega arith, tt)
