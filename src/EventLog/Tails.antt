-- ===== src/EventLog/Tails.antt =====
-- What a tail gets of a log over appends, reads and trims (session/eventlog.go).
use tacklr.Base.{
  ℕ, zero, suc, ◌+◌, ◌-◌, ◌≤◌, min, ◌≡◌, refl, sym, ◌∙◌, ap, subst, Bool, Bool-cases, inl, inr,
  true, false, Option, none, some, List, [], ◌∷◌, ◌++◌, append_assoc, append-nil, length,
  length-drop, length-append, drop, codes, text_eq, arith,
}
use tacklr.EventLog.{LogEntry, SessionLog, append_entry, head_of, trim_log, sent, read_tail}

-- A log with one tail: the position that it reads next, and what it has got.
pub record Tail (E : Type 0) : Type 0 where
  pub log : SessionLog E
  pub next : ℕ
  pub got : List E

pub data LogStep (E : Type 0) : Type 0 where
  appends : LogEntry E → LogStep E
  reads : LogStep E
  trims : (through : ℕ) → LogStep E

module _ {E : Type 0} where
  abbrev read_into : Option (List E × ℕ) → Tail E → Tail E
  read_into none t = t
  read_into (some (events, next)) t = record t { next = next; got = t.got ++ events }

  abbrev pub log_step : LogStep E → Tail E → Tail E
  log_step (appends e) t = record t { log = append_entry e t.log }
  log_step reads t = read_into (read_tail t.next t.log) t
  log_step (trims through) t = record t { log = trim_log through t.log }

  abbrev pub log_steps : List (LogStep E) → Tail E → Tail E
  log_steps [] t = t
  log_steps (x ∷ xs) t = log_steps xs (log_step x t)

  abbrev pub appended : List (LogStep E) → List (LogEntry E)
  appended [] = []
  appended (appends e ∷ xs) = e ∷ appended xs
  appended (reads ∷ xs) = appended xs
  appended (trims _ ∷ xs) = appended xs

  -- No step trims what the tail has not read.
  abbrev pub TrimsRead : List (LogStep E) → Tail E → Type 0
  TrimsRead [] t = Unit {0}
  TrimsRead (trims through ∷ xs) t = (through ≤ t.next) × TrimsRead xs (log_step (trims through) t)
  TrimsRead (appends e ∷ xs) t = TrimsRead xs (log_step (appends e) t)
  TrimsRead (reads ∷ xs) t = TrimsRead xs (log_step reads t)

  -- A tail of an open log, at a position that the log holds.
  pub record IsTail (t : Tail E) : Type 0 where
    pub opened : t.log.closed ≡ false
    pub low : t.log.base ≤ t.next
    pub high : t.next ≤ head_of t.log

  -- The entries that the tail has not read.
  abbrev pub pending : Tail E → List (LogEntry E)
  pending t = drop (t.next - t.log.base) t.log.entries

  drop-append :
      (k : ℕ) (es fs : List (LogEntry E)) → k ≤ length es → drop k (es ++ fs) ≡ drop k es ++ fs
  drop-append zero es fs le = refl
  drop-append (suc k) [] fs le = absurd (omega (arith, le))
  drop-append (suc k) (e ∷ es) fs le = drop-append k es fs (omega (arith, le))

  drop-nil : (k : ℕ) → let empty : List (LogEntry E) = [] in drop k empty ≡ empty
  drop-nil zero = refl
  drop-nil (suc k) = refl

  drop-drop : (m n k : ℕ) (es : List (LogEntry E)) → m + n ≡ k → drop n (drop m es) ≡ drop k es
  drop-drop zero n k es h = ap (λ j. drop j es) (omega (arith, h))
  drop-drop (suc m) n k [] h = drop-nil n ∙ sym (drop-nil k)
  drop-drop (suc m) n k (e ∷ es) h =
      let same : suc (m + n) ≡ k = omega (arith, h) in
      drop-drop m n (m + n) es refl ∙ ap (λ j. drop j (e ∷ es)) same

  drop-length : (es : List (LogEntry E)) → drop (length es) es ≡ []
  drop-length [] = refl
  drop-length (e ∷ es) = drop-length es

  sent-append : (es fs : List (LogEntry E)) → sent (es ++ fs) ≡ sent es ++ sent fs
  sent-append [] fs = refl
  sent-append (e ∷ es) fs = elim (Bool-cases (text_eq e.topic (codes "retry"))) [
    | inl b ↦ rw b (sent-append es fs)
    | inr b ↦ rw b (ap (◌∷◌ e.ev) (sent-append es fs))
  ]

  drop_high : (k : ℕ) (es : List (LogEntry E)) → length es ≤ k → drop k es ≡ []
  drop_high k [] le = drop-nil k
  drop_high zero (e ∷ es) le = absurd (omega (arith, le))
  drop_high (suc k) (e ∷ es) le = drop_high k es (omega (arith, le))

  -- What the tail has got and is still to get, before and after a step.
  owed : Tail E → List (LogEntry E) → List E
  owed t more = t.got ++ sent (pending t ++ more)

  record StepKeeps (t t' : Tail E) (new : List (LogEntry E)) : Type 0 where
    tail : IsTail t'
    same : (more : List (LogEntry E)) → owed t' more ≡ owed t (new ++ more)

  appends-StepKeeps :
      (e : LogEntry E) (t : Tail E) → IsTail t → StepKeeps t (log_step (appends e) t) (e ∷ [])
  unfolding owed
  appends-StepKeeps e t h = record {
    tail = record {
      opened = h.opened;
      low = h.low;
      high = omega (arith, h.high, length-append t.log.entries (e ∷ []));
    };
    same = λ more.
        ap (λ es. t.got ++ sent es)
          (ap (λ es. es ++ more)
              (drop-append (t.next - t.log.base) t.log.entries (e ∷ [])
                (omega (arith, h.high, h.low)))
            ∙ append_assoc (pending t) (e ∷ []) more);
  }

  all_of : Tail E → Bool → Option (List E × ℕ)
  all_of t true = none
  all_of t false =
      some (
        sent (drop (min (t.next - t.log.base) (length t.log.entries)) t.log.entries),
        head_of t.log,
      )

  read_tail-pending :
      (t : Tail E) → IsTail t → read_tail t.next t.log ≡ some (sent (pending t), head_of t.log)
  unfolding read_tail all_of
  read_tail-pending t h =
      ap (all_of t) h.opened
      ∙ ap (λ k. some (sent (drop k t.log.entries), head_of t.log)) (omega (arith, h.low, h.high))

  reads-StepKeeps : (t : Tail E) → IsTail t → StepKeeps t (log_step reads t) []
  unfolding owed
  reads-StepKeeps t h =
      subst (λ o. StepKeeps t (read_into o t) []) (sym (read_tail-pending t h))
        (record {
          tail = record { opened = h.opened; low = omega arith; high = omega arith };
          same = λ more.
              ap (λ es. (t.got ++ sent (pending t)) ++ sent (es ++ more))
                (drop_high (head_of t.log - t.log.base) t.log.entries (omega arith))
              ∙ (append_assoc t.got (sent (pending t)) (sent more)
                  ∙ ap (◌++◌ t.got) (sym (sent-append (pending t) more)));
        })

  trims-StepKeeps :
      (through : ℕ) (t : Tail E)
      → IsTail t
      → through ≤ t.next
      → StepKeeps t (log_step (trims through) t) []
  unfolding owed trim_log
  trims-StepKeeps through t h le =
      let n = min (through - t.log.base) (length t.log.entries) in
      record {
        tail = record {
          opened = h.opened;
          low = omega (arith, h.low, h.high, le);
          high = omega (arith, h.low, h.high, le, length-drop n t.log.entries);
        };
        same = λ more.
            ap (λ es. t.got ++ sent (es ++ more))
              (drop-drop n (t.next - (t.log.base + n)) (t.next - t.log.base) t.log.entries
                (omega (arith, h.low, h.high, le)));
      }

  owed_end :
      (xs : List (LogStep E)) (t : Tail E)
      → IsTail t
      → TrimsRead xs t
      → StepKeeps t (log_steps xs t) (appended xs)
  owed_end [] t h read = record { tail = h; same = λ more. refl }
  owed_end (appends e ∷ xs) t h read =
      let one = appends-StepKeeps e t h in
      let rest = owed_end xs (log_step (appends e) t) one.tail read in
      record { tail = rest.tail; same = λ more. rest.same more ∙ one.same (appended xs ++ more) }
  owed_end (reads ∷ xs) t h read =
      let one = reads-StepKeeps t h in
      let rest = owed_end xs (log_step reads t) one.tail read in
      record { tail = rest.tail; same = λ more. rest.same more ∙ one.same (appended xs ++ more) }
  owed_end (trims through ∷ xs) t h read =
      let one = trims-StepKeeps through t h read.0 in
      let rest = owed_end xs (log_step (trims through) t) one.tail read.1 in
      record { tail = rest.tail; same = λ more. rest.same more ∙ one.same (appended xs ++ more) }

  -- A tail of an open log misses nothing and gets nothing twice. Whatever is appended, read and trimmed, in
  -- whatever order, where nothing is trimmed that the tail has not read, after one more read the tail has
  -- got, in order, what it had, the events that it had not read and those appended since, but for retries.
  pub log_steps-sent :
      (xs : List (LogStep E)) (t : Tail E)
      → IsTail t
      → TrimsRead xs t
      → (log_step reads (log_steps xs t)).got ≡ t.got ++ sent (pending t ++ appended xs)
  unfolding owed
  log_steps-sent xs t h read =
      let t' = log_steps xs t in
      let kept = owed_end xs t h read in
      ap (λ o. (read_into o t').got) (read_tail-pending t' kept.tail)
      ∙ (ap (λ es. t'.got ++ sent es) (sym (append-nil (pending t')))
          ∙ (kept.same [] ∙ ap (λ es. t.got ++ sent (pending t ++ es)) (append-nil (appended xs))))
