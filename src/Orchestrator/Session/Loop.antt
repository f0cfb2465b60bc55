-- ===== src/Orchestrator/Session/Loop.antt =====
-- When a Run ends, and with what (session/orchestrator/session.go).
use tacklr.Base.{
  ◌≡◌, ◌≢◌, ◌⊎◌, Bytes, List, [], ◌∷◌, ◌++◌, map, keep, true, false, not, Option, none, some,
}
use tacklr.Failure.{Failure, ok, err}
use tacklr.Orchestrator.State.{State, failed, Job}
use tacklr.Orchestrator.Runtime.{Runtime, Sys}
use tacklr.Orchestrator.Session.{Runner, RunResult, returned, run_suspended, task_done}

module _ {W : Type 0} (rt : Runtime W) where
  -- The session takes no more wakes: it is closed, suspended, or a task whose turn ended.
  pub data Over (r : Runner W) : Type 0 where
    closes : r.sys.turn.closed ≡ true → Over r
    is_suspended : r.suspended ≡ true → Over r
    task_ends : task_done r.sys.turn ≡ true → Over r

  abbrev AllOver : Option (Runner W) → Type 0
  AllOver none = Unit
  AllOver (some r) = Over r

  -- What a Run returns: a task's failure, "" of a failed task that has none, or the last result.
  pub data Returns (t : State) (res : RunResult) : Type 0 where
    last_result : t.identity.task ≡ false → res ≡ returned (ok t.result) → Returns t res
    task_failure :
        (e : Failure)
        → t.identity.task ≡ true
        → t.terminal ≡ some failed
        → t.failure ≡ some e
        → res ≡ returned (err e)
        → Returns t res
    task_no_failure :
        t.identity.task ≡ true
        → t.terminal ≡ some failed
        → t.failure ≡ none
        → res ≡ returned (ok [])
        → Returns t res
    task_last_result :
        t.identity.task ≡ true
        → t.terminal ≢ some failed
        → res ≡ returned (ok t.result)
        → Returns t res

  -- A log of the cancels that the runtime was asked for: each is put at its end.
  abbrev pub IsLog : (W → List Bytes) → Type 0
  IsLog log = (id : Bytes) (w : W) → log (rt.cancel_job id w) ≡ log w ++ id ∷ []

  abbrev pub open_ids : List Job → List Bytes
  open_ids jobs = map (λ (j : Job). j.id) (keep (λ (j : Job). not j.ended) jobs)

  -- How a Run ends: suspended, as it is; or with its result, its runtime asked at last to cancel each job
  -- that has not ended, in order, and no other.
  pub data RunEnds (log : W → List Bytes) (res : RunResult) (s : Sys W) : Type 0 where
    suspends : res ≡ run_suspended → RunEnds log res s
    returns :
        (before : List Bytes)
        → Returns s.turn res
        → log s.world ≡ before ++ open_ids s.turn.jobs
        → (s.turn.closed ≡ true) ⊎ (task_done s.turn ≡ true)
        → RunEnds log res s

  abbrev AllRunEnds : (W → List Bytes) → Option (RunResult × Sys W) → Type 0
  AllRunEnds log none = Unit
  AllRunEnds log (some (res, s)) = RunEnds log res s
