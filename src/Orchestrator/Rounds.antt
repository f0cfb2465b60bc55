-- ===== src/Orchestrator/Rounds.antt =====
-- The open round (turn.go): which calls run next, and how their runs are put back.
pub mod Next
pub mod Parks
pub mod World
pub mod Finishes
pub mod Shadowed
mod Tests
use tacklr.Base.{
  ℕ, zero, suc, Bool, true, false, not, ◌&&◌, ◌||◌, Option, none, some, List, [], ◌∷◌, ◌++◌, Bytes,
  codes, text_eq, ◌==◌, Dict, lookup, find_index?, get_elem?, set, is_some, any, if◌then◌else◌,
}
use tacklr.Failure.{Failure, Result, ok, err, wrap, interrupt_not_found, join}
use tacklr.Call.{Call, Park, Round, new_call, call_key, is_parked, is_pending, waits, parked}
use tacklr.Orchestrator.State.{State, Job}
use tacklr.Orchestrator.Runtime.{Runtime, Sys}
use tacklr.Orchestrator.Jobs.{start_jobs}

-- `unknownAnswer`: an error when an answer is to another id.
unfoldable pub unknown_answer : Dict Bytes → Bytes → Result (Unit {0})
unknown_answer [] id = ok tt
unknown_answer ((key, _) ∷ rest) id =
    if text_eq key id
    then unknown_answer rest id
    else err (wrap (codes "no tool call id found for interrupt") interrupt_not_found)

abbrev pub cons_run : Call → Option (List Call) → Option (List Call)
cons_run c none = none
cons_run c (some cs) = some (c ∷ cs)

-- The loop of `runs`, where the first index is the parked call's place in the calls left, and the
-- answer is the one to its interrupt. `none`: the call is still parked, so nothing runs.
unfoldable pub runs_from : Option ℕ → Option Bytes → List Call → Option (List Call)
runs_from p answer [] = some []
runs_from none answer (c ∷ cs) =
    let rest = runs_from none answer cs in if not (is_pending c) then rest else cons_run c rest
runs_from (some zero) answer (c ∷ cs) =
    let rest = runs_from none answer cs in
    elim answer [ none ↦ none | some a ↦ cons_run (record c { answer = some a }) rest ]
runs_from (some (suc i)) answer (c ∷ cs) =
    let rest = runs_from (some i) answer cs in if not (is_pending c) then rest else cons_run c rest

-- The interrupt id of the parked call, "" with none.
abbrev pub park_id : Option Park → Bytes
park_id none = []
park_id (some p) = p.interrupt_id

abbrev pub park_at : Option ℕ → List Call → Option Park
park_at none calls = none
park_at (some i) [] = none
park_at (some zero) (c ∷ cs) = c.park
park_at (some (suc i)) (c ∷ cs) = park_at (some i) cs

abbrev pub or_nothing : Option (List Call) → List Call
or_nothing none = []
or_nothing (some cs) = cs

-- `State.runs`
unfoldable pub runs : List Call → Dict Bytes → Result (List Call)
unfolding unknown_answer runs_from
runs calls resume =
    let id = park_id (park_at (parked calls) calls) in
    elim (unknown_answer resume id) [
      | err e ↦ err e
      | ok _ ↦ ok (or_nothing (runs_from (parked calls) (lookup id resume) calls))
    ]

-- `State.waits`
abbrev pub any_waits : List Call → Bool
any_waits calls = any waits calls

-- Whether `r.Parked()` is another call than the one at `i`: `r.Parked() >= 0 && r.Parked() != i`.
abbrev pub other_parked : Option ℕ → ℕ → Bool
other_parked none i = false
other_parked (some p) i = not (p == i)

-- The call that `record` keeps at `i` of a run: a call that parks while another is parked runs
-- again later.
unfoldable pub kept_call : List Call → ℕ → Call → Call
kept_call calls i c =
    if is_parked c && other_parked (parked calls) i then new_call c.tool c.timeout else c

-- Whether `record` counts the run: then it starts and cancels the jobs that the run asks for.
unfoldable pub counts : List Call → ℕ → Call → Bool
counts calls i c = not (is_parked c && other_parked (parked calls) i)

-- What `record` changes: the round's calls, the jobs, the runtime's world, and the errors so far.
pub record Recorded (W : Type 0) : Type 0 where
  pub calls : List Call
  pub jobs : List Job
  pub world : W
  pub errors : List Failure

abbrev pub failures : Option Failure → List Failure
failures none = []
failures (some e) = e ∷ []

module _ {W : Type 0} (rt : Runtime W) where
  -- The jobs that a counted run asks for are cancelled and started.
  launched : Bool → Call → Recorded W → Option Failure × List Job × W
  launched false c s = (none, s.jobs, s.world)
  launched true c s = start_jobs rt c s.jobs s.world

  -- The loop's body, for the run of the call at `i`.
  unfoldable pub record_at : ℕ → Call → Recorded W → Recorded W
  unfolding launched
  record_at i c s =
      let (failed, jobs, world) = launched (counts s.calls i c) c s in
      record {
        calls = set s.calls i (kept_call s.calls i c);
        jobs = jobs;
        world = world;
        errors = s.errors ++ failures failed;
      }

  -- The run of the call at the index; `none` is the panic on a call that is not of the round.
  record_found : Option ℕ → Call → Recorded W → Option (Recorded W)
  record_found none c s = none
  record_found (some i) c s = some (record_at i c s)

  -- A run whose step failed changes nothing of the round.
  record_outcome : Option Failure → Call → Recorded W → Option (Recorded W)
  unfolding record_found
  record_outcome (some e) c s = some (record s { errors = s.errors ++ e ∷ [] })
  record_outcome none c s =
      record_found (find_index? (λ rc. text_eq (call_key rc) (call_key c)) s.calls) c s

  -- One run of the loop of `record`.
  unfoldable pub record_call : Call → Recorded W → Option (Recorded W)
  unfolding record_outcome
  record_call c s = record_outcome c.failure c s

  -- `State.record`
  unfoldable pub record_calls : List Call → Recorded W → Option (Recorded W)
  unfolding record_call
  record_calls [] s = some s
  record_calls (c ∷ cs) s = elim (record_call c s) [ none ↦ none | some s' ↦ record_calls cs s' ]
