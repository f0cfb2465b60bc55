-- ===== src/Orchestrator/Session.antt =====
-- One session's lifetime (session/orchestrator/session.go). `handle` with a turn running is
-- `handle_running` of Turn; here is what it does with none, and the loop over the wakes.
pub mod Loop
mod Tests
use tacklr.Base.{
  ℕ, zero, suc, ◌+◌, Bool, true, false, not, ◌&&◌, ◌||◌, Option, none, some, List, [], ◌∷◌, ◌++◌,
  Bytes, Dict, is_empty, is_some, length, if◌then◌else◌,
}
use tacklr.Failure.{Failure, Result, ok, err, context_canceled}
use tacklr.Message.{Message}
use tacklr.Mounts.{AuthContext, no_auth}
use tacklr.Orchestrator.State.{
  State, Carrier, Prompt, Resume, Wake, prompt, resume, cancel, close, suspend, job, Terminal,
  complete, failed, Job, TurnKind, on_prompt, on_resume, on_continue, TurnStart, turn_complete,
  failure_event_of, or_keep, steer, start_turn, user_message_of,
}
use tacklr.Orchestrator.Runtime.{Runtime, Sys}
use tacklr.Orchestrator.Jobs.{job_ended, cancel_each, cancel_jobs}
use tacklr.Orchestrator.Turn.{with_turn, with_world, drive}

-- `runner`: the state of one Run besides its turn; `running` is the argument of the handlers.
pub record Runner (W : Type 0) : Type 0 where
  pub sys : Sys W
  pub suspended : Bool

-- A result of Go's `(string, error)`.
pub data RunResult : Type 0 where
  returned : Result Bytes → RunResult
  run_suspended : RunResult

-- `taskDone`
unfoldable pub task_done : State → Bool
task_done t = t.identity.task && is_some t.terminal && not t.yielded

-- `applyQueued`
unfoldable pub apply_queued : Prompt → State → State
apply_queued p t = elim (or_keep p.mcp_servers t.next_mcp) [
  | none ↦ t
  | some servers ↦ record t { mcp = servers; next_mcp = none }
]

-- `taskResult`
unfoldable pub task_result : State → Result Bytes
task_result t = elim t.terminal [
  | some failed ↦ elim t.failure [ some e ↦ err e | none ↦ ok [] ]
  | _ ↦ ok t.result
]

-- A turn that ended or parked has nothing to go on with, so a suspend that came in does not stop it.
unfoldable pub settle : State → State
settle t = if is_some t.terminal || t.yielded then record t { suspended = false } else t

module _ {W : Type 0} (rt : Runtime W) where
  -- `runner.drive`
  unfoldable pub drive_turn : ℕ → Option Message → Dict Bytes → Sys W → Option (Runner W)
  unfolding settle
  drive_turn fuel user answers s = elim (drive rt fuel user answers s) [
    | none ↦ none
    | some s' ↦
        let settled = with_turn settle s' in
        some (record { sys = settled; suspended = settled.turn.suspended })
  ]

  ended_turn : Option (Runner W) → Option (Runner W)
  ended_turn none = none
  ended_turn (some r) = some (record r { sys = with_world rt.end_turn r.sys })

  begun : TurnStart → Sys W → Sys W
  begun ts s =
      let (span, w) = rt.begin ts s.world in
      record { turn = record s.turn { span = span }; world = w }

  -- `runTurn`
  unfoldable pub run_turn :
      ℕ
      → TurnStart
      → Option Message
      → Dict Bytes
      → AuthContext
      → Dict Bytes
      → Sys W
      → Option (Runner W)
  unfolding drive_turn ended_turn begun
  run_turn fuel ts user answers auth extra s =
      ended_turn (drive_turn fuel user answers (with_turn (start_turn auth extra) (begun ts s)))

  -- How a worker's body ended.
  worker_ended : Result Bytes → Sys W → Sys W
  worker_ended (err e) s = record {
    turn = record s.turn { failure = some e; terminal = some failed; result = e.text };
    world = rt.emit (failure_event_of e) s.world;
  }
  worker_ended (ok out) s = record {
    turn = record s.turn { failure = none; terminal = some complete; result = out };
    world = rt.emit turn_complete s.world;
  }

  -- `runWorker`
  unfoldable pub run_worker : Bytes → Sys W → Sys W
  unfolding worker_ended begun
  run_worker task s =
      let ts : TurnStart = record {
        kind = on_prompt;
        prompt_len = length task;
        resumes = 0;
        parent = s.turn.trace;
        link = [];
      } in
      let s1 = begun ts s in
      let (r, w) = rt.run_job s1.turn.identity.worker task s1.world in
      with_world rt.end_turn (worker_ended r (record s1 { world = w }))

  -- `runner.cancel`
  unfoldable pub cancel_idle : Sys W → Sys W
  cancel_idle s =
      let s1 = with_turn (λ t. record t { inbox = []; next_mcp = none }) (cancel_jobs rt s) in
      elim s.turn.yielded [
        | false ↦ s1
        | true ↦ record {
          turn = record s1.turn {
            yielded = false;
            state = none;
            terminal = some failed;
            failure = some context_canceled;
          };
          world = rt.emit (failure_event_of context_canceled) s1.world;
        }
      ]

  -- A prompt with no turn running: it steers a parked turn, runs a worker's job, or starts a turn.
  idle_prompt : ℕ → Prompt → Carrier → Bool → Bool → Runner W → Option (Runner W)
  unfolding run_turn run_worker
  idle_prompt fuel p trace true is_worker r = some (record r { sys = with_turn (steer p) r.sys })
  idle_prompt fuel p trace false true r =
      let s = with_turn (λ t. record t { trace = trace }) r.sys in
      some (record r { sys = run_worker (user_message_of p.text p.user_message).content s })
  idle_prompt fuel p trace false false r =
      let user = user_message_of p.text p.user_message in
      let s = with_turn (λ t. record (apply_queued p t) { trace = trace }) r.sys in
      let ts : TurnStart = record {
        kind = on_prompt;
        prompt_len = length user.content;
        resumes = 0;
        parent = trace;
        link = [];
      } in
      run_turn fuel ts (some user) [] p.auth p.state s

  idle_resume : ℕ → Resume → Carrier → Runner W → Option (Runner W)
  unfolding run_turn
  idle_resume fuel a trace r =
      let s = with_turn (λ t. record t { yielded = false }) r.sys in
      let ts : TurnStart = record {
        kind = on_resume;
        prompt_len = 0;
        resumes = length a.responses;
        parent = s.turn.trace;
        link = trace;
      } in
      run_turn fuel ts none a.responses a.auth a.state s

  -- `handle` with no turn running.
  unfoldable pub handle : ℕ → Wake → Runner W → Option (Runner W)
  unfolding idle_prompt idle_resume
  handle fuel (job end) r = some (record r { sys = with_turn (job_ended end) r.sys })
  handle fuel suspend r = some (record r { suspended = true })
  handle fuel cancel r = some (record r { sys = cancel_idle r.sys })
  handle fuel (prompt p trace) r =
      idle_prompt fuel p trace r.sys.turn.yielded (not (is_empty r.sys.turn.identity.worker)) r
  handle fuel (resume a trace) r = idle_resume fuel a trace r
  handle fuel close r =
      some (record r { sys = with_turn (λ t. record t { yielded = false; closed = true }) r.sys })

  -- `runner.next`: a held wake first, else the mailbox's, blocking.
  next_wake : List Wake → Sys W → Option Wake × Sys W
  next_wake (k ∷ ks) s = (some k, with_turn (λ t. record t { held = ks }) s)
  next_wake [] s = let (k, w) = rt.next true s.world in (k, record s { world = w })

  handle_next : ℕ → Option Wake → Runner W → Option (Runner W)
  unfolding handle
  handle_next fuel none r = some r
  handle_next fuel (some k) r = handle fuel k r

  -- The loop of `runner.run`.
  unfoldable pub session_loop : ℕ → Runner W → Option (Runner W)
  unfolding next_wake handle_next
  session_loop zero r = none
  session_loop (suc fuel) r =
      elim (not r.sys.turn.closed && not r.suspended && not (task_done r.sys.turn)) [
        | false ↦ some r
        | true ↦
            let (k, s) = next_wake r.sys.turn.held r.sys in
            elim (handle_next fuel k (record r { sys = s })) [
              | none ↦ none
              | some r' ↦ session_loop fuel r'
            ]
      ]

  -- The turn that the runtime suspended goes on.
  go_on_suspended : ℕ → Sys W → Option (Runner W)
  unfolding drive_turn ended_turn begun
  go_on_suspended fuel s = elim s.turn.suspended [
    | false ↦ some (record { sys = s; suspended = false })
    | true ↦
        let ts : TurnStart = record {
          kind = on_continue;
          prompt_len = 0;
          resumes = 0;
          parent = s.turn.trace;
          link = [];
        } in
        ended_turn
          (drive_turn fuel none [] (with_turn (λ t. record t { suspended = false }) (begun ts s)))
  ]

  -- `runner.run`, before its result.
  unfoldable pub run_session : ℕ → Sys W → Option (Runner W)
  unfolding go_on_suspended session_loop
  run_session fuel s = elim (go_on_suspended fuel s) [ none ↦ none | some r ↦ session_loop fuel r ]

  run_result : Runner W → RunResult × Sys W
  run_result r = elim r.suspended [
    | true ↦ (run_suspended, r.sys)
    | false ↦
        let t = r.sys.turn in
        (
          returned (if t.identity.task then task_result t else ok t.result),
          with_world (cancel_each rt t.jobs) r.sys,
        )
  ]

  -- `Run`
  unfoldable pub run : ℕ → Sys W → Option (RunResult × Sys W)
  unfolding run_session run_result
  run fuel s = elim (run_session fuel s) [ none ↦ none | some r ↦ some (run_result r) ]
