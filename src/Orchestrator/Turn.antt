-- ===== src/Orchestrator/Turn.antt =====
-- One turn (`State.drive` of turn.go) with the wakes that come in while it runs (`handle` and `pump`
-- of session/orchestrator/session.go). The loops take fuel: `none` says that it ran out, or that the
-- code panics.
pub mod Wakes
pub mod Ending
pub mod Revisions
pub mod Answers
pub mod Unasked
mod Tests
use tacklr.Base.{
  ℕ, zero, suc, ◌+◌, Bool, true, false, not, ◌&&◌, ◌||◌, Option, none, some, List, [], ◌∷◌, ◌++◌,
  map, Bytes, Dict, is_empty, is_some, if◌then◌else◌,
}
use tacklr.Failure.{Failure, Result, ok, err, canceled, context_length, is, context_canceled, join}
use tacklr.Message.{Message}
use tacklr.Call.{Call, Park, Reply, Round, new_round, is_complete, parked}
use tacklr.Orchestrator.State.{
  State, Wake, prompt, resume, cancel, close, suspend, job, Terminal, complete, failed, Job,
  CommitIn, nothing_to_commit, Event, turn_complete, interrupt, failure_event_of, steer,
}
use tacklr.Orchestrator.Runtime.{Runtime, Sys}
use tacklr.Orchestrator.Jobs.{job_ended, job_ids, job_runs, cancel_jobs}
use tacklr.Orchestrator.Rounds.{unknown_answer, park_at, runs, any_waits, Recorded, record_calls}

-- What `handle` does with a wake while a turn runs.
unfoldable pub handle_running : Wake → State → State
handle_running (job end) t = job_ended end t
handle_running suspend t = record t { suspended = true }
handle_running cancel t = record t { cancelled = true }
handle_running (prompt p trace) t = steer p t
handle_running (resume r trace) t = record t { held = t.held ++ resume r trace ∷ [] }
handle_running close t = record t { held = t.held ++ close ∷ [] }

-- What `drive` commits first: a prompt, with the open round that it moves past.
first_commit : Option Message → State → CommitIn
first_commit none t = nothing_to_commit
first_commit (some m) t = record nothing_to_commit { round = t.round; users = m ∷ [] }

moved_past : Option Message → State → State
moved_past none t = t
moved_past (some m) t = record t { round = none }

-- Whether answers came with no round open to take them.
unasked : Option Round → Dict Bytes → Bool
unasked none (_ ∷ _) = true
unasked _ _ = false

-- Where a round of the turn's loop leaves it: it goes round again, with the answers not yet taken
-- and whether the model is asked again after a collapse, or the turn stops.
pub data Turn (W : Type 0) : Type 0 where
  again : (resume : Dict Bytes) (refit : Bool) → Sys W → Turn W
  stopped : Sys W → Turn W

module _ {W : Type 0} where
  abbrev pub with_turn : (State → State) → Sys W → Sys W
  with_turn f s = record s { turn = f s.turn }

  abbrev pub with_world : (W → W) → Sys W → Sys W
  with_world f s = record s { world = f s.world }

  -- `if !commit(…) { return }`
  abbrev pub after_commit : Bool × Sys W → (Sys W → Turn W) → Turn W
  after_commit (true, s) k = k s
  after_commit (false, s) k = stopped s

  -- `if stopped(…) { return }`
  abbrev pub after_stop : Option (Bool × Sys W) → (Sys W → Option (Turn W)) → Option (Turn W)
  after_stop none k = none
  after_stop (some (true, s)) k = some (stopped s)
  after_stop (some (false, s)) k = k s

module _ {W : Type 0} (rt : Runtime W) where
  -- `pump` with the turn running.
  unfoldable pub pump : ℕ → Bool → Sys W → Option (Sys W)
  unfolding handle_running
  pump zero block s = none
  pump (suc fuel) block s =
      let (wake, w) = rt.next block s.world in
      elim wake [
        | none ↦ some (record s { world = w })
        | some k ↦ pump fuel false (record { turn = handle_running k s.turn; world = w })
      ]

  -- What a failure that is a cancel drops.
  drop_work : Bool → Sys W → Sys W
  drop_work false s = s
  drop_work true s = cancel_jobs rt (with_turn (λ t. record t { inbox = []; next_mcp = none }) s)

  -- `fail`
  unfoldable pub fail : Failure → Sys W → Sys W
  unfolding drop_work
  fail e s =
      let s1 = with_turn (λ t. record t { failure = some e; terminal = some failed }) s in
      with_world (rt.emit (failure_event_of e)) (drop_work (is e canceled) s1)

  -- What `stopped` finds once the wakes are handled.
  check_stop : Bool → Sys W → Bool × Sys W
  check_stop true s =
      (true, fail context_canceled (with_turn (λ t. record t { cancelled = false }) s))
  check_stop false s = (s.turn.suspended, s)

  -- `stopped`
  unfoldable pub stop_asked : ℕ → Bool → Sys W → Option (Bool × Sys W)
  unfolding check_stop
  stop_asked fuel block s = elim (pump fuel block s) [
    | none ↦ none
    | some s' ↦ some (check_stop s'.turn.cancelled s')
  ]

  commit_result : Result Bytes → Sys W → Bool × Sys W
  commit_result (err e) s = (false, fail e s)
  commit_result (ok rev) s = (true, with_turn (λ t. record t { state = none; rev = rev }) s)

  -- `commit`
  unfoldable pub commit : CommitIn → Sys W → Bool × Sys W
  unfolding commit_result
  commit in_ s =
      let (r, w) = rt.commit s.turn.rev (record in_ { state = s.turn.state }) s.world in
      commit_result r (record s { world = w })

  -- After `record`: the round as it is, and its failure.
  after_record : Round → Bool → Recorded W → State → Turn W
  after_record r refit rec t =
      let s : Sys W = record {
        turn = record t { round = some (record r { calls = rec.calls }); jobs = rec.jobs };
        world = rec.world;
      } in
      elim (join rec.errors) [ ok _ ↦ again [] refit s | err e ↦ stopped (fail e s) ]

  -- The runs of a step, with the session's jobs, and what `record` makes of them.
  unfoldable pub run_step : Round → Bool → List Call → Sys W → Option (Turn W)
  unfolding after_record
  run_step r refit cs s =
      let sent = map (λ (c : Call). record c { jobs = job_ids s.turn.jobs }) cs in
      let (ran, w) = rt.tools sent s.world in
      let start : Recorded W = record {
        calls = r.calls;
        jobs = s.turn.jobs;
        world = w;
        errors = [];
      } in
      elim (record_calls rt ran start) [
        | none ↦ none
        | some rec ↦ some (after_record r refit rec s.turn)
      ]

  -- The round waits on its parked call; `none` is the panic when no call is parked.
  yield_on : Option Park → Sys W → Option (Turn W)
  yield_on none s = none
  yield_on (some p) s = some (
      stopped (record {
        turn = record s.turn { yielded = true };
        world = rt.emit (interrupt p.interrupt_id p.payload) s.world;
      }))

  -- No job of the round has ended: the turn waits for a wake.
  wait_or_run : ℕ → Round → Bool → List Call → Sys W → Option (Turn W)
  unfolding run_step
  wait_or_run fuel r refit [] s = after_stop (stop_asked fuel true s) λ s'. some (again [] refit s')
  wait_or_run fuel r refit (c ∷ cs) s = run_step r refit (c ∷ cs) s

  -- The round's calls that run next, none of them a parked or a pending one.
  idle_round : ℕ → Round → Bool → Bool → Sys W → Option (Turn W)
  unfolding wait_or_run yield_on
  idle_round fuel r refit true s =
      let (cs, jobs) = job_runs r.calls s.turn.jobs in
      wait_or_run fuel r refit cs (with_turn (λ t. record t { jobs = jobs }) s)
  idle_round fuel r refit false s = yield_on (park_at (parked r.calls) r.calls) s

  run_round : ℕ → Round → Bool → List Call → Sys W → Option (Turn W)
  unfolding idle_round
  run_round fuel r refit [] s = idle_round fuel r refit (any_waits r.calls) s
  run_round fuel r refit (c ∷ cs) s = run_step r refit (c ∷ cs) s

  -- The loop's body with an open round.
  unfoldable pub round_step : ℕ → Round → Dict Bytes → Bool → Sys W → Option (Turn W)
  unfolding run_round
  round_step fuel r answers refit s = elim (is_complete r.calls) [
    | true ↦ some (
        after_commit (commit (record nothing_to_commit { round = some r }) s)
          λ s'. again answers refit (with_turn (λ t. record t { round = none }) s'))
    | false ↦ elim (runs r.calls answers) [
      | err e ↦ some (stopped (fail e s))
      | ok cs ↦ run_round fuel r refit cs s
    ]
  ]

  -- What the model's reply makes of the turn.
  after_reply : Dict Bytes → Reply → Sys W → Turn W
  after_reply answers reply s = elim reply.calls [
    | [] ↦
        after_commit
          (commit (record nothing_to_commit { round = some (record { reply = reply; calls = [] }) })
            s)
          λ s'.
            again answers false
              (with_turn (λ t. record t { result = reply.result; finished = true }) s')
    | _ ∷ _ ↦ again answers false (with_turn (λ t. record t { round = some (new_round reply) }) s)
  ]

  -- A request refused as too long collapses the window, once.
  after_refusal : Bool → Dict Bytes → Bool → Failure → Sys W → Turn W
  after_refusal true answers refit e s =
      after_commit (commit (record nothing_to_commit { collapse = true }) s) (again answers true)
  after_refusal false answers refit e s = stopped (fail e s)

  unfoldable pub ask_model : Dict Bytes → Bool → Sys W → Turn W
  unfolding after_reply after_refusal
  ask_model answers refit s =
      let (r, w) = rt.infer s.world in
      let s' = record s { world = w } in
      elim r [
        | ok reply ↦ after_reply answers reply s'
        | err e ↦ after_refusal (is e context_length && not refit) answers refit e s'
      ]

  -- The model is done: the turn completes, or waits for its jobs.
  finish_turn : ℕ → Dict Bytes → Bool → List Job → Sys W → Option (Turn W)
  finish_turn fuel answers refit [] s = some (
      stopped (record {
        turn = record s.turn { terminal = some complete };
        world = rt.emit turn_complete s.world;
      }))
  finish_turn fuel answers refit (_ ∷ _) s =
      after_stop (stop_asked fuel true s) λ s'. some (again answers refit s')

  -- `if t.Finished …`, else the model is asked.
  go_on : ℕ → Dict Bytes → Bool → Sys W → Option (Turn W)
  unfolding finish_turn ask_model
  go_on fuel answers refit s = elim s.turn.finished [
    | true ↦ finish_turn fuel answers refit s.turn.jobs s
    | false ↦ some (ask_model answers refit s)
  ]

  -- The users' messages that came in commit first.
  take_inbox : ℕ → Dict Bytes → Bool → List Message → Sys W → Option (Turn W)
  unfolding go_on
  take_inbox fuel answers refit [] s = go_on fuel answers refit s
  take_inbox fuel answers refit (m ∷ ms) s =
      let taken =
        commit (record nothing_to_commit { users = m ∷ ms })
          (with_turn (λ t. record t { inbox = [] }) s) in
      elim taken.0 [
        | false ↦ some (stopped taken.1)
        | true ↦ go_on fuel answers refit (with_turn (λ t. record t { finished = false }) taken.1)
      ]

  -- The loop's body with no open round.
  unfoldable pub idle_step : ℕ → Dict Bytes → Bool → Sys W → Option (Turn W)
  unfolding take_inbox
  idle_step fuel answers refit s =
      after_stop (stop_asked fuel false s) λ s'. take_inbox fuel answers refit s'.turn.inbox s'

  -- The loop's body.
  unfoldable pub turn_step : ℕ → Dict Bytes → Bool → Sys W → Option (Turn W)
  unfolding round_step idle_step
  turn_step fuel answers refit s = elim s.turn.round [
    | some r ↦ round_step fuel r answers refit s
    | none ↦ idle_step fuel answers refit s
  ]

  -- The loop of `drive`.
  unfoldable pub turn_loop : ℕ → Dict Bytes → Bool → Sys W → Option (Sys W)
  unfolding turn_step
  turn_loop zero answers refit s = none
  turn_loop (suc fuel) answers refit s = elim (turn_step fuel answers refit s) [
    | none ↦ none
    | some (stopped s') ↦ some s'
    | some (again answers' refit' s') ↦ turn_loop fuel answers' refit' s'
  ]

  -- Such an answer is an error; `unknownAnswer` finds none in an answer to the id "", and then
  -- `fail` panics on the nil error.
  start_loop : ℕ → Dict Bytes → Sys W → Option (Sys W)
  unfolding turn_loop unasked
  start_loop fuel answers s = elim (unasked s.turn.round answers) [
    | true ↦ elim (unknown_answer answers []) [ err e ↦ some (fail e s) | ok _ ↦ none ]
    | false ↦ turn_loop fuel answers false s
  ]

  -- `State.drive`
  unfoldable pub drive : ℕ → Option Message → Dict Bytes → Sys W → Option (Sys W)
  unfolding first_commit moved_past start_loop
  drive fuel user answers s =
      let s1 = with_turn (moved_past user) s in
      elim (is_some user || is_some s.turn.state) [
        | false ↦ start_loop fuel answers s1
        | true ↦
            let (done, s2) = commit (first_commit user s.turn) s1 in
            elim done [ false ↦ some s2 | true ↦ start_loop fuel answers s2 ]
      ]
