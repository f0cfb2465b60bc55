-- ===== src/Orchestrator/Turn/Revisions.antt =====
-- The revisions of a turn and of its runtime's record (`drive` of turn.go).
use tacklr.Base.{
  ℕ, zero, suc, ◌≡◌, sym, subst, Bool, true, false, not, ◌&&◌, ◌||◌, Option, none, some, inl, inr,
  Bool-cases, Option-cases, is_some, List, [], ◌∷◌, Bytes, Dict,
}
use tacklr.Failure.{
  Failure, Result, ok, err, Result-cases, context_length, canceled, is, context_canceled, join,
}
use tacklr.Message.{Message, ToolCall}
use tacklr.Call.{Call, Park, Reply, Round, new_round, is_complete}
use tacklr.Orchestrator.State.{State, Job, CommitIn, nothing_to_commit}
use tacklr.Orchestrator.Runtime.{Runtime, Sys, Advanced, Follows}
use tacklr.Orchestrator.Jobs.{cancel_jobs}
use tacklr.Orchestrator.Rounds.{unknown_answer, runs, any_waits, Recorded}
use tacklr.Orchestrator.Rounds.World.{cancel_each-At, RecordedAt, record_calls-At}
use tacklr.Orchestrator.Turn.{
  Turn, again, stopped, with_turn, after_commit, after_stop, drop_work, fail, check_stop,
  stop_asked, pump, commit_result, commit, after_record, run_step, yield_on, wait_or_run,
  idle_round, run_round, round_step, after_reply, after_refusal, ask_model, finish_turn, go_on,
  take_inbox, idle_step, turn_step, turn_loop, first_commit, moved_past, unasked, start_loop, drive,
}
use tacklr.Orchestrator.Turn.Wakes.{handle_running-Keeps}

module _ {W : Type 0} (rt : Runtime W) (At : Bytes → W → Type 0) (follows : Follows rt At) where
  abbrev pub Holds : Sys W → Type 0
  Holds s = At s.turn.rev s.world

  abbrev TurnHolds : Option (Turn W) → Type 0
  TurnHolds none = Unit
  TurnHolds (some (again answers refit s)) = Holds s
  TurnHolds (some (stopped s)) = Holds s

  abbrev SysHolds : Option (Sys W) → Type 0
  SysHolds none = Unit
  SysHolds (some s) = Holds s

  abbrev StopHolds : Option (Bool × Sys W) → Type 0
  StopHolds none = Unit
  StopHolds (some (b, s)) = Holds s

  drop_work-Holds : (b : Bool) (s : Sys W) → Holds s → Holds (drop_work rt b s)
  unfolding drop_work cancel_jobs
  drop_work-Holds false s h = h
  drop_work-Holds true s h = cancel_each-At rt At follows s.turn.rev s.turn.jobs s.world h

  fail-Holds : (e : Failure) (s : Sys W) → Holds s → Holds (fail rt e s)
  unfolding fail
  fail-Holds e s h = follows.emit _ _ _ (drop_work-Holds (is e canceled) _ h)

  pump-SysHolds : (fuel : ℕ) (block : Bool) (s : Sys W) → Holds s → SysHolds (pump rt fuel block s)
  unfolding pump
  pump-SysHolds zero block s h = tt
  pump-SysHolds (suc fuel) block s h = elim (Option-cases (rt.next block s.world).0) [
    | inl e ↦ rw (e, pump) (follows.next s.turn.rev block s.world h)
    | inr (k, e) ↦
        rw (e, pump)
          (pump-SysHolds fuel false _ (
            subst (λ r. At r (rt.next block s.world).1) (sym (handle_running-Keeps k s.turn).rev)
              (follows.next s.turn.rev block s.world h)))
  ]

  check_stop-Holds : (b : Bool) (s : Sys W) → Holds s → Holds (check_stop rt b s).1
  unfolding check_stop
  check_stop-Holds true s h = fail-Holds context_canceled _ h
  check_stop-Holds false s h = h

  stop_asked-StopHolds :
      (fuel : ℕ) (block : Bool) (s : Sys W) → Holds s → StopHolds (stop_asked rt fuel block s)
  unfolding stop_asked
  stop_asked-StopHolds fuel block s h = pumped (pump rt fuel block s) (pump-SysHolds fuel block s h)
    where
      pumped :
          (o : Option (Sys W))
          → SysHolds o
          → StopHolds (elim o [ none ↦ none | some s' ↦ some (check_stop rt s'.turn.cancelled s') ])
      pumped none k = tt
      pumped (some s') k = check_stop-Holds s'.turn.cancelled s' k

  commit_result-Holds :
      (r : Result Bytes × W) (t : State)
      → Advanced At t.rev r
      → Holds (commit_result rt r.0 (record { turn = t; world = r.1 })).1
  unfolding commit_result
  commit_result-Holds (ok rev, w) t h = h
  commit_result-Holds (err e, w) t h = fail-Holds e _ h

  commit-Holds : (c : CommitIn) (s : Sys W) → Holds s → Holds (commit rt c s).1
  unfolding commit
  commit-Holds c s h =
      commit_result-Holds _ s.turn
        (follows.commit s.turn.rev (record c { state = s.turn.state }) s.world h)

  commit-TurnHolds :
      (c : CommitIn) (s : Sys W) (k : Sys W → Turn W)
      → Holds s
      → ((s' : Sys W) → Holds s' → TurnHolds (some (k s')))
      → TurnHolds (some (after_commit (commit rt c s) k))
  commit-TurnHolds c s k h next = ended (commit rt c s) (commit-Holds c s h)
    where
      ended : (r : Bool × Sys W) → Holds r.1 → TurnHolds (some (after_commit r k))
      ended (true, s') h' = next s' h'
      ended (false, s') h' = h'

  after_stop-TurnHolds :
      (r : Option (Bool × Sys W)) (k : Sys W → Option (Turn W))
      → StopHolds r
      → ((s : Sys W) → Holds s → TurnHolds (k s))
      → TurnHolds (after_stop r k)
  after_stop-TurnHolds none k h next = tt
  after_stop-TurnHolds (some (true, s)) k h next = h
  after_stop-TurnHolds (some (false, s)) k h next = next s h

  after_record-TurnHolds :
      (r : Round) (refit : Bool) (t : State) (o : Option (Recorded W))
      → RecordedAt rt At follows t.rev o
      → TurnHolds (elim o [ none ↦ none | some rec ↦ some (after_record rt r refit rec t) ])
  unfolding after_record
  after_record-TurnHolds r refit t none h = tt
  after_record-TurnHolds r refit t (some rec) h = elim (Result-cases (join rec.errors)) [
    | inl (e, k) ↦ rw (k, after_record) (fail-Holds e _ h)
    | inr (a, k) ↦ rw (k, after_record) h
  ]

  run_step-TurnHolds :
      (r : Round) (refit : Bool) (cs : List Call) (s : Sys W)
      → Holds s
      → TurnHolds (run_step rt r refit cs s)
  unfolding run_step
  run_step-TurnHolds r refit cs s h =
      after_record-TurnHolds r refit s.turn _
        (record_calls-At rt At follows s.turn.rev _ _ (follows.tools s.turn.rev _ s.world h))

  wait_or_run-TurnHolds :
      (fuel : ℕ) (r : Round) (refit : Bool) (cs : List Call) (s : Sys W)
      → Holds s
      → TurnHolds (wait_or_run rt fuel r refit cs s)
  unfolding wait_or_run
  wait_or_run-TurnHolds fuel r refit [] s h =
      after_stop-TurnHolds _ _ (stop_asked-StopHolds fuel true s h) (λ s' k. k)
  wait_or_run-TurnHolds fuel r refit (c ∷ cs) s h = run_step-TurnHolds r refit (c ∷ cs) s h

  yield_on-TurnHolds : (o : Option Park) (s : Sys W) → Holds s → TurnHolds (yield_on rt o s)
  unfolding yield_on
  yield_on-TurnHolds none s h = tt
  yield_on-TurnHolds (some p) s h = follows.emit s.turn.rev _ s.world h

  idle_round-TurnHolds :
      (fuel : ℕ) (r : Round) (refit b : Bool) (s : Sys W)
      → Holds s
      → TurnHolds (idle_round rt fuel r refit b s)
  unfolding idle_round
  idle_round-TurnHolds fuel r refit true s h = wait_or_run-TurnHolds fuel r refit _ _ h
  idle_round-TurnHolds fuel r refit false s h = yield_on-TurnHolds _ s h

  run_round-TurnHolds :
      (fuel : ℕ) (r : Round) (refit : Bool) (cs : List Call) (s : Sys W)
      → Holds s
      → TurnHolds (run_round rt fuel r refit cs s)
  unfolding run_round
  run_round-TurnHolds fuel r refit [] s h =
      idle_round-TurnHolds fuel r refit (any_waits r.calls) s h
  run_round-TurnHolds fuel r refit (c ∷ cs) s h = run_step-TurnHolds r refit (c ∷ cs) s h

  round_step-TurnHolds :
      (fuel : ℕ) (r : Round) (answers : Dict Bytes) (refit : Bool) (s : Sys W)
      → Holds s
      → TurnHolds (round_step rt fuel r answers refit s)
  unfolding round_step
  round_step-TurnHolds fuel r answers refit s h = elim (Bool-cases (is_complete r.calls)) [
    | inl e ↦
        rw (e, round_step)
          (commit-TurnHolds (record nothing_to_commit { round = some r }) s
            (λ s'. again answers refit (with_turn (λ t. record t { round = none }) s')) h
            (λ s' k. k))
    | inr e ↦ elim (Result-cases (runs r.calls answers)) [
      | inl (x, k) ↦ rw (e, k, round_step) (fail-Holds x s h)
      | inr (cs, k) ↦ rw (e, k, round_step) (run_round-TurnHolds fuel r refit cs s h)
    ]
  ]

  after_reply-TurnHolds :
      (answers : Dict Bytes) (reply : Reply) (s : Sys W)
      → Holds s
      → TurnHolds (some (after_reply rt answers reply s))
  unfolding after_reply
  after_reply-TurnHolds answers reply s h = replied reply.calls
    where
      replied :
          (cs : List ToolCall)
          → TurnHolds (
              some (elim cs [
                | [] ↦
                    after_commit
                      (commit rt
                        (record nothing_to_commit {
                          round = some (record { reply = reply; calls = [] });
                        })
                        s)
                      λ s'.
                        again answers false
                          (with_turn (λ t. record t { result = reply.result; finished = true }) s')
                | _ ∷ _ ↦
                    again answers false
                      (with_turn (λ t. record t { round = some (new_round reply) }) s)
              ]))
      replied [] =
          commit-TurnHolds
            (record nothing_to_commit { round = some (record { reply = reply; calls = [] }) }) s
            (λ s'.
              again answers false
                (with_turn (λ t. record t { result = reply.result; finished = true }) s'))
            h (λ s' k. k)
      replied (_ ∷ _) = h

  after_refusal-TurnHolds :
      (b : Bool) (answers : Dict Bytes) (refit : Bool) (e : Failure) (s : Sys W)
      → Holds s
      → TurnHolds (some (after_refusal rt b answers refit e s))
  unfolding after_refusal
  after_refusal-TurnHolds true answers refit e s h =
      commit-TurnHolds (record nothing_to_commit { collapse = true }) s (again answers true) h
        (λ s' k. k)
  after_refusal-TurnHolds false answers refit e s h = fail-Holds e s h

  ask_model-TurnHolds :
      (answers : Dict Bytes) (refit : Bool) (s : Sys W)
      → Holds s
      → TurnHolds (some (ask_model rt answers refit s))
  unfolding ask_model
  ask_model-TurnHolds answers refit s h = elim (Result-cases (rt.infer s.world).0) [
    | inl (e, k) ↦
        rw (k, ask_model)
          (after_refusal-TurnHolds (is e context_length && not refit) answers refit e _
            (follows.infer _ s.world h))
    | inr (reply, k) ↦
        rw (k, ask_model) (after_reply-TurnHolds answers reply _ (follows.infer _ s.world h))
  ]

  go_on-TurnHolds :
      (fuel : ℕ) (answers : Dict Bytes) (refit : Bool) (s : Sys W)
      → Holds s
      → TurnHolds (go_on rt fuel answers refit s)
  unfolding go_on finish_turn
  go_on-TurnHolds fuel answers refit s h = elim (Bool-cases s.turn.finished) [
    | inl e ↦ rw (e, go_on) (finishes s.turn.jobs)
    | inr e ↦ rw (e, go_on) (ask_model-TurnHolds answers refit s h)
  ]
    where
      finishes : (js : List Job) → TurnHolds (finish_turn rt fuel answers refit js s)
      finishes [] = follows.emit s.turn.rev _ s.world h
      finishes (_ ∷ _) = after_stop-TurnHolds _ _ (stop_asked-StopHolds fuel true s h) (λ s' k. k)

  take_inbox-TurnHolds :
      (fuel : ℕ) (answers : Dict Bytes) (refit : Bool) (ms : List Message) (s : Sys W)
      → Holds s
      → TurnHolds (take_inbox rt fuel answers refit ms s)
  unfolding take_inbox
  take_inbox-TurnHolds fuel answers refit [] s h = go_on-TurnHolds fuel answers refit s h
  take_inbox-TurnHolds fuel answers refit (m ∷ ms) s h = taken _ (commit-Holds _ _ h)
    where
      taken :
          (done : Bool × Sys W)
          → Holds done.1
          → TurnHolds (elim done.0 [
            | false ↦ some (stopped done.1)
            | true ↦
                go_on rt fuel answers refit (with_turn (λ u. record u { finished = false }) done.1)
          ])
      taken (false, s') k = k
      taken (true, s') k =
          go_on-TurnHolds fuel answers refit (with_turn (λ u. record u { finished = false }) s') k

  turn_step-TurnHolds :
      (fuel : ℕ) (answers : Dict Bytes) (refit : Bool) (s : Sys W)
      → Holds s
      → TurnHolds (turn_step rt fuel answers refit s)
  unfolding turn_step idle_step
  turn_step-TurnHolds fuel answers refit s h = elim (Option-cases s.turn.round) [
    | inl e ↦
        rw (e, turn_step)
          (after_stop-TurnHolds _ _ (stop_asked-StopHolds fuel false s h)
            (λ s' k. take_inbox-TurnHolds fuel answers refit s'.turn.inbox s' k))
    | inr (r, e) ↦ rw (e, turn_step) (round_step-TurnHolds fuel r answers refit s h)
  ]

  looped :
      (fuel : ℕ) (o : Option (Turn W))
      → TurnHolds o
      → ((answers : Dict Bytes) (refit : Bool) (s : Sys W)
          → Holds s
          → SysHolds (turn_loop rt fuel answers refit s))
      → SysHolds (elim o [
        | none ↦ none
        | some (stopped s') ↦ some s'
        | some (again answers' refit' s') ↦ turn_loop rt fuel answers' refit' s'
      ])
  looped fuel none h next = tt
  looped fuel (some (stopped s')) h next = h
  looped fuel (some (again answers' refit' s')) h next = next answers' refit' s' h

  turn_loop-SysHolds :
      (fuel : ℕ) (answers : Dict Bytes) (refit : Bool) (s : Sys W)
      → Holds s
      → SysHolds (turn_loop rt fuel answers refit s)
  unfolding turn_loop
  turn_loop-SysHolds zero answers refit s h = tt
  turn_loop-SysHolds (suc fuel) answers refit s h =
      looped fuel _ (turn_step-TurnHolds fuel answers refit s h) (turn_loop-SysHolds fuel)

  start_loop-SysHolds :
      (fuel : ℕ) (answers : Dict Bytes) (s : Sys W)
      → Holds s
      → SysHolds (start_loop rt fuel answers s)
  unfolding start_loop
  start_loop-SysHolds fuel answers s h = elim (Bool-cases (unasked s.turn.round answers)) [
    | inl e ↦ rw (e, start_loop) (refused (unknown_answer answers []))
    | inr e ↦ rw (e, start_loop) (turn_loop-SysHolds fuel answers false s h)
  ]
    where
      refused :
          (o : Result {0} (Unit {0}))
          → SysHolds (elim o [ err e ↦ some (fail rt e s) | ok _ ↦ none ])
      refused (err e) = fail-Holds e s h
      refused (ok _) = tt

  -- Moving past an open round leaves the revision alone.
  moved_past-Holds :
      (user : Option Message) (s : Sys W) → Holds s → Holds (with_turn (moved_past user) s)
  unfolding moved_past
  moved_past-Holds none s h = h
  moved_past-Holds (some m) s h = h

  drive-SysHolds :
      (fuel : ℕ) (user : Option Message) (answers : Dict Bytes) (s : Sys W)
      → Holds s
      → SysHolds (drive rt fuel user answers s)
  unfolding drive
  drive-SysHolds fuel user answers s h = elim (Bool-cases (is_some user || is_some s.turn.state)) [
    | inl e ↦
        rw (e, drive)
          (begins _ (commit-Holds (first_commit user s.turn) _ (moved_past-Holds user s h)))
    | inr e ↦ rw (e, drive) (start_loop-SysHolds fuel answers _ (moved_past-Holds user s h))
  ]
    where
      begins :
          (done : Bool × Sys W)
          → Holds done.1
          → SysHolds
              (elim done.0 [ false ↦ some done.1 | true ↦ start_loop rt fuel answers done.1 ])
      begins (false, s') k = k
      begins (true, s') k = start_loop-SysHolds fuel answers s' k

  -- Take any relation between a revision and the runtime's world that a commit on that revision moves
  -- to the revision it returns, that a failed commit leaves as it was, and that the runtime's other
  -- calls within a turn keep. If a turn's revision and world are so related when `drive` starts, they are
  -- when it returns: each commit was made on the revision that the commit before it returned.
  pub drive-follows_commits :
      (fuel : ℕ) (user : Option Message) (answers : Dict Bytes) (s s' : Sys W)
      → At s.turn.rev s.world
      → drive rt fuel user answers s ≡ some s'
      → At s'.turn.rev s'.world
  drive-follows_commits fuel user answers s s' h e =
      subst SysHolds e (drive-SysHolds fuel user answers s h)
