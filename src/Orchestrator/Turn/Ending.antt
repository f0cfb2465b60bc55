-- ===== src/Orchestrator/Turn/Ending.antt =====
-- The ways in which a turn ends (`drive` of turn.go).
use tacklr.Base.{
  ◌&&◌, ◌||◌, subst, ℕ, zero, suc, ◌≡◌, refl, ◌∙◌, Bool, true, false, not, Option, none, some, inl,
  inr, List, [], ◌∷◌, Bytes, Dict, Bool-cases, Option-cases, is_some,
}
use tacklr.Failure.{
  Failure, Result, ok, err, Result-cases, canceled, context_length, is, context_canceled, join,
}
use tacklr.Message.{Message, ToolCall}
use tacklr.Call.{Call, Park, Reply, Round, new_round, is_complete, parked}
use tacklr.Orchestrator.State.{State, complete, failed, Job, CommitIn, nothing_to_commit}
use tacklr.Orchestrator.Runtime.{Runtime, Sys}
use tacklr.Orchestrator.Jobs.{cancel_jobs}
use tacklr.Orchestrator.Rounds.{park_at, runs, any_waits, Recorded, record_calls, unknown_answer}
use tacklr.Orchestrator.Turn.Wakes.{Keeps, PumpKeeps, pump-PumpKeeps}
use tacklr.Orchestrator.Turn.{
  Turn, again, stopped, with_turn, after_commit, after_stop, drop_work, fail, check_stop,
  stop_asked, pump, commit_result, commit, after_record, run_step, yield_on, wait_or_run,
  idle_round, run_round, round_step, after_reply, after_refusal, ask_model, finish_turn, go_on,
  take_inbox, idle_step, turn_step, turn_loop, first_commit, moved_past, unasked, start_loop, drive,
}

-- A failure that is a cancel drops the queued messages and every job.
pub record FailedWith (t : State) (e : Failure) : Type 0 where
  pub terminal : t.terminal ≡ some failed
  pub failure : t.failure ≡ some e
  pub dropped : is e canceled ≡ true → (t.inbox ≡ []) × (t.jobs ≡ [])

-- A completed turn left no open round, no job and no message waiting.
pub record Completed (t : State) : Type 0 where
  pub terminal : t.terminal ≡ some complete
  pub round : t.round ≡ none
  pub jobs : t.jobs ≡ []
  pub inbox : t.inbox ≡ []

-- The call whose park a parked turn waits on is in its open round.
pub record Yielded (t : State) : Type 0 where
  pub yielded : t.yielded ≡ true
  pub round : Round
  pub open_round : t.round ≡ some round
  pub park : Park
  pub parked_on : park_at (parked round.calls) round.calls ≡ some park

pub data Ended (t : State) : Type 0 where
  fails : (e : Failure) → FailedWith t e → Ended t
  completes : Completed t → Ended t
  yields : Yielded t → Ended t
  suspends : t.suspended ≡ true → Ended t

module _ {W : Type 0} where
  abbrev StopsWell : Turn W → Type 0
  StopsWell (again answers refit s) = Unit
  StopsWell (stopped s) = Ended s.turn

  abbrev EndsWell : Option (Turn W) → Type 0
  EndsWell none = Unit
  EndsWell (some t) = StopsWell t

module _ {W : Type 0} (rt : Runtime W) where
  drop_work-dropped :
      (b : Bool) (s : Sys W)
      → ((drop_work rt b s).turn.terminal ≡ s.turn.terminal)
        × ((drop_work rt b s).turn.failure ≡ s.turn.failure)
        × (b ≡ true → ((drop_work rt b s).turn.inbox ≡ []) × ((drop_work rt b s).turn.jobs ≡ []))
  unfolding drop_work cancel_jobs
  drop_work-dropped false s = (refl, refl, λ e. absurd (cc e))
  drop_work-dropped true s = (refl, refl, λ e. (refl, refl))

  fail-FailedWith : (e : Failure) (s : Sys W) → FailedWith (fail rt e s).turn e
  unfolding fail
  fail-FailedWith e s =
      let d =
        drop_work-dropped (is e canceled)
          (with_turn (λ t. record t { failure = some e; terminal = some failed }) s) in
      record { terminal = d.0; failure = d.1; dropped = d.2 }

  fail-Ended : (e : Failure) (s : Sys W) → Ended (fail rt e s).turn
  fail-Ended e s = fails e (fail-FailedWith e s)

  -- A commit changes the turn's waiting state and revision alone, or fails the turn.
  abbrev CommitsWell : State → Bool × Sys W → Type 0
  CommitsWell t (true, s) =
      (s.turn.round ≡ t.round) × (s.turn.inbox ≡ t.inbox) × (s.turn.jobs ≡ t.jobs)
  CommitsWell t (false, s) = Ended s.turn

  commit_result-CommitsWell :
      (r : Result Bytes) (s : Sys W) → CommitsWell s.turn (commit_result rt r s)
  unfolding commit_result
  commit_result-CommitsWell (ok rev) s = (refl, refl, refl)
  commit_result-CommitsWell (err e) s = fail-Ended e s

  commit-CommitsWell : (c : CommitIn) (s : Sys W) → CommitsWell s.turn (commit rt c s)
  unfolding commit
  commit-CommitsWell c s =
      commit_result-CommitsWell (rt.commit s.turn.rev (record c { state = s.turn.state }) s.world).0
        _

  after_commit-StopsWell :
      (t : State) (r : Bool × Sys W) (k : Sys W → Turn W)
      → CommitsWell t r
      → ((s : Sys W) → StopsWell (k s))
      → StopsWell (after_commit r k)
  after_commit-StopsWell t (true, s) k h next = next s
  after_commit-StopsWell t (false, s) k h next = h

  -- What a check for a stop finds: an end of the turn, or the work under way as it was.
  abbrev StopFound : State → Option (Bool × Sys W) → Type 0
  StopFound t none = Unit
  StopFound t (some (true, s)) = Ended s.turn
  StopFound t (some (false, s)) = Keeps t s.turn

  suspend_found :
      (t : State) (b : Bool) (s : Sys W)
      → s.turn.suspended ≡ b
      → Keeps t s.turn
      → StopFound t (some (b, s))
  suspend_found t true s e h = suspends e
  suspend_found t false s e h = h

  check_stop-StopFound :
      (t : State) (b : Bool) (s : Sys W) → Keeps t s.turn → StopFound t (some (check_stop rt b s))
  unfolding check_stop
  check_stop-StopFound t true s h = fail-Ended context_canceled _
  check_stop-StopFound t false s h = suspend_found t s.turn.suspended s refl h

  stop_pumped :
      (t : State) (o : Option (Sys W))
      → PumpKeeps t o
      → StopFound t (elim o [ none ↦ none | some s' ↦ some (check_stop rt s'.turn.cancelled s') ])
  stop_pumped t none h = tt
  stop_pumped t (some s) h = check_stop-StopFound t s.turn.cancelled s h

  stop_asked-StopFound :
      (fuel : ℕ) (block : Bool) (s : Sys W) → StopFound s.turn (stop_asked rt fuel block s)
  unfolding stop_asked
  stop_asked-StopFound fuel block s =
      stop_pumped s.turn (pump rt fuel block s) (pump-PumpKeeps rt fuel block s)

  after_stop-EndsWell :
      (t : State) (r : Option (Bool × Sys W)) (k : Sys W → Option (Turn W))
      → StopFound t r
      → ((s : Sys W) → Keeps t s.turn → EndsWell (k s))
      → EndsWell (after_stop r k)
  after_stop-EndsWell t none k h next = tt
  after_stop-EndsWell t (some (true, s)) k h next = h
  after_stop-EndsWell t (some (false, s)) k h next = next s h

  after_record-StopsWell :
      (r : Round) (refit : Bool) (rec : Recorded W) (t : State)
      → StopsWell (after_record rt r refit rec t)
  unfolding after_record
  after_record-StopsWell r refit rec t = elim (Result-cases (join rec.errors)) [
    | inl (e, h) ↦ rw (h, after_record) (fail-Ended e _)
    | inr (a, h) ↦ rw (h, after_record) tt
  ]

  recorded :
      (r : Round) (refit : Bool) (t : State) (o : Option (Recorded W))
      → EndsWell (elim o [ none ↦ none | some rec ↦ some (after_record rt r refit rec t) ])
  recorded r refit t none = tt
  recorded r refit t (some rec) = after_record-StopsWell r refit rec t

  run_step-EndsWell :
      (r : Round) (refit : Bool) (cs : List Call) (s : Sys W) → EndsWell (run_step rt r refit cs s)
  unfolding run_step
  run_step-EndsWell r refit cs s = recorded r refit s.turn (record_calls rt _ _)

  yield_on-EndsWell :
      (o : Option Park) (r : Round) (s : Sys W)
      → s.turn.round ≡ some r
      → park_at (parked r.calls) r.calls ≡ o
      → EndsWell (yield_on rt o s)
  unfolding yield_on
  yield_on-EndsWell none r s h e = tt
  yield_on-EndsWell (some p) r s h e =
      yields (record { yielded = refl; round = r; open_round = h; park = p; parked_on = e })

  wait_or_run-EndsWell :
      (fuel : ℕ) (r : Round) (refit : Bool) (cs : List Call) (s : Sys W)
      → EndsWell (wait_or_run rt fuel r refit cs s)
  unfolding wait_or_run
  wait_or_run-EndsWell fuel r refit [] s =
      after_stop-EndsWell s.turn _ _ (stop_asked-StopFound fuel true s) (λ s' h. tt)
  wait_or_run-EndsWell fuel r refit (c ∷ cs) s = run_step-EndsWell r refit (c ∷ cs) s

  idle_round-EndsWell :
      (fuel : ℕ) (r : Round) (refit b : Bool) (s : Sys W)
      → s.turn.round ≡ some r
      → EndsWell (idle_round rt fuel r refit b s)
  unfolding idle_round
  idle_round-EndsWell fuel r refit true s h = wait_or_run-EndsWell fuel r refit _ _
  idle_round-EndsWell fuel r refit false s h = yield_on-EndsWell _ r s h refl

  run_round-EndsWell :
      (fuel : ℕ) (r : Round) (refit : Bool) (cs : List Call) (s : Sys W)
      → s.turn.round ≡ some r
      → EndsWell (run_round rt fuel r refit cs s)
  unfolding run_round
  run_round-EndsWell fuel r refit [] s h = idle_round-EndsWell fuel r refit (any_waits r.calls) s h
  run_round-EndsWell fuel r refit (c ∷ cs) s h = run_step-EndsWell r refit (c ∷ cs) s

  runs_found :
      (fuel : ℕ) (r : Round) (refit : Bool) (s : Sys W) (o : Result (List Call))
      → s.turn.round ≡ some r
      → EndsWell
          (elim o [ err e ↦ some (stopped (fail rt e s)) | ok cs ↦ run_round rt fuel r refit cs s ])
  runs_found fuel r refit s (err e) h = fail-Ended e s
  runs_found fuel r refit s (ok cs) h = run_round-EndsWell fuel r refit cs s h

  round_step-EndsWell :
      (fuel : ℕ) (r : Round) (answers : Dict Bytes) (refit : Bool) (s : Sys W)
      → s.turn.round ≡ some r
      → EndsWell (round_step rt fuel r answers refit s)
  unfolding round_step
  round_step-EndsWell fuel r answers refit s h = elim (Bool-cases (is_complete r.calls)) [
    | inl e ↦
        rw (e, round_step) (after_commit-StopsWell s.turn _ _ (commit-CommitsWell _ s) (λ s'. tt))
    | inr e ↦ rw (e, round_step) (runs_found fuel r refit s (runs r.calls answers) h)
  ]

  after_reply-StopsWell :
      (answers : Dict Bytes) (reply : Reply) (s : Sys W)
      → StopsWell (after_reply rt answers reply s)
  unfolding after_reply
  after_reply-StopsWell answers reply s = replied reply.calls
    where
      replied :
          (cs : List ToolCall)
          → StopsWell (elim cs [
            | [] ↦
                after_commit
                  (commit rt
                    (record nothing_to_commit {
                      round = some (record { reply = reply; calls = [] });
                    })
                    s)
                  λ s'.
                    again answers false
                      (with_turn (λ t. record t { result = reply.result; finished = true }) s')
            | _ ∷ _ ↦
                again answers false (with_turn (λ t. record t { round = some (new_round reply) }) s)
          ])
      replied [] = after_commit-StopsWell s.turn _ _ (commit-CommitsWell _ s) (λ s'. tt)
      replied (_ ∷ _) = tt

  after_refusal-StopsWell :
      (b : Bool) (answers : Dict Bytes) (refit : Bool) (e : Failure) (s : Sys W)
      → StopsWell (after_refusal rt b answers refit e s)
  unfolding after_refusal
  after_refusal-StopsWell true answers refit e s =
      after_commit-StopsWell s.turn _ _ (commit-CommitsWell _ s) (λ s'. tt)
  after_refusal-StopsWell false answers refit e s = fail-Ended e s

  ask_model-StopsWell :
      (answers : Dict Bytes) (refit : Bool) (s : Sys W) → StopsWell (ask_model rt answers refit s)
  unfolding ask_model
  ask_model-StopsWell answers refit s = elim (Result-cases (rt.infer s.world).0) [
    | inl (e, h) ↦
        rw (h, ask_model)
          (after_refusal-StopsWell (is e context_length && not refit) answers refit e _)
    | inr (reply, h) ↦ rw (h, ask_model) (after_reply-StopsWell answers reply _)
  ]

  finish_turn-EndsWell :
      (fuel : ℕ) (answers : Dict Bytes) (refit : Bool) (jobs : List Job) (s : Sys W)
      → s.turn.jobs ≡ jobs
      → s.turn.round ≡ none
      → s.turn.inbox ≡ []
      → EndsWell (finish_turn rt fuel answers refit jobs s)
  unfolding finish_turn
  finish_turn-EndsWell fuel answers refit [] s hj hr hi =
      completes (record { terminal = refl; round = hr; jobs = hj; inbox = hi })
  finish_turn-EndsWell fuel answers refit (_ ∷ _) s hj hr hi =
      after_stop-EndsWell s.turn _ _ (stop_asked-StopFound fuel true s) (λ s' h. tt)

  go_on-EndsWell :
      (fuel : ℕ) (answers : Dict Bytes) (refit : Bool) (s : Sys W)
      → s.turn.round ≡ none
      → s.turn.inbox ≡ []
      → EndsWell (go_on rt fuel answers refit s)
  unfolding go_on
  go_on-EndsWell fuel answers refit s hr hi = elim (Bool-cases s.turn.finished) [
    | inl e ↦ rw (e, go_on) (finish_turn-EndsWell fuel answers refit s.turn.jobs s refl hr hi)
    | inr e ↦ rw (e, go_on) (ask_model-StopsWell answers refit s)
  ]

  committed :
      (fuel : ℕ) (answers : Dict Bytes) (refit : Bool) (t : State) (done : Bool × Sys W)
      → CommitsWell t done
      → t.round ≡ none
      → t.inbox ≡ []
      → EndsWell (elim done.0 [
        | false ↦ some (stopped done.1)
        | true ↦ go_on rt fuel answers refit (with_turn (λ u. record u { finished = false }) done.1)
      ])
  committed fuel answers refit t (false, s) h hr hi = h
  committed fuel answers refit t (true, s) (h1, h2, h3) hr hi =
      go_on-EndsWell fuel answers refit _ (h1 ∙ hr) (h2 ∙ hi)

  take_inbox-EndsWell :
      (fuel : ℕ) (answers : Dict Bytes) (refit : Bool) (ms : List Message) (s : Sys W)
      → s.turn.inbox ≡ ms
      → s.turn.round ≡ none
      → EndsWell (take_inbox rt fuel answers refit ms s)
  unfolding take_inbox
  take_inbox-EndsWell fuel answers refit [] s hi hr = go_on-EndsWell fuel answers refit s hr hi
  take_inbox-EndsWell fuel answers refit (m ∷ ms) s hi hr =
      committed fuel answers refit (record s.turn { inbox = [] }) _ (commit-CommitsWell _ _) hr refl

  idle_step-EndsWell :
      (fuel : ℕ) (answers : Dict Bytes) (refit : Bool) (s : Sys W)
      → s.turn.round ≡ none
      → EndsWell (idle_step rt fuel answers refit s)
  unfolding idle_step
  idle_step-EndsWell fuel answers refit s hr =
      after_stop-EndsWell s.turn _ _ (stop_asked-StopFound fuel false s)
        (λ s' h. take_inbox-EndsWell fuel answers refit s'.turn.inbox s' refl (h.round ∙ hr))

  turn_step-EndsWell :
      (fuel : ℕ) (answers : Dict Bytes) (refit : Bool) (s : Sys W)
      → EndsWell (turn_step rt fuel answers refit s)
  unfolding turn_step
  turn_step-EndsWell fuel answers refit s = elim (Option-cases s.turn.round) [
    | inl e ↦ rw (e, turn_step) (idle_step-EndsWell fuel answers refit s e)
    | inr (r, e) ↦ rw (e, turn_step) (round_step-EndsWell fuel r answers refit s e)
  ]

  abbrev AllEnded : Option (Sys W) → Type 0
  AllEnded none = Unit
  AllEnded (some s) = Ended s.turn

  looped :
      (fuel : ℕ) (o : Option (Turn W))
      → EndsWell o
      → ((answers : Dict Bytes) (refit : Bool) (s : Sys W)
          → AllEnded (turn_loop rt fuel answers refit s))
      → AllEnded (elim o [
        | none ↦ none
        | some (stopped s') ↦ some s'
        | some (again answers' refit' s') ↦ turn_loop rt fuel answers' refit' s'
      ])
  looped fuel none h next = tt
  looped fuel (some (stopped s')) h next = h
  looped fuel (some (again answers' refit' s')) h next = next answers' refit' s'

  turn_loop-AllEnded :
      (fuel : ℕ) (answers : Dict Bytes) (refit : Bool) (s : Sys W)
      → AllEnded (turn_loop rt fuel answers refit s)
  unfolding turn_loop
  turn_loop-AllEnded zero answers refit s = tt
  turn_loop-AllEnded (suc fuel) answers refit s =
      looped fuel _ (turn_step-EndsWell fuel answers refit s) (turn_loop-AllEnded fuel)

  start_loop-AllEnded :
      (fuel : ℕ) (answers : Dict Bytes) (s : Sys W) → AllEnded (start_loop rt fuel answers s)
  unfolding start_loop
  start_loop-AllEnded fuel answers s = elim (Bool-cases (unasked s.turn.round answers)) [
    | inl e ↦ rw (e, start_loop) (refused (unknown_answer answers []))
    | inr e ↦ rw (e, start_loop) (turn_loop-AllEnded fuel answers false s)
  ]
    where
      refused :
          (o : Result {0} (Unit {0}))
          → AllEnded (elim o [ err e ↦ some (fail rt e s) | ok _ ↦ none ])
      refused (err e) = fail-Ended e s
      refused (ok _) = tt

  drive-AllEnded :
      (fuel : ℕ) (user : Option Message) (answers : Dict Bytes) (s : Sys W)
      → AllEnded (drive rt fuel user answers s)
  unfolding drive
  drive-AllEnded fuel user answers s = elim (Bool-cases (is_some user || is_some s.turn.state)) [
    | inl e ↦
        rw (e, drive)
          (begins _ (commit-CommitsWell (first_commit user s.turn) (with_turn (moved_past user) s)))
    | inr e ↦ rw (e, drive) (start_loop-AllEnded fuel answers _)
  ]
    where
      begins :
          (done : Bool × Sys W)
          → CommitsWell (moved_past user s.turn) done
          → AllEnded
              (elim done.0 [ false ↦ some done.1 | true ↦ start_loop rt fuel answers done.1 ])
      begins (false, s') h = h
      begins (true, s') h = start_loop-AllEnded fuel answers s'

  -- A turn that `drive` returns from ended in one of the four ways: it failed with its failure
  -- recorded, and with no message or job left when the failure is a cancel; it completed with no
  -- open round, no job and no message left; it waits on the park of a call of its open round; or
  -- the runtime suspended it.
  pub drive-Ended :
      (fuel : ℕ) (user : Option Message) (answers : Dict Bytes) (s s' : Sys W)
      → drive rt fuel user answers s ≡ some s'
      → Ended s'.turn
  drive-Ended fuel user answers s s' e = subst AllEnded e (drive-AllEnded fuel user answers s)
