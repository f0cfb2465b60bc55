-- ===== src/Orchestrator/Turn/Answers.antt =====
-- A turn that no wake, failed commit or open call disturbs (`drive` of turn.go).
use tacklr.Base.{
  ◌≡◌, ◌≤◌, ◌<◌, ◌⊎◌, refl, sym, ap, ◌∙◌, subst, ℕ, zero, suc, ◌+◌, ◌*◌, ◌-◌, Bool, true, false,
  Option, none, some, inl, inr, List, [], ◌∷◌, map, Bytes, Dict, All, arith,
}
use tacklr.Failure.{ok, join}
use tacklr.Message.{Message, ToolCall, tool_key}
use tacklr.Call.{Call, call_key, calls_of, calls_of-tool_key, Reply, Round, new_round, is_complete}
use tacklr.Orchestrator.State.{State, CommitIn, nothing_to_commit, complete, turn_complete}
use tacklr.Orchestrator.Runtime.{Runtime, Sys}
use tacklr.Orchestrator.Rounds.Finishes.{
  DistinctAfter, Finished, record_calls-Finished, Finished-is_complete, runs-fresh,
}
use tacklr.Orchestrator.Turn.{
  Turn, again, stopped, check_stop, stop_asked, pump, commit_result, commit, after_record, run_step,
  run_round, round_step, after_reply, ask_model, finish_turn, go_on, take_inbox, idle_step,
  turn_step, turn_loop, first_commit, moved_past, unasked, start_loop, drive,
}
use tacklr.Orchestrator.Turn.Ending.{Completed}

-- A reply without calls, or one whose calls have different keys and leave the model less to ask for.
abbrev pub Progress : Reply → ℕ → ℕ → Type 0
Progress reply after before =
    ((reply.calls ≡ []) × (after ≤ before))
    ⊎ (DistinctAfter [] (map tool_key reply.calls) × (after < before))

-- A runtime whose model asks for tools at most `left` times more, with no wake and no failure, and
-- whose tools give each call its result.
pub record Calm {W : Type 0} (rt : Runtime W) (left : W → ℕ) : Type 0 where
  pub next :
      (block : Bool) (w : W) → ((rt.next block w).0 ≡ none) × (left (rt.next block w).1 ≤ left w)
  pub commit :
      (rev : Bytes) (c : CommitIn) (w : W)
      → (rev' : Bytes) × ((rt.commit rev c w).0 ≡ ok rev') × (left (rt.commit rev c w).1 ≤ left w)
  pub infer :
      (w : W)
      → (reply : Reply) × ((rt.infer w).0 ≡ ok reply)
        × Progress reply (left (rt.infer w).1) (left w)
  pub tools :
      (cs : List Call) (w : W)
      → All Finished (rt.tools cs w).0
        × (map call_key (rt.tools cs w).0 ≡ map call_key cs)
        × (left (rt.tools cs w).1 ≤ left w)

-- A state with nothing in a turn's way: no message, no job and no stop.
abbrev pub quiet : State → State
quiet t = record t { inbox = []; jobs = []; cancelled = false; suspended = false }

module _ {W : Type 0} (rt : Runtime W) (left : W → ℕ) (calm : Calm rt left) where
  abbrev at : State → Option Round → Bool → Option (Dict Bytes) → Bytes → Bytes → W → Sys W
  at t r finished st rev res w = record {
    turn = record (quiet t) { round = r; finished = finished; state = st; rev = rev; result = res };
    world = w;
  }

  stop_quiet :
      (fuel : ℕ) (block : Bool) (t : State) (r : Option Round) (f : Bool) (st : Option (Dict Bytes))
      (rev res : Bytes) (w : W)
      → stop_asked rt (suc fuel) block (at t r f st rev res w)
        ≡ some (false, at t r f st rev res (rt.next block w).1)
  unfolding stop_asked pump check_stop
  stop_quiet fuel block t r f st rev res w = rw ((calm.next block w).0, stop_asked, pump) refl

  commit_quiet :
      (c : CommitIn) (t : State) (r : Option Round) (f : Bool) (st : Option (Dict Bytes))
      (rev res : Bytes) (w : W)
      → (rev' : Bytes) × (w' : W) × (commit rt c (at t r f st rev res w)
          ≡ (true, at t r f none rev' res w'))
        × (left w' ≤ left w)
  unfolding commit commit_result
  commit_quiet c t r f st rev res w =
      let (rev', e, le) = calm.commit rev (record c { state = st }) w in
      (rev', (rt.commit rev (record c { state = st }) w).1, rw e refl, le)

  -- A turn that goes on from a world with at most so much left to ask for.
  record Goes (t : State) (r : Option Round) (f : Bool) (bound : ℕ) (turn : Option (Turn W))
      : Type 0 where
    state : Option (Dict Bytes)
    rev : Bytes
    res : Bytes
    world : W
    refit : Bool
    goes : turn ≡ some (again [] refit (at t r f state rev res world))
    fewer : left world ≤ bound

  commits :
      (fuel : ℕ) (refit : Bool) (t : State) (r : Round) (st : Option (Dict Bytes)) (rev res : Bytes)
      (w : W)
      → is_complete r.calls ≡ true
      → Goes t none false (left w) (turn_step rt fuel [] refit (at t (some r) false st rev res w))
  unfolding turn_step round_step
  commits fuel refit t r st rev res w done =
      let (rev', w', e, le) =
        commit_quiet (record nothing_to_commit { round = some r }) t (some r) false st rev res w in
      record {
        state = none;
        rev = rev';
        res = res;
        world = w';
        refit = refit;
        goes = rw (done, e, round_step) refl;
        fewer = le;
      }

  sent_keys :
      (cs : List Call)
      → map call_key (map (λ (x : Call). record x { jobs = [] }) cs) ≡ map call_key cs
  sent_keys [] = refl
  sent_keys (c ∷ cs) = ap (◌∷◌ (call_key c)) (sent_keys cs)

  -- A step that runs all of the round's calls completes the round.
  abbrev RoundDone : State → ℕ → Option (Turn W) → Type 0
  RoundDone t bound turn =
      (r : Round) × (is_complete r.calls ≡ true) × Goes t (some r) false bound turn

  run_step_done :
      (r : Round) (refit : Bool) (t : State) (st : Option (Dict Bytes)) (rev res : Bytes) (w : W)
      → DistinctAfter [] (map call_key r.calls)
      → RoundDone t (left w) (run_step rt r refit r.calls (at t (some r) false st rev res w))
  unfolding run_step after_record join
  run_step_done r refit t st rev res w distinct =
      let sent = map (λ (x : Call). record x { jobs = [] }) r.calls in
      let out = (rt.tools sent w).0 in
      let (done, same, le) = calm.tools sent w in
      let recorded =
        record_calls-Finished rt out r.calls [] (rt.tools sent w).1 done (same ∙ sent_keys r.calls)
          distinct in
      (
        record r { calls = out },
        Finished-is_complete out done,
        record {
          state = st;
          rev = rev;
          res = res;
          world = (rt.tools sent w).1;
          refit = refit;
          goes = rw (recorded, run_step) refl;
          fewer = le;
        },
      )

  runs_all :
      (fuel : ℕ) (refit : Bool) (t : State) (reply : Reply) (tc : ToolCall) (tcs : List ToolCall)
      (ts : List ℕ) (st : Option (Dict Bytes)) (rev res : Bytes) (w : W)
      → DistinctAfter [] (map tool_key (tc ∷ tcs))
      → RoundDone t (left w) (
          turn_step rt fuel [] refit (
            at t
              (some (record { reply = reply; calls = calls_of (tc ∷ tcs) ts }))
              false
              st
              rev
              res
              w))
  unfolding turn_step round_step run_round calls_of
  runs_all fuel refit t reply tc tcs [] st rev res w distinct =
      rw (runs-fresh (tc ∷ tcs) [], round_step)
        (run_step_done (record { reply = reply; calls = calls_of (tc ∷ tcs) [] }) refit t st rev res
          w (subst (DistinctAfter []) (sym (calls_of-tool_key (tc ∷ tcs) [])) distinct))
  runs_all fuel refit t reply tc tcs (x ∷ ts) st rev res w distinct =
      rw (runs-fresh (tc ∷ tcs) (x ∷ ts), round_step)
        (run_step_done (record { reply = reply; calls = calls_of (tc ∷ tcs) (x ∷ ts) }) refit t st
          rev res w
          (subst (DistinctAfter []) (sym (calls_of-tool_key (tc ∷ tcs) (x ∷ ts))) distinct))

  finishes :
      (fuel : ℕ) (refit : Bool) (t : State) (st : Option (Dict Bytes)) (rev res : Bytes) (w : W)
      → (s : Sys W) × (turn_step rt (suc fuel) [] refit (at t none true st rev res w)
          ≡ some (stopped s))
        × Completed s.turn
        × (s.turn.result ≡ res)
  unfolding turn_step idle_step take_inbox go_on finish_turn
  finishes fuel refit t st rev res w =
      let w' = (rt.next false w).1 in
      (
        record {
          turn = record (at t none true st rev res w').turn { terminal = some complete };
          world = rt.emit turn_complete w';
        },
        rw (stop_quiet fuel false t none true st rev res w, idle_step) refl,
        record { terminal = refl; round = refl; jobs = refl; inbox = refl },
        refl,
      )

  -- What the model is asked for: an answer, or a round of calls with less left to ask for.
  data Asked (t : State) (bound : ℕ) (turn : Option (Turn W)) : Type 0 where
    answered : Goes t none true bound turn → Asked t bound turn
    calls_for :
        (reply : Reply) (tc : ToolCall) (tcs : List ToolCall) (fewer : ℕ)
        → Goes t
            (some (record { reply = reply; calls = calls_of (tc ∷ tcs) reply.timeouts }))
            false
            fewer
            turn
        → fewer < bound
        → DistinctAfter [] (map tool_key (tc ∷ tcs))
        → Asked t bound turn

  Progress-le : (reply : Reply) (after before : ℕ) → Progress reply after before → after ≤ before
  Progress-le reply after before (inl (_, le)) = le
  Progress-le reply after before (inr (_, lt)) = omega (arith, lt)

  Progress-widen :
      (reply : Reply) (after before bound : ℕ)
      → Progress reply after before
      → before ≤ bound
      → Progress reply after bound
  Progress-widen reply after before bound (inl (none_asked, h)) le =
      inl (none_asked, omega (arith, h, le))
  Progress-widen reply after before bound (inr (distinct, h)) le =
      inr (distinct, omega (arith, h, le))

  abbrev reply_of : List Message → List ToolCall → Bytes → List ℕ → ℕ → Reply
  reply_of messages tcs result timeouts tokens = record {
    messages = messages;
    calls = tcs;
    result = result;
    timeouts = timeouts;
    input_tokens = tokens;
  }

  replies :
      (messages : List Message) (tcs : List ToolCall) (result : Bytes) (ts : List ℕ) (tokens : ℕ)
      (t : State) (st : Option (Dict Bytes)) (rev res : Bytes) (w : W) (bound : ℕ)
      → let reply = reply_of messages tcs result ts tokens in
        Progress reply (left w) bound
        → Asked t bound (some (after_reply rt [] reply (at t none false st rev res w)))
  unfolding after_reply new_round
  replies messages [] result ts tokens t st rev res w bound progress =
      let reply = reply_of messages [] result ts tokens in
      let (rev', w', e, le) =
        commit_quiet
          (record nothing_to_commit { round = some (record { reply = reply; calls = [] }) }) t none
          false st rev res w in
      answered (record {
        state = none;
        rev = rev';
        res = result;
        world = w';
        refit = false;
        goes = rw e refl;
        fewer = omega (arith, le, Progress-le reply (left w) bound progress);
      })
  replies messages (tc ∷ tcs) result ts tokens t st rev res w bound (inl (none_asked, le)) =
      absurd (cc none_asked)
  replies messages (tc ∷ tcs) result ts tokens t st rev res w bound (inr (distinct, lt)) =
      calls_for (reply_of messages (tc ∷ tcs) result ts tokens) tc tcs (left w)
        (record {
          state = st;
          rev = rev;
          res = res;
          world = w;
          refit = false;
          goes = refl;
          fewer = omega arith;
        })
        lt distinct

  asks :
      (fuel : ℕ) (refit : Bool) (t : State) (st : Option (Dict Bytes)) (rev res : Bytes) (w : W)
      (bound : ℕ)
      → left w ≤ bound
      → Asked t bound (turn_step rt (suc fuel) [] refit (at t none false st rev res w))
  unfolding turn_step idle_step take_inbox go_on ask_model
  asks fuel refit t st rev res w bound le =
      let w1 = (rt.next false w).1 in
      let (reply, e, progress) = calm.infer w1 in
      rw
        (
          stop_quiet fuel false t none false st rev res w,
          idle_step,
          e,
          take_inbox,
          go_on,
          ask_model,
        )
        (replies reply.messages reply.calls reply.result reply.timeouts reply.input_tokens t st rev
          res (rt.infer w1).1 bound
          (Progress-widen reply _ (left w1) bound progress
            (omega (arith, (calm.next false w).1, le))))

  -- How a turn's loop ends: completed.
  abbrev LoopCompletes : Option (Sys W) → Type 0
  LoopCompletes o = (s : Sys W) × (o ≡ some s) × Completed s.turn

  -- The fuel for a model that asks for tools `n` times more: three passes each, and three for the answer.
  budget : ℕ → ℕ → ℕ
  budget zero k = suc (suc (suc k))
  budget (suc n) k = suc (suc (suc (budget n k)))

  answers_loop :
      (k : ℕ) (refit : Bool) (t : State) (st : Option (Dict Bytes)) (rev res : Bytes) (w : W)
      → LoopCompletes (turn_loop rt (suc (suc k)) [] refit (at t none true st rev res w))
  unfolding turn_loop
  answers_loop k refit t st rev res w =
      let (s, e, done, _) = finishes k refit t st rev res w in (s, rw (e, turn_loop) refl, done)

  loop_completes :
      (n k : ℕ) (refit : Bool) (t : State) (st : Option (Dict Bytes)) (rev res : Bytes) (w : W)
      → left w ≤ n
      → LoopCompletes (turn_loop rt (budget n k) [] refit (at t none false st rev res w))
  unfolding turn_loop budget
  loop_completes zero k refit t st rev res w le = elim (asks (suc k) refit t st rev res w zero le) [
    | answered g ↦ rw (g.goes, turn_loop) (answers_loop k g.refit t g.state g.rev g.res g.world)
    | calls_for reply tc tcs fewer g lt distinct ↦ absurd (omega (arith, lt))
  ]
  loop_completes (suc n) k refit t st rev res w le =
      elim (asks (suc (budget n k)) refit t st rev res w (suc n) le) [
        | answered g ↦
            rw (g.goes, turn_loop) (answers_loop (budget n k) g.refit t g.state g.rev g.res g.world)
        | calls_for reply tc tcs fewer g lt distinct ↦
            let (r, done, g2) =
              runs_all (suc (budget n k)) g.refit t reply tc tcs reply.timeouts g.state g.rev g.res
                g.world distinct in
            let g3 = commits (budget n k) g2.refit t r g2.state g2.rev g2.res g2.world done in
            rw (g.goes, g2.goes, g3.goes, turn_loop)
              (loop_completes n k g3.refit t g3.state g3.rev g3.res g3.world
                (omega (arith, lt, g.fewer, g2.fewer, g3.fewer)))
      ]

  budget_lem : (n k : ℕ) → budget n k ≡ 3 * n + 3 + k
  unfolding budget
  budget_lem zero k = omega arith
  budget_lem (suc n) k = omega (arith, budget_lem n k)

  enough : (n fuel : ℕ) → 3 * n + 3 ≤ fuel → budget n (fuel - (3 * n + 3)) ≡ fuel
  enough n fuel le = omega (arith, budget_lem n (fuel - (3 * n + 3)), le)

  -- Let the runtime commit each time, send no wake, and give each tool call its result, and let the
  -- model, when it asks for tools, give its calls different keys and ask at most `left` times. Then a
  -- prompt to a session with no message, job or stop ends with a completed turn: `drive` returns, with three passes of its
  -- loop for each time that the model asks and three more.
  pub drive-completes :
      (m : Message) (t : State) (w : W) (fuel : ℕ)
      → 3 * left w + 3 ≤ fuel
      → (s : Sys W) × (drive rt fuel
            (some m)
            []
            (record { turn = record (quiet t) { finished = false }; world = w })
          ≡ some s)
        × Completed s.turn
  unfolding drive first_commit moved_past start_loop unasked
  drive-completes m t w fuel le =
      let (rev', w', e, fewer) =
        commit_quiet (record nothing_to_commit { round = t.round; users = m ∷ [] }) t none false
          t.state t.rev t.result w in
      let begins =
        ap
          (λ (done : Bool × Sys W). elim done.0 as (λ _. Option (Sys W)) [
            | false ↦ some done.1
            | true ↦ start_loop rt fuel [] done.1
          ])
          e in
      subst LoopCompletes (sym begins) (
        subst (λ n. LoopCompletes (turn_loop rt n [] false (at t none false none rev' t.result w')))
          (enough (left w) fuel le)
          (loop_completes (left w) (fuel - (3 * left w + 3)) false t none rev' t.result w' fewer))
