-- ===== src/Orchestrator/Turn/Tests.antt =====
-- Turns of a small session.
use tacklr.Base.{
  ℕ, zero, suc, ◌≡◌, refl, sym, ◌∙◌, ap, inl, inr, true, false, some, List, [], ◌∷◌, map, Bytes,
  codes, All, arith,
}
use tacklr.Failure.{ok, plain, is}
use tacklr.Call.{Call, call_key, Reply}
use tacklr.Orchestrator.State.{new_state, failed, complete}
use tacklr.Orchestrator.Runtime.{Sys, Follows}
use tacklr.Orchestrator.Rounds.Finishes.{Finished}
use tacklr.Orchestrator.Turn.{
  drive, first_commit, moved_past, start_loop, unasked, turn_loop, turn_step, idle_step, take_inbox,
  go_on, finish_turn, ask_model, after_reply, commit, commit_result, fail, drop_work, stop_asked,
  pump, check_stop,
}
use tacklr.Orchestrator.Turn.Ending.{Completed, Ended, drive-Ended}
use tacklr.Orchestrator.Turn.Revisions.{drive-follows_commits}
use tacklr.Orchestrator.Turn.Answers.{Progress, Calm, quiet, drive-completes}
use tacklr.Orchestrator.Samples.{
  World, a_request, an_answer, infer_from, finish, a_runtime, refusing, fresh, hello,
}

abbrev asks_left : World → ℕ
asks_left w = w.asks

finishes_each :
    (cs : List Call)
    → All Finished (map finish cs) × (map call_key (map finish cs) ≡ map call_key cs)
finishes_each [] = (tt, refl)
finishes_each (c ∷ cs) =
    let (done, same) = finishes_each cs in
    (
      (record { done = refl; failure = refl; starts = refl; cancels = refl }, done),
      ap (◌∷◌ (call_key c)) same,
    )

infers :
    (n : ℕ) (w : World)
    → w.asks ≡ n
    → (reply : Reply) × ((infer_from n w).0 ≡ ok reply) × Progress reply (infer_from n w).1.asks n
infers zero w same = (an_answer, refl, inl (refl, omega (arith, same)))
infers (suc n) w same = (a_request, refl, inr ((refl, tt), omega arith))

a_runtime-Calm : Calm a_runtime asks_left
a_runtime-Calm = record {
  next = λ block w. (refl, omega arith);
  commit = λ rev c w. (1 ∷ w.rev, refl, omega arith);
  infer = λ w. infers w.asks w refl;
  tools = λ cs w. (let (done, same) = finishes_each cs in (done, same, omega arith));
}

-- The model asks for a tool once, and then answers.
drive-completes_example :
    (s : Sys World) × (drive a_runtime 6 (some hello) [] (record {
      turn = record (quiet fresh) { finished = false };
      world = record { asks = 1; rev = [] };
    })
      ≡ some s)
    × Completed s.turn
drive-completes_example =
    drive-completes a_runtime asks_left a_runtime-Calm hello fresh (record { asks = 1; rev = [] }) 6
      (omega arith)

abbrev idle : Sys World
idle = record { turn = fresh; world = record { asks = 0; rev = [] } }

abbrev refused : Sys World
refused = record {
  turn = record fresh { failure = some (plain (codes "stale")); terminal = some failed };
  world = record { asks = 0; rev = [] };
}

drive-Ended_example : Ended refused.turn
unfolding drive first_commit moved_past commit commit_result fail drop_work is new_state
drive-Ended_example = drive-Ended refusing 1 (some hello) [] idle refused refl

abbrev RecordAt : Bytes → World → Type 0
RecordAt rev w = rev ≡ w.rev

infer_from-rev : (n : ℕ) (w : World) → (infer_from n w).1.rev ≡ w.rev
infer_from-rev zero w = refl
infer_from-rev (suc n) w = refl

a_runtime-Follows : Follows a_runtime RecordAt
a_runtime-Follows = record {
  commit = λ rev c w h. refl;
  infer = λ rev w h. h ∙ sym (infer_from-rev w.asks w);
  tools = λ rev cs w h. h;
  emit = λ rev e w h. h;
  next = λ rev block w h. h;
  start_job = λ rev j w h. h;
  cancel_job = λ rev id w h. h;
}

-- The prompt and the answer are two commits.
abbrev answered : Sys World
answered = record {
  turn = record fresh {
    rev = 1 ∷ (1 ∷ []);
    result = codes "done";
    finished = true;
    terminal = some complete;
  };
  world = record { asks = 0; rev = 1 ∷ (1 ∷ []) };
}

drive-follows_commits_example : RecordAt answered.turn.rev answered.world
unfolding drive first_commit moved_past start_loop unasked turn_loop turn_step idle_step take_inbox
    go_on finish_turn ask_model after_reply commit commit_result stop_asked pump check_stop
    new_state
drive-follows_commits_example =
    drive-follows_commits a_runtime RecordAt a_runtime-Follows 3 (some hello) [] idle answered refl
      refl
