-- ===== src/Orchestrator/Rounds/Finishes.antt =====
-- Putting back the runs of a round whose calls all finish (`record` of turn.go).
use tacklr.Base.{
  ◌≡◌, refl, sym, ap, ◌∙◌, subst, ℕ, Bool, true, false, Option, none, some, List, [], ◌∷◌, ◌++◌,
  map, append_assoc, lookup, Bytes, text_eq, text_eq_refl, any, any-map, All, find_index?, set,
  length, arith,
}
use tacklr.Failure.{Failure, ok}
use tacklr.Message.{ToolCall}
use tacklr.Call.{Call, call_key, calls_of, is_complete, parked}
use tacklr.Orchestrator.State.{Job}
use tacklr.Orchestrator.Runtime.{Runtime}
use tacklr.Orchestrator.Jobs.{cancel_asked, start_each, start_jobs}
use tacklr.Orchestrator.Rounds.{
  unknown_answer, runs_from, runs, kept_call, counts, Recorded, launched, record_at, record_found,
  record_outcome, record_call, record_calls,
}

-- No key of the second list occurs before it.
abbrev pub DistinctAfter : List Bytes → List Bytes → Type 0
DistinctAfter before [] = Unit
DistinctAfter before (k ∷ ks) =
    (any (λ j. text_eq j k) before ≡ false) × DistinctAfter (before ++ k ∷ []) ks

-- A run that ended with the call's result, and asked for nothing else.
pub record Finished (c : Call) : Type 0 where
  pub done : c.done ≡ true
  pub failure : c.failure ≡ none
  pub starts : c.starts ≡ []
  pub cancels : c.cancels ≡ []

find_index?-append :
    (p : Call → Bool) (before : List Call) (c : Call) (rest : List Call)
    → any p before ≡ false
    → p c ≡ true
    → find_index? p (before ++ c ∷ rest) ≡ some (length before)
find_index?-append p [] c rest h here = ground (arith, here)
find_index?-append p (x ∷ before) c rest h here =
    ground (arith, h, here, find_index?-append p before c rest)

set-append :
    (before : List Call) (c v : Call) (rest : List Call)
    → set (before ++ c ∷ rest) (length before) v ≡ before ++ v ∷ rest
set-append [] c v rest = refl
set-append (x ∷ before) c v rest = ap (◌∷◌ x) (set-append before c v rest)

keys-append :
    (before : List Call) (c : Call)
    → map call_key (before ++ c ∷ []) ≡ map call_key before ++ call_key c ∷ []
keys-append [] c = refl
keys-append (x ∷ before) c = ap (◌∷◌ (call_key x)) (keys-append before c)

module _ {W : Type 0} (rt : Runtime W) where
  abbrev pub recorded_from : List Call → List Job → W → List Failure → Recorded W
  recorded_from calls jobs w errors = record {
    calls = calls;
    jobs = jobs;
    world = w;
    errors = errors;
  }

  Finished-at :
      (c : Call) (i : ℕ) (calls : List Call) (jobs : List Job) (w : W)
      → Finished c
      → record_at rt i c (recorded_from calls jobs w []) ≡ recorded_from (set calls i c) jobs w []
  unfolding record_at launched kept_call counts start_jobs cancel_asked start_each
  Finished-at c i calls jobs w f = rw (f.done, f.starts, f.cancels) refl

  -- The run of the first call that has not run yet is found by its key, and put back.
  record_next :
      (c old : Call) (before rest : List Call) (jobs : List Job) (w : W)
      → Finished c
      → call_key c ≡ call_key old
      → any (λ j. text_eq j (call_key c)) (map call_key before) ≡ false
      → record_call rt c (recorded_from (before ++ old ∷ rest) jobs w [])
        ≡ some (recorded_from (before ++ c ∷ rest) jobs w [])
  unfolding record_call record_outcome record_found
  record_next c old before rest jobs w f same fresh =
      let p = λ (x : Call). text_eq (call_key x) (call_key c) in
      let found : find_index? p (before ++ old ∷ rest) ≡ some (length before) =
        find_index?-append p before old rest
          (sym (any-map (λ j. text_eq j (call_key c)) call_key before) ∙ fresh)
          (subst (λ k. text_eq k (call_key c) ≡ true) same (text_eq_refl (call_key c))) in
      let st = recorded_from (before ++ old ∷ rest) jobs w [] in
      ap (λ o. record_outcome rt o c st) f.failure
      ∙ (ap (λ o. record_found rt o c st) found
          ∙ ap some (
              Finished-at c (length before) (before ++ old ∷ rest) jobs w f
              ∙ ap (λ cs. recorded_from cs jobs w []) (set-append before old c rest)))

  record-All :
      (runs calls before : List Call) (jobs : List Job) (w : W)
      → All Finished runs
      → map call_key runs ≡ map call_key calls
      → DistinctAfter (map call_key before) (map call_key runs)
      → record_calls rt runs (recorded_from (before ++ calls) jobs w [])
        ≡ some (recorded_from (before ++ runs) jobs w [])
  unfolding record_calls
  record-All [] [] before jobs w done same distinct = refl
  record-All [] (c ∷ calls) before jobs w done same distinct = absurd (cc same)
  record-All (r ∷ runs) [] before jobs w done same distinct = absurd (cc same)
  record-All (r ∷ runs) (c ∷ calls) before jobs w (first, rest) same (fresh, distinct) =
      let here : call_key r ≡ call_key c = cc same in
      let later : map call_key runs ≡ map call_key calls = cc same in
      let spread = λ (xs : List Call). append_assoc before (r ∷ []) xs in
      rw (record_next r c before calls jobs w first here fresh, record_calls)
        (subst
          (λ xs.
            record_calls rt runs (recorded_from xs jobs w [])
            ≡ some (recorded_from (before ++ r ∷ runs) jobs w []))
          (spread calls)
          (subst
            (λ xs.
              record_calls rt runs (recorded_from ((before ++ r ∷ []) ++ calls) jobs w [])
              ≡ some (recorded_from xs jobs w []))
            (spread runs)
            (record-All runs calls (before ++ r ∷ []) jobs w rest later (
              subst (λ ks. DistinctAfter ks (map call_key runs)) (sym (keys-append before r))
                distinct))))

  pub record_calls-Finished :
      (runs calls : List Call) (jobs : List Job) (w : W)
      → All Finished runs
      → map call_key runs ≡ map call_key calls
      → DistinctAfter [] (map call_key calls)
      → record_calls rt runs (recorded_from calls jobs w []) ≡ some (recorded_from runs jobs w [])
  record_calls-Finished runs calls jobs w done same distinct =
      record-All runs calls [] jobs w done same (subst (DistinctAfter []) (sym same) distinct)

pub Finished-is_complete : (runs : List Call) → All Finished runs → is_complete runs ≡ true
Finished-is_complete [] h = refl
Finished-is_complete (c ∷ runs) (this, rest) =
    ground (arith, this.done, Finished-is_complete runs rest)

-- The calls of a new round are all pending: none of them is done or parked.
fresh_parked : (tcs : List ToolCall) (ts : List ℕ) → parked (calls_of tcs ts) ≡ none
unfolding calls_of
fresh_parked [] ts = refl
fresh_parked (tc ∷ tcs) [] = rw (fresh_parked tcs []) refl
fresh_parked (tc ∷ tcs) (t ∷ ts) = rw (fresh_parked tcs ts) refl

fresh_runs :
    (answer : Option Bytes) (tcs : List ToolCall) (ts : List ℕ)
    → runs_from none answer (calls_of tcs ts) ≡ some (calls_of tcs ts)
unfolding calls_of runs_from
fresh_runs answer [] ts = refl
fresh_runs answer (tc ∷ tcs) [] = rw (fresh_runs answer tcs []) refl
fresh_runs answer (tc ∷ tcs) (t ∷ ts) = rw (fresh_runs answer tcs ts) refl

pub runs-fresh :
    (tcs : List ToolCall) (ts : List ℕ) → runs (calls_of tcs ts) [] ≡ ok (calls_of tcs ts)
unfolding runs unknown_answer
runs-fresh tcs ts = rw (fresh_parked tcs ts, fresh_runs (lookup [] []) tcs ts) refl

-- A call of a new round, and the rest of its calls.
pub fresh_first :
    (tc : ToolCall) (tcs : List ToolCall) (ts : List ℕ)
    → (c : Call) × (cs : List Call) × (calls_of (tc ∷ tcs) ts ≡ c ∷ cs)
      × (is_complete (calls_of (tc ∷ tcs) ts) ≡ false)
unfolding calls_of
fresh_first tc tcs [] = (_, _, refl, refl)
fresh_first tc tcs (t ∷ ts) = (_, _, refl, refl)
