-- ===== src/Orchestrator/Rounds/Tests.antt =====
-- Rounds of two and three calls.
use tacklr.Base.{
  ◌≡◌, ◌≢◌, refl, true, false, some, List, [], ◌∷◌, Bytes, codes, text_eq, Dict, lookup, any, keep,
  arith,
}
use tacklr.Failure.{ok}
use tacklr.Call.{Call, new_call, is_parked, is_pending, is_complete}
use tacklr.Orchestrator.Rounds.{
  runs, kept_call, Recorded, launched, record_at, record_found, record_outcome, record_call,
  record_calls, counts,
}
use tacklr.Orchestrator.Rounds.Next.{resumed_by, answers_only, asked, runs_lem}
use tacklr.Orchestrator.Rounds.Parks.{RoundKept, record-keeps_one_park}
use tacklr.Orchestrator.Rounds.Shadowed.{Shadowed, record-never_second}
use tacklr.Orchestrator.Jobs.{start_jobs, start_each, cancel_asked}
use tacklr.Orchestrator.Samples.{World, a_call, a_runtime, finish}

abbrev parked_call : Call
parked_call = record (new_call a_call 0) {
  park = some (record { interrupt_id = codes "c1"; payload = [] });
}

abbrev second_call : Call
second_call = new_call (record a_call { id = codes "c2" }) 0

abbrev second_parked : Call
second_parked = record second_call {
  park = some (record { interrupt_id = codes "c2"; payload = [] });
}

abbrev two_calls : List Call
two_calls = parked_call ∷ (second_call ∷ [])

-- The second answer is to another interrupt.
abbrev right_then_wrong : Dict Bytes
right_then_wrong = (codes "c1", codes "yes") ∷ (codes "c2", codes "no") ∷ []

runs_lem_example :
    (answers_only (asked two_calls) right_then_wrong ≡ false
      → (cs : List Call) → runs two_calls right_then_wrong ≢ ok cs)
    × (answers_only (asked two_calls) right_then_wrong ≡ true
        → any is_parked two_calls ≡ false
        → runs two_calls right_then_wrong ≡ ok (keep is_pending two_calls))
    × (answers_only (asked two_calls) right_then_wrong ≡ true
        → any is_parked two_calls ≡ true
        → runs two_calls right_then_wrong
          ≡ ok (resumed_by (lookup (asked two_calls) right_then_wrong) two_calls))
runs_lem_example = runs_lem two_calls right_then_wrong

right_then_wrong_unknown : answers_only (asked two_calls) right_then_wrong ≡ false
unfolding text_eq
right_then_wrong_unknown = refl

abbrev recorded : List Call → Recorded World
recorded calls = record {
  calls = calls;
  jobs = [];
  world = record { asks = 0; rev = [] };
  errors = [];
}

-- The second call parks while the first one is parked.
record-keeps_one_park_example :
    (s' : Recorded World) × (record_calls a_runtime (second_parked ∷ []) (recorded two_calls)
      ≡ some s')
    × RoundKept two_calls s'.calls
unfolding text_eq
record-keeps_one_park_example =
    record-keeps_one_park a_runtime (second_parked ∷ []) (recorded two_calls) (refl, tt)
      (omega arith)

-- Two calls with the id "c1": the run of the second one is put back at the first.
abbrev same_ids : List Call
same_ids = new_call a_call 0 ∷ (new_call a_call 5 ∷ [])

abbrev both_ran : List Call
both_ran = finish (new_call a_call 0) ∷ (finish (new_call a_call 5) ∷ [])

record-never_second_example :
    Shadowed (new_call a_call 5) 1 (finish (new_call a_call 5) ∷ (new_call a_call 5 ∷ []))
    × (false ≡ false → is_complete (finish (new_call a_call 5) ∷ (new_call a_call 5 ∷ [])) ≡ false)
unfolding record_calls record_call record_outcome record_found record_at kept_call launched counts
    start_jobs start_each cancel_asked text_eq
record-never_second_example =
    record-never_second a_runtime (new_call a_call 5) 1 both_ran (recorded same_ids)
      (recorded (finish (new_call a_call 5) ∷ (new_call a_call 5 ∷ [])))
      (0, new_call a_call 0, omega arith, refl, refl, refl) refl
