-- ===== src/Orchestrator/Rounds/Next.antt =====
-- Which calls of the open round run next (`runs` of turn.go).
use tacklr.Base.{
  ◌≡◌, ◌≢◌, ◌∙◌, ap, sym, refl, ◌&&◌, text_eq, codes, Bool, true, false, Option, none, some, inl,
  inr, List, [], ◌∷◌, Bytes, Dict, lookup, arith, find_index?-any, any, keep, Bool-cases,
  if◌then◌else◌,
}
use tacklr.Failure.{Failure, ok, err, wrap, interrupt_not_found}
use tacklr.Call.{Call, is_parked, is_pending, parked, is_complete}
use tacklr.Orchestrator.Rounds.{
  unknown_answer, runs_from, park_at, park_id, or_nothing, runs, any_waits,
}

runs_from-keep :
    (answer : Option Bytes) (calls : List Call)
    → runs_from none answer calls ≡ some (keep is_pending calls)
unfolding runs_from
runs_from-keep answer [] = refl
runs_from-keep answer (c ∷ cs) = ground (arith, runs_from-keep answer cs)

-- The calls that run when the parked one is answered: it, with the answer, and each pending one,
-- in call order.
abbrev pub resumed : Bytes → List Call → List Call
resumed a [] = []
resumed a (c ∷ cs) =
    if is_parked c
    then record c { answer = some a } ∷ keep is_pending cs
    else if is_pending c
    then c ∷ resumed a cs
    else resumed a cs

runs_from-resumed :
    (a : Bytes) (calls : List Call)
    → any is_parked calls ≡ true
    → runs_from (parked calls) (some a) calls ≡ some (resumed a calls)
unfolding runs_from
runs_from-resumed a [] h = cc
runs_from-resumed a (c ∷ cs) h = elim (Bool-cases (is_parked c)) [
  | inl here ↦ rw here (rw (runs_from-keep (some a) cs, runs_from))
  | inr later ↦
      let more : any is_parked cs ≡ true = ground (arith, h) in
      let (i, found) = find_index?-any is_parked cs more in
      rw (later, found) (ground (arith, rw found at (runs_from-resumed a cs more)))
]

runs_from_waits :
    (calls : List Call) → any is_parked calls ≡ true → runs_from (parked calls) none calls ≡ none
unfolding runs_from
runs_from_waits [] h = cc
runs_from_waits (c ∷ cs) h = elim (Bool-cases (is_parked c)) [
  | inl here ↦ rw here
  | inr later ↦
      let more : any is_parked cs ≡ true = ground (arith, h) in
      let (i, found) = find_index?-any is_parked cs more in
      rw (later, found) (ground (arith, rw found at (runs_from_waits cs more)))
]

any-none : (calls : List Call) → any is_parked calls ≡ false → parked calls ≡ none
any-none [] h = refl
any-none (c ∷ cs) h = ground (arith, any-none cs)

-- A call that has no result is pending, parked or waits on a job.
stuck :
    (calls : List Call)
    → is_complete calls ≡ false
    → keep is_pending calls ≡ []
    → any_waits calls ≡ false
    → any is_parked calls ≡ false
    → ⊥
stuck [] open_round idle no_waits free = cc
stuck (c ∷ cs) open_round idle no_waits free = ground (arith, stuck cs)

-- The id that an answer must name: the parked call's interrupt, "" with none.
abbrev pub asked : List Call → Bytes
asked calls = park_id (park_at (parked calls) calls)

-- Whether every answer that a resume brings is to this id.
abbrev pub answers_only : Bytes → Dict Bytes → Bool
answers_only id [] = true
answers_only id ((key, a) ∷ rest) = text_eq key id && answers_only id rest

-- What runs, with the first answer to the parked call's interrupt.
abbrev pub resumed_by : Option Bytes → List Call → List Call
resumed_by none calls = []
resumed_by (some a) calls = resumed a calls

unknown_answer-answers_only :
    (resume : Dict Bytes) (id : Bytes)
    → answers_only id resume ≡ true
    → unknown_answer resume id ≡ ok tt
unfolding unknown_answer
unknown_answer-answers_only [] id h = refl
unknown_answer-answers_only ((key, a) ∷ rest) id h =
    ground (arith, h, unknown_answer-answers_only rest id)

unknown_answer-fails :
    (resume : Dict Bytes) (id : Bytes)
    → answers_only id resume ≡ false
    → (e : Failure) × (unknown_answer resume id ≡ err e)
unfolding unknown_answer
unknown_answer-fails [] id h = absurd (cc h)
unknown_answer-fails ((key, a) ∷ rest) id h = elim (Bool-cases (text_eq key id)) [
  | inl same ↦
      let (e, fails) = unknown_answer-fails rest id (ground (arith, h, same)) in
      (e, rw (unknown_answer, same) fails)
  | inr differs ↦ (
    wrap (codes "no tool call id found for interrupt") interrupt_not_found,
    rw (unknown_answer, differs) refl,
  )
]

runs_waits :
    (calls : List Call) (answer : Option Bytes)
    → any is_parked calls ≡ true
    → or_nothing (runs_from (parked calls) answer calls) ≡ resumed_by answer calls
runs_waits calls none parks = rw (runs_from_waits calls parks) refl
runs_waits calls (some a) parks = rw (runs_from-resumed a calls parks) refl

-- Whatever answers a resume brings: where one of them is not to the parked call's interrupt ("" with no call parked),
-- the resume is an error and nothing runs. Where all are, and no call is parked, every call that has not run runs, in
-- call order. Where all are and a call is parked, nothing runs without an answer; with one, the parked call runs with
-- the first answer, and with it every call that has not run.
pub runs_lem :
    (calls : List Call) (resume : Dict Bytes)
    → (answers_only (asked calls) resume ≡ false → (cs : List Call) → runs calls resume ≢ ok cs)
      × (answers_only (asked calls) resume ≡ true
          → any is_parked calls ≡ false
          → runs calls resume ≡ ok (keep is_pending calls))
      × (answers_only (asked calls) resume ≡ true
          → any is_parked calls ≡ true
          → runs calls resume ≡ ok (resumed_by (lookup (asked calls) resume) calls))
unfolding runs
runs_lem calls resume = (
  λ unknown cs ran.
      let (e, fails) = unknown_answer-fails resume (asked calls) unknown in
      let failed : runs calls resume ≡ err e = rw (runs, fails) refl in
      absurd (cc (sym failed ∙ ran)),
  λ known free.
      rw (runs, unknown_answer-answers_only resume (asked calls) known, any-none calls free)
        (rw (runs_from-keep (lookup [] resume) calls) refl),
  λ known parks.
      rw (runs, unknown_answer-answers_only resume (asked calls) known)
        (ap ok (runs_waits calls (lookup (asked calls) resume) parks)),
)

runs_free :
    (calls : List Call) (resume : Dict Bytes)
    → runs calls resume ≡ ok []
    → parked calls ≡ none
    → keep is_pending calls ≡ []
unfolding runs
runs_free calls resume idle free =
    ground (arith, rw (free, runs) at idle, runs_from-keep (lookup [] resume) calls)

-- An open round that runs nothing and waits on no job has a parked call: a turn yields on a park.
pub runs-yield :
    (calls : List Call) (resume : Dict Bytes)
    → is_complete calls ≡ false
    → runs calls resume ≡ ok []
    → any_waits calls ≡ false
    → any is_parked calls ≡ true
runs-yield calls resume open_round idle no_waits = elim (Bool-cases (any is_parked calls)) [
  | inl parks ↦ parks
  | inr free ↦
      absurd
        (stuck calls open_round (runs_free calls resume idle (any-none calls free)) no_waits free)
]
