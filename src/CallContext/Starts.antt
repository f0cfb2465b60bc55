-- ===== src/CallContext/Starts.antt =====
-- The jobs that a call starts and cancels (call.go, `ChildID` of runtime_children.go).
use tacklr.Base.{
  subst, inl, inr, ◌≡◌, ◌≤◌, ◌<◌, refl, ◌∙◌, ap, ℕ, ◌+◌, Bool, true, false, not, ◌&&◌, ◌||◌, ltb,
  leb, Option, none, some, List, [], ◌∷◌, ◌++◌, map, length, length-append, any, any-append, Bytes,
  codes, decimal, text_eq, text_eq_iff, is_empty, trim_space, if◌then◌else◌, arith, Option-cases,
}
use tacklr.Failure.{Failure, Result, ok, err, wrap, not_found, invalid, correction}
use tacklr.Message.{ToolCall, tool_key}
use tacklr.Call.{call_key, JobStart}
use tacklr.CallContext.{CallContext}

-- `JobRequest`
pub record JobRequest : Type 0 where
  pub name : Bytes
  pub task : Bytes
  pub wait : Bool

-- `Job` of types.go. Its state is always running.
pub record JobInfo : Type 0 where
  pub id : Bytes
  pub name : Bytes

-- `ChildID`
unfoldable pub child_id : Bytes → Bytes → Bytes → Bool → Bytes
child_id parent name call_id specialist =
    parent
    ++ (b'/'
        ∷ ((if specialist then b'w' else b'j')
            ∷ (b'/' ∷ (trim_space name ++ (b'/' ∷ trim_space call_id)))))

-- The switch of `startJob`.
unfoldable pub start_problem : Bytes → Bytes → Bool → CallContext → Option Failure
start_problem name task specialist ctx =
    let is_specialist = any (λ s. text_eq s name) ctx.specialists in
    if is_empty name
    then some (wrap (codes "job name is required") invalid)
    else if is_specialist && not specialist
    then some (
        wrap (name ++ codes " is a specialist; the model starts specialists with spawn_specialist")
          invalid)
    else if not is_specialist && specialist
    then some (wrap (name ++ codes " is not a specialist") not_found)
    else if not specialist && not (any (λ j. text_eq j name) ctx.jobs)
    then some (wrap (name ++ codes " is not a registered job") not_found)
    else if is_empty task
    then some (wrap (codes "task is required") invalid)
    else none

-- Whether the child runs, or this call starts it already.
unfoldable pub is_started : Bytes → CallContext → Bool
is_started id ctx =
    any (λ r. text_eq r id) ctx.running || any (λ (o : JobStart). text_eq o.id id) ctx.call.starts

-- The children that the session runs, with the ones that this call starts.
abbrev pub children : CallContext → ℕ
children ctx = length ctx.running + length ctx.call.starts

-- Whether the limit refuses one more child.
abbrev pub is_full : CallContext → Bool
is_full ctx = ltb 0 ctx.max_children && leb ctx.max_children (children ctx)

abbrev too_many : Bytes → ℕ → Failure
too_many name n = record {
  text =
      name
      ++ (codes ": this session already runs "
          ++ (decimal n
              ++ codes
                  " jobs, the most it may run at once. Wait for one to finish, or stop one with cancel_child"));
  kinds = invalid ∷ correction ∷ [];
}

-- The call waits for the child when the request says so.
waiting : Bool → Bytes → CallContext → CallContext
waiting false id ctx = ctx
waiting true id ctx = record ctx { call = record ctx.call { await = id } }

-- The child's start is added to the call, unless it is started or the limit refuses it.
start_once : Bool → Bool → JobStart → CallContext → Result CallContext
start_once true full s ctx = ok ctx
start_once false true s ctx = err (too_many s.name (children ctx))
start_once false false s ctx =
    ok (record ctx { call = record ctx.call { starts = ctx.call.starts ++ s ∷ [] } })

start_result : JobStart → Bool → Result CallContext → Result (JobInfo × CallContext)
start_result s wait (err e) = err e
start_result s wait (ok ctx) = ok (record { id = s.id; name = s.name }, waiting wait s.id ctx)

abbrev pub requested : JobRequest → Bool → CallContext → JobStart
requested req specialist ctx =
    let name = trim_space req.name in
    record {
      id = child_id ctx.session_id name (call_key ctx.call) specialist;
      name = name;
      task = trim_space req.task;
      specialist = specialist;
    }

-- `CallContext.startJob`
unfoldable pub start_job : JobRequest → Bool → CallContext → Result (JobInfo × CallContext)
unfolding start_result start_once waiting
start_job req specialist ctx =
    let s = requested req specialist ctx in
    elim (start_problem s.name s.task specialist ctx) [
      | some e ↦ err e
      | none ↦ start_result s req.wait (start_once (is_started s.id ctx) (is_full ctx) s ctx)
    ]

-- `CallContext.Jobs`
unfoldable pub jobs : CallContext → List JobInfo
jobs ctx =
    map (λ id. record { id = id; name = [] }) ctx.running
    ++ map (λ (s : JobStart). record { id = s.id; name = s.name }) ctx.call.starts

-- `CallContext.CancelJob`
unfoldable pub cancel_job : Bytes → CallContext → Result CallContext
unfolding jobs
cancel_job id ctx =
    if any (λ (j : JobInfo). text_eq j.id id) (jobs ctx)
    then ok (record ctx { call = record ctx.call { cancels = ctx.call.cancels ++ id ∷ [] } })
    else err (wrap (codes "job is unknown") not_found)

-- The children of a call's context stay within the session's limit.
abbrev pub InLimit : CallContext → Type 0
InLimit ctx = 0 < ctx.max_children → children ctx ≤ ctx.max_children

-- What a successful start leaves of a context: its child is started, at most one child is added, the
-- limit holds, and the rest that a start reads is as it was.
record Started (id : Bytes) (ctx ctx' : CallContext) : Type 0 where
  started : is_started id ctx' ≡ true
  fits : InLimit ctx → InLimit ctx'
  session_id : ctx'.session_id ≡ ctx.session_id
  tool : ctx'.call.tool ≡ ctx.call.tool
  specialists : ctx'.specialists ≡ ctx.specialists
  jobs : ctx'.jobs ≡ ctx.jobs

abbrev StartsWell : Bytes → CallContext → Result CallContext → Type 0
StartsWell id ctx (err e) = Unit
StartsWell id ctx (ok ctx') = Started id ctx ctx'

is_started-added :
    (id : Bytes) (rs : List Bytes) (s : JobStart) (ss : List JobStart)
    → s.id ≡ id
    → (any (λ r. text_eq r id) rs || any (λ (o : JobStart). text_eq o.id id) (ss ++ s ∷ [])) ≡ true
is_started-added id rs s ss same =
    ground (arith, any-append (λ (o : JobStart). text_eq o.id id) ss (s ∷ []), text_eq_iff s.id id)

start_once-StartsWell :
    (b full : Bool) (s : JobStart) (ctx : CallContext)
    → is_started s.id ctx ≡ b
    → is_full ctx ≡ full
    → StartsWell s.id ctx (start_once b full s ctx)
unfolding start_once is_started
start_once-StartsWell true full s ctx old full_is = record {
  started = old;
  fits = λ h. h;
  session_id = refl;
  tool = refl;
  specialists = refl;
  jobs = refl;
}
start_once-StartsWell false true s ctx new full_is = tt
start_once-StartsWell false false s ctx new full_is = record {
  started = is_started-added s.id ctx.running s ctx.call.starts refl;
  fits = λ h pos. ground (arith, length-append ctx.call.starts (s ∷ []));
  session_id = refl;
  tool = refl;
  specialists = refl;
  jobs = refl;
}

waiting-Started :
    (b : Bool) (id : Bytes) (ctx ctx' : CallContext)
    → Started id ctx ctx'
    → Started id ctx (waiting b id ctx')
unfolding waiting is_started
waiting-Started false id ctx ctx' h = h
waiting-Started true id ctx ctx' h = record {
  started = h.started;
  fits = h.fits;
  session_id = h.session_id;
  tool = h.tool;
  specialists = h.specialists;
  jobs = h.jobs;
}

waiting-waiting :
    (b : Bool) (id : Bytes) (ctx : CallContext) → waiting b id (waiting b id ctx) ≡ waiting b id ctx
unfolding waiting
waiting-waiting false id ctx = refl
waiting-waiting true id ctx = refl

start_problem-same :
    (name task : Bytes) (specialist : Bool) (id : Bytes) (ctx ctx' : CallContext)
    → Started id ctx ctx'
    → start_problem name task specialist ctx' ≡ start_problem name task specialist ctx
unfolding start_problem
start_problem-same name task specialist id ctx ctx' h = rw (h.specialists, h.jobs) refl

-- A start of a child that the call starts already changes only what the call waits on.
abbrev ReturnsOld : JobRequest → Bool → CallContext → JobStart → Type 0
ReturnsOld req specialist ctx s =
    start_problem s.name s.task specialist ctx ≡ none
    → is_started s.id ctx ≡ true
    → start_job req specialist ctx
      ≡ ok (record { id = s.id; name = s.name }, waiting req.wait s.id ctx)

start_old :
    (req : JobRequest) (specialist : Bool) (ctx : CallContext)
    → ReturnsOld req specialist ctx (requested req specialist ctx)
unfolding start_job start_result start_once
start_old req specialist ctx valid old = rw (valid, start_job, old) refl

requested-same :
    (req : JobRequest) (specialist : Bool) (id : Bytes) (ctx ctx' : CallContext)
    → Started id ctx ctx'
    → requested req specialist ctx' ≡ requested req specialist ctx
requested-same req specialist id ctx ctx' h =
    ap
      (λ ((parent, tool) : Bytes × ToolCall). record {
        id = child_id parent (trim_space req.name) (tool_key tool) specialist;
        name = trim_space req.name;
        task = trim_space req.task;
        specialist = specialist;
      })
      (λ i. (h.session_id i, h.tool i))

start_again :
    (req : JobRequest) (specialist : Bool) (ctx ctx' : CallContext)
    → Started (requested req specialist ctx).id ctx ctx'
    → start_problem (trim_space req.name) (trim_space req.task) specialist ctx ≡ none
    → start_job req specialist ctx'
      ≡ ok (
        record { id = (requested req specialist ctx).id; name = trim_space req.name },
        waiting req.wait (requested req specialist ctx).id ctx',
      )
start_again req specialist ctx ctx' h valid =
    subst (ReturnsOld req specialist ctx') (requested-same req specialist _ ctx ctx' h)
      (start_old req specialist ctx')
      (start_problem-same (trim_space req.name) (trim_space req.task) specialist _ ctx ctx' h
        ∙ valid)
      h.started

abbrev Succeeds : JobRequest → Bool → CallContext → Result (JobInfo × CallContext) → Type 0
Succeeds req specialist ctx (err e) = Unit
Succeeds req specialist ctx (ok (j, ctx')) =
    (is_started j.id ctx' ≡ true)
    × (InLimit ctx → InLimit ctx')
    × (start_job req specialist ctx' ≡ ok (j, ctx'))

start_result-Succeeds :
    (req : JobRequest) (specialist : Bool) (ctx : CallContext) (r : Result CallContext)
    → start_problem (trim_space req.name) (trim_space req.task) specialist ctx ≡ none
    → StartsWell (requested req specialist ctx).id ctx r
    → Succeeds req specialist ctx (start_result (requested req specialist ctx) req.wait r)
unfolding start_result
start_result-Succeeds req specialist ctx (err e) valid h = tt
start_result-Succeeds req specialist ctx (ok ctx') valid h =
    let id = (requested req specialist ctx).id in
    let h' = waiting-Started req.wait id ctx ctx' h in
    (
      h'.started,
      h'.fits,
      start_again req specialist ctx (waiting req.wait id ctx') h' valid
          ∙ ap (λ x. ok (record { id = id; name = trim_space req.name }, x))
              (waiting-waiting req.wait id ctx'),
    )

start_job-Succeeds :
    (req : JobRequest) (specialist : Bool) (ctx : CallContext)
    → Succeeds req specialist ctx (start_job req specialist ctx)
unfolding start_job
start_job-Succeeds req specialist ctx =
    let s = requested req specialist ctx in
    elim (Option-cases (start_problem s.name s.task specialist ctx)) [
      | inl e ↦
          rw (e, start_job)
            (start_result-Succeeds req specialist ctx _ e
              (start_once-StartsWell (is_started s.id ctx) (is_full ctx) s ctx refl refl))
      | inr (x, e) ↦ rw (e, start_job) tt
    ]

-- A start that succeeds leaves the child started, and the session's children within its limit if they
-- were before. The same start again, as when the call's step runs again, gives the same child and
-- changes nothing.
pub start_job-once :
    (req : JobRequest) (specialist : Bool) (ctx ctx' : CallContext) (j : JobInfo)
    → start_job req specialist ctx ≡ ok (j, ctx')
    → (is_started j.id ctx' ≡ true)
      × (InLimit ctx → InLimit ctx')
      × (start_job req specialist ctx' ≡ ok (j, ctx'))
start_job-once req specialist ctx ctx' j h =
    subst (Succeeds req specialist ctx) h (start_job-Succeeds req specialist ctx)
