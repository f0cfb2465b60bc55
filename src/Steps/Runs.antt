-- ===== src/Steps/Runs.antt =====
-- How a run of a call ends (durable_steps.go).
use tacklr.Base.{
  ◌≡◌, refl, ap, ◌∙◌, subst, ℕ, zero, suc, true, false, ◌&&◌, Option, none, some, List, [], ◌∷◌,
  Bytes, text_eq, is_empty, find_index?, get_elem?, All, Option-cases, Bool-cases, inl, inr, arith,
}
use tacklr.Failure.{Result, ok, err, ◌>>=◌, is, auth_expired}
use tacklr.Message.{Message, ToolCall, wire_id}
use tacklr.Plan.{Effect, no_effect}
use tacklr.Call.{Call, call_key, CallBody, Interrupt, Park, JobResult, is_pending}
use tacklr.CallContext.{CallContext, new_call_context, park, resume}
use tacklr.Steps.{
  Ran, outcome, parked, fails, Tool, find_tool, finish_call, Harness, unknown_tool, parked_on,
  or_auth_expired, settle_run, execute_tool_call, ran_call, opened, answered_run, run_call,
}

-- How a call stands after a run: it has its result, a park that names it, or a job to wait on.
pub data RunEnd (c : Call) : Type 0 where
  finished :
      (b : CallBody) (m : Message)
      → c.done ≡ true
      → c.body ≡ some b
      → b.result ≡ some m
      → m.tool_call_id ≡ wire_id c.tool
      → RunEnd c
  parks : (p : Park) → c.done ≡ false → c.park ≡ some p → p.interrupt_id ≡ call_key c → RunEnd c
  awaits : c.done ≡ false → is_empty c.await ≡ false → RunEnd c

-- A tool's run changes its call only through its context: the call's tool stays, and it is not done.
pub record KeepsCall (t : Tool) : Type 0 where
  pub same_tool : (ctx : CallContext) → (t.run ctx).1.call.tool ≡ ctx.call.tool
  pub same_done : (ctx : CallContext) → (t.run ctx).1.call.done ≡ ctx.call.done

registered-KeepsCall :
    (ts : List Tool) (i : ℕ) (t : Tool) → All KeepsCall ts → get_elem? ts i ≡ some t → KeepsCall t
registered-KeepsCall [] i t h e = absurd (cc e)
registered-KeepsCall (x ∷ ts) zero t h e = subst (λ o. KeepsOpt o) e h.0
  where
    KeepsOpt : Option Tool → Type 0
    KeepsOpt none = Unit
    KeepsOpt (some t) = KeepsCall t
registered-KeepsCall (x ∷ ts) (suc i) t h e = registered-KeepsCall ts i t h.1 e

find_tool-KeepsCall :
    (name namespace : Bytes) (ts : List Tool) (t : Tool)
    → All KeepsCall ts
    → find_tool name namespace ts ≡ some t
    → KeepsCall t
find_tool-KeepsCall name namespace ts t keeps e =
    found (find_index? (λ (x : Tool). text_eq x.name name && text_eq x.namespace namespace) ts) e
  where
    found :
        (o : Option ℕ) → (elim o [ none ↦ none | some i ↦ get_elem? ts i ]) ≡ some t → KeepsCall t
    found none k = absurd (cc k)
    found (some i) k = registered-KeepsCall ts i t keeps k

module _ (h : Harness) where
  -- The run ends for the call of this tool.
  record RanFor (tc : ToolCall) (ctx : CallContext) : Type 0 where
    same : ctx.call.tool ≡ tc
    ends : RunEnd (ran_call h ctx)

  finish_call-RanFor :
      (content : Bytes) (asked : Effect) (ctx : CallContext)
      → RanFor ctx.call.tool (finish_call content asked ctx)
  finish_call-RanFor content asked ctx = record {
    same = refl;
    ends = finished _ _ refl refl refl refl;
  }

  settle_run-RanFor :
      (r : Ran) (ctx : CallContext)
      → ctx.call.done ≡ false
      → RanFor ctx.call.tool (settle_run h r ctx)
  unfolding settle_run parked_on
  settle_run-RanFor (parked i) ctx new = record { same = refl; ends = parks _ new refl refl }
  settle_run-RanFor (fails e) ctx new = finish_call-RanFor e.text no_effect ctx
  settle_run-RanFor (outcome o) ctx new = elim (Bool-cases (is_empty ctx.call.await)) [
    | inl e ↦ rw (e, settle_run) (finish_call-RanFor (h.shown o.output) o.effect ctx)
    | inr e ↦ rw (e, settle_run) (record { same = refl; ends = awaits new e })
  ]

  -- Expired credentials change only the body.
  or_auth_expired-call : (r : Ran) (ctx : CallContext) → (or_auth_expired h r ctx).1.call ≡ ctx.call
  unfolding or_auth_expired
  or_auth_expired-call (outcome o) ctx = refl
  or_auth_expired-call (parked i) ctx = refl
  or_auth_expired-call (fails e) ctx = elim (Bool-cases (is e auth_expired)) [
    | inl k ↦ rw (k, or_auth_expired) refl
    | inr k ↦ rw (k, or_auth_expired) refl
  ]

  tool_ran :
      (t : Tool) (ctx : CallContext)
      → KeepsCall t
      → ctx.call.done ≡ false
      → RanFor ctx.call.tool (
          settle_run h
            (or_auth_expired h (t.run ctx).0 (t.run ctx).1).0
            (or_auth_expired h (t.run ctx).0 (t.run ctx).1).1)
  tool_ran t ctx keeps new =
      let same = or_auth_expired-call (t.run ctx).0 (t.run ctx).1 in
      let r =
        settle_run-RanFor (or_auth_expired h (t.run ctx).0 (t.run ctx).1).0
          (or_auth_expired h (t.run ctx).0 (t.run ctx).1).1
          (ap (λ (c : Call). c.done) same ∙ (keeps.same_done ctx ∙ new)) in
      record {
        same = r.same ∙ (ap (λ (c : Call). c.tool) same ∙ keeps.same_tool ctx);
        ends = r.ends;
      }

  execute_tool_call-RanFor :
      (ctx : CallContext)
      → All KeepsCall h.tools
      → ctx.call.done ≡ false
      → RanFor ctx.call.tool (execute_tool_call h ctx)
  unfolding execute_tool_call
  execute_tool_call-RanFor ctx keeps new =
      run_found (find_tool ctx.call.tool.name ctx.call.tool.namespace h.tools)
        (λ t. find_tool-KeepsCall ctx.call.tool.name ctx.call.tool.namespace h.tools t keeps)
    where
      run_found :
          (o : Option Tool)
          → ((t : Tool) → o ≡ some t → KeepsCall t)
          → RanFor ctx.call.tool (elim o [
            | none ↦ finish_call (unknown_tool ctx.call.tool).text no_effect ctx
            | some t ↦
                let (ran, ctx1) = t.run ctx in
                let (ran2, ctx2) = or_auth_expired h ran ctx1 in settle_run h ran2 ctx2
          ])
      run_found none k = finish_call-RanFor _ no_effect ctx
      run_found (some t) k = tool_ran t ctx (k t refl) new

  -- How a run that succeeds leaves the call.
  abbrev Leaves : ToolCall → Result Call → Type 0
  Leaves tc (err e) = Unit
  Leaves tc (ok c') = (c'.tool ≡ tc) × RunEnd c' × (is_pending c' ≡ false)

  RunEnd-is_pending : (c : Call) → RunEnd c → is_pending c ≡ false
  RunEnd-is_pending c (finished b m done _ _ _) = rw done refl
  RunEnd-is_pending c (parks p new park _) = rw (new, park) refl
  RunEnd-is_pending c (awaits new await) = ground (arith, new, await)

  RanFor-Leaves :
      (tc : ToolCall) (ctx : CallContext) → RanFor tc ctx → Leaves tc (ok (ran_call h ctx))
  RanFor-Leaves tc ctx r = (r.same, r.ends, RunEnd-is_pending (ran_call h ctx) r.ends)

  -- An answer changes only the body.
  abbrev SameCall : CallContext → Result CallContext → Type 0
  SameCall ctx (err e) = Unit
  SameCall ctx (ok ctx') = ctx'.call ≡ ctx.call

  returned :
      (r : Result Interrupt) (ctx : CallContext)
      → SameCall ctx (
          r >>= λ i. ok (record ctx {
            body = record ctx.body { park = some (record { interrupt = i; answered = true }) };
          }))
  returned (ok i) ctx = refl
  returned (err e) ctx = tt

  resume-SameCall : (a : Bytes) (ctx : CallContext) → SameCall ctx (resume h.return_ a ctx)
  unfolding resume
  resume-SameCall a ctx = elim (Option-cases ctx.body.park) [
    | inl e ↦ rw (e, resume) tt
    | inr (p, e) ↦ elim (Bool-cases p.answered) [
      | inl k ↦ rw (e, k, resume) tt
      | inr k ↦ rw (e, k, resume) (returned (h.return_ p.interrupt a) ctx)
    ]
  ]

  execute-Leaves :
      (ctx : CallContext)
      → All KeepsCall h.tools
      → ctx.call.done ≡ false
      → Leaves ctx.call.tool (ok (ran_call h (execute_tool_call h ctx)))
  execute-Leaves ctx keeps new =
      RanFor-Leaves ctx.call.tool (execute_tool_call h ctx) (execute_tool_call-RanFor ctx keeps new)

  resumed-Leaves :
      (ctx : CallContext) (r : Result CallContext)
      → SameCall ctx r
      → All KeepsCall h.tools
      → ctx.call.done ≡ false
      → Leaves ctx.call.tool (r >>= λ ctx'. ok (ran_call h (execute_tool_call h ctx')))
  resumed-Leaves ctx (err e) k keeps new = tt
  resumed-Leaves ctx (ok ctx') k keeps new =
      let (same, ends, idle) = execute-Leaves ctx' keeps (ap (λ (x : Call). x.done) k ∙ new) in
      (same ∙ ap (λ (x : Call). x.tool) k, ends, idle)

  answered_run-Leaves :
      (answer : Option Bytes) (ctx : CallContext)
      → All KeepsCall h.tools
      → ctx.call.done ≡ false
      → Leaves ctx.call.tool (answered_run h answer ctx)
  unfolding answered_run
  answered_run-Leaves none ctx keeps new = execute-Leaves ctx keeps new
  answered_run-Leaves (some a) ctx keeps new =
      resumed-Leaves ctx (resume h.return_ a ctx) (resume-SameCall a ctx) keeps new

  run_call-Leaves :
      (c : Call) → All KeepsCall h.tools → c.done ≡ false → Leaves c.tool (run_call h c)
  unfolding run_call opened new_call_context
  run_call-Leaves c keeps new = job_left c.job_end
    where
      job_left :
          (o : Option JobResult)
          → Leaves c.tool (elim o [
            | some res ↦ ok (ran_call h (finish_call res.output no_effect (opened h c)))
            | none ↦ answered_run h c.answer (opened h c)
          ])
      job_left (some res) =
          RanFor-Leaves c.tool (finish_call res.output no_effect (opened h c))
            (finish_call-RanFor res.output no_effect (opened h c))
      job_left none = answered_run-Leaves c.answer (opened h c) keeps new

  -- Run a call that has no result yet, where the tools change their call only through its context. If the
  -- run succeeds, the call is the same call and is no longer pending: it has its result, a message to
  -- the call's wire id; or it is parked, on an interrupt that its key names; or it waits on a job.
  pub run_call-RunEnd :
      (c c' : Call)
      → All KeepsCall h.tools
      → c.done ≡ false
      → run_call h c ≡ ok c'
      → (c'.tool ≡ c.tool) × RunEnd c' × (is_pending c' ≡ false)
  run_call-RunEnd c c' keeps new e = subst (Leaves c.tool) e (run_call-Leaves c keeps new)
