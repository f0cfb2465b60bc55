-- ===== src/Steps.antt =====
-- The Tool step and, of the Commit step, the loop over a round's calls (durable_steps.go), with `findTool`,
-- `toolResultMessage` and `emitToolResult` of agent.go. What a step sends to the client, its spans and
-- logs, and the copy of a specialist's result to a file are left out. A tool with its interceptors is a
-- parameter, and so are the text of an outcome, the expired-credentials error's text, and the JSON that a client gets of a park.
pub mod Runs
pub mod Rounds
pub mod Commits
pub mod OnCall
mod Tests
use tacklr.Base.{
  ◌≡◌, refl, ℕ, Bool, true, false, not, ◌&&◌, ◌||◌, Option, none, some, List, [], ◌∷◌, ◌++◌, Bytes,
  codes, text_eq, is_empty, find_index?, get_elem?, if◌then◌else◌,
}
use tacklr.Failure.{
  Failure, Result, ok, err, ◌>>=◌, wrap, is, auth_expired, not_found, correction, session_not_found,
}
use tacklr.Message.{Message, ToolCall, tool, text_message, wire_id}
use tacklr.Plan.{Effect, no_effect, handoff, install_plan_document, Output, ToolOutcome}
use tacklr.Plan.Store.{consume_todos_updated}
use tacklr.Call.{Call, call_key, CallBody, empty_body, Interrupt, Park, JobResult}
use tacklr.SessionManager.{SessionManager, apply}
use tacklr.CallContext.{CallContext, new_call_context, park, resume}

-- How a run of the interceptors and the tool ends.
pub data Ran : Type 0 where
  outcome : ToolOutcome → Ran
  parked : Interrupt → Ran
  fails : Failure → Ran

-- A registered tool, with what its run does.
pub record Tool : Type 0 where
  pub name : Bytes
  pub namespace : Bytes
  pub run : CallContext → Ran × CallContext

-- `findTool`
abbrev pub find_tool : Bytes → Bytes → List Tool → Option Tool
find_tool name namespace tools =
    elim (find_index? (λ (t : Tool). text_eq t.name name && text_eq t.namespace namespace) tools) [
      | none ↦ none
      | some i ↦ get_elem? tools i
    ]

-- The message of `toolResultMessage`.
abbrev pub tool_result_message : ToolCall → Bytes → Message
tool_result_message tc content = record (text_message tool content) { tool_call_id = wire_id tc }

-- `finishCall`, on the call with its body.
abbrev pub finish_call : Bytes → Effect → CallContext → CallContext
finish_call content effect ctx = record ctx {
  body = record ctx.body {
    result = some (tool_result_message ctx.call.tool content);
    effect = effect;
  };
  call = record ctx.call { done = true };
}

-- What a run needs of the harness.
pub record Harness : Type 0 where
  pub session_id : Bytes
  pub specialists : List Bytes
  pub jobs : List Bytes
  pub session : SessionManager
  pub tools : List Tool
  pub return_ : Interrupt → Bytes → Result Interrupt
  pub shown : Output → Bytes
  pub park_data : Bytes → Interrupt → Bytes

unknown_tool : ToolCall → Failure
unknown_tool tc = record {
  text =
      tc.name
      ++ codes ": not found. That is not a registered tool. Use a name from the available tools";
  kinds = not_found ∷ correction ∷ [];
}

module _ (h : Harness) where
  parked_on : Interrupt → CallContext → CallContext
  parked_on i ctx =
      let key = call_key ctx.call in
      record ctx {
        call = record ctx.call {
          park = some (record { interrupt_id = key; payload = h.park_data key i });
        };
      }

  -- The run of expired credentials parks the call.
  unfoldable pub or_auth_expired : Ran → CallContext → Ran × CallContext
  or_auth_expired (outcome o) ctx = (outcome o, ctx)
  or_auth_expired (parked i) ctx = (parked i, ctx)
  or_auth_expired (fails e) ctx =
      let i = Interrupt.auth_expired ctx.call.tool.name [] in
      if is e auth_expired then (parked i, park i ctx) else (fails e, ctx)

  -- The switch of `executeToolCall`.
  unfoldable pub settle_run : Ran → CallContext → CallContext
  unfolding parked_on
  settle_run (parked i) ctx = parked_on i ctx
  settle_run (fails e) ctx = finish_call e.text no_effect ctx
  settle_run (outcome o) ctx =
      if is_empty ctx.call.await then finish_call (h.shown o.output) o.effect ctx else ctx

  -- `executeToolCall`
  unfoldable pub execute_tool_call : CallContext → CallContext
  unfolding unknown_tool or_auth_expired settle_run
  execute_tool_call ctx = elim (find_tool ctx.call.tool.name ctx.call.tool.namespace h.tools) [
    | none ↦ finish_call (unknown_tool ctx.call.tool).text no_effect ctx
    | some t ↦
        let (ran, ctx1) = t.run ctx in
        let (ran2, ctx2) = or_auth_expired ran ctx1 in settle_run ran2 ctx2
  ]

  -- The call with the body that its run leaves.
  abbrev pub ran_call : CallContext → Call
  ran_call ctx = record ctx.call { body = some ctx.body }

  or_empty_body : Option CallBody → CallBody
  or_empty_body none = empty_body
  or_empty_body (some b) = b

  -- The context that `RunCall` opens.
  opened : Call → CallContext
  opened c =
      new_call_context h.session_id h.specialists h.jobs h.session
        (record c {
          answer = none;
          job_end = none;
          jobs = [];
          max_jobs = 0;
          park = none;
          await = [];
          starts = [];
          cancels = [];
        })
        (or_empty_body c.body) c.jobs c.max_jobs

  answered_run : Option Bytes → CallContext → Result Call
  answered_run none ctx = ok (ran_call (execute_tool_call ctx))
  answered_run (some a) ctx =
      resume h.return_ a ctx >>= λ ctx'. ok (ran_call (execute_tool_call ctx'))

  -- `RunCall`
  unfoldable pub run_call : Call → Result Call
  unfolding execute_tool_call or_empty_body opened answered_run
  run_call c = elim c.job_end [
    | some res ↦ ok (ran_call (finish_call res.output no_effect (opened c)))
    | none ↦ answered_run c.answer (opened c)
  ]

-- `max` of two effects.
abbrev pub max_effect : Effect → Effect → Effect
max_effect no_effect e = e
max_effect handoff install_plan_document = install_plan_document
max_effect handoff _ = handoff
max_effect install_plan_document _ = install_plan_document

cancelled_content : Bytes
cancelled_content = codes "cancelled: user interrupted the agent"

-- A call that is done gives its body's result; the others are cancelled.
abbrev result_of : Call → Option CallBody → Option Message
result_of c body =
    if not c.done
    then some (tool_result_message c.tool cancelled_content)
    else (elim body [ none ↦ none | some b ↦ b.result ])

-- The session after a call's writes, and after the plan update that they cause is sent.
abbrev applied : Option CallBody → SessionManager → SessionManager
applied none s = s
applied (some b) s =
    let s' = apply b.writes s in record s' { plan = (consume_todos_updated s'.plan).1 }

abbrev asked_effect : Option CallBody → Effect
asked_effect none = no_effect
asked_effect (some b) = b.effect

-- The loop of `commitReplyRound` over the calls.
unfoldable pub commit_calls :
    List Call
    → SessionManager
    → List (Option Message)
    → Effect
    → Result (SessionManager × List (Option Message) × Effect)
unfolding cancelled_content
commit_calls [] s msgs effect = ok (s, msgs, effect)
commit_calls (c ∷ cs) s msgs effect =
    let rest =
      commit_calls cs (applied c.body s) (msgs ++ result_of c c.body ∷ [])
        (max_effect effect (asked_effect c.body)) in
    elim c.body [
      | none ↦
          if c.done
          then err (wrap (codes "tool call has a result but no body") session_not_found)
          else rest
      | some b ↦ rest
    ]
