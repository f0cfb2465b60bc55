-- ===== src/Call.antt =====
-- One tool call through its life, and the round of a reply (toolcall.go, drive.go). The stored form
-- of a body is its JSON; the fields are what it holds. A search rest is its encoding.
use tacklr.Base.{
  ◌≡◌, refl, ap, ℕ, Bool, false, not, ◌&&◌, Option, none, List, [], ◌∷◌, map, Bytes, is_empty,
  is_some, find_index?, any,
}
use tacklr.Failure.{Failure}
use tacklr.Message.{Message, ToolCall, tool_key}
use tacklr.Plan.{Effect, PlanOp}
use tacklr.Permissions.{Decision}

-- `Park`
pub record Park : Type 0 where
  pub interrupt_id : Bytes
  pub payload : Bytes

-- `JobStart`
pub record JobStart : Type 0 where
  pub id : Bytes
  pub name : Bytes
  pub task : Bytes
  pub specialist : Bool

-- `session.JobResult`
pub record JobResult : Type 0 where
  pub output : Bytes
  pub failed : Bool

-- The choices of interrupt.go's two prompts.
pub record UserChoice : Type 0 where
  pub title : Bytes
  pub description : Bytes
  pub is_recommended : Bool

pub record PermissionOption : Type 0 where
  pub option_id : Bytes
  pub name : Bytes
  pub kind : Bytes

-- The interrupt types that the package declares, and any that a host registers.
pub data Interrupt : Type 0 where
  user_selection :
      (question : Bytes) (options : List UserChoice) (confirmed : Option UserChoice) → Interrupt
  tool_permission :
      (tool_name title : Bytes) (options : List PermissionOption)
      (selected_option_id selected_kind : Bytes) (allowed : Bool)
      → Interrupt
  auth_expired : (tool provider : Bytes) → Interrupt
  custom : (type_name state : Bytes) → Interrupt

-- `callPark`
pub record CallPark : Type 0 where
  pub interrupt : Interrupt
  pub answered : Bool

-- `onCallLayer`
pub record OnCallLayer : Type 0 where
  pub type_name : Bytes
  pub args : Bytes

-- `stateWrite`: `none` deletes the key. A value is its JSON.
pub record StateWrite : Type 0 where
  pub key : Bytes
  pub value : Option Bytes

pub record PermissionWrite : Type 0 where
  pub tool : Bytes
  pub decision : Decision

pub record RestWrite : Type 0 where
  pub key : Bytes
  pub rest : Bytes

-- `callWrites`
pub record CallWrites : Type 0 where
  pub state : List StateWrite
  pub permissions : List PermissionWrite
  pub rests : List RestWrite
  pub plan : List PlanOp

abbrev pub no_writes : CallWrites
no_writes = record { state = []; permissions = []; rests = []; plan = [] }

-- `CallBody`
pub record CallBody : Type 0 where
  pub result : Option Message
  pub effect : Effect
  pub park : Option CallPark
  pub layers : List OnCallLayer
  pub writes : CallWrites

abbrev pub empty_body : CallBody
empty_body = record {
  result = none;
  effect = Effect.no_effect;
  park = none;
  layers = [];
  writes = no_writes;
}

-- `Call`. `await` is "" when the call waits on no job; `max_jobs` is 0 for no limit.
pub record Call : Type 0 where
  pub tool : ToolCall
  pub timeout : ℕ
  pub done : Bool
  pub park : Option Park
  pub await : Bytes
  pub starts : List JobStart
  pub cancels : List Bytes
  pub answer : Option Bytes
  pub job_end : Option JobResult
  pub jobs : List Bytes
  pub max_jobs : ℕ
  pub body : Option CallBody
  pub failure : Option Failure

-- `NewCall`
abbrev pub new_call : ToolCall → ℕ → Call
new_call tool timeout = record {
  tool = tool;
  timeout = timeout;
  done = false;
  park = none;
  await = [];
  starts = [];
  cancels = [];
  answer = none;
  job_end = none;
  jobs = [];
  max_jobs = 0;
  body = none;
  failure = none;
}

-- `Call.Key`
abbrev pub call_key : Call → Bytes
call_key c = tool_key c.tool

-- `Call.Parked`
abbrev pub is_parked : Call → Bool
is_parked c = not c.done && is_some c.park

-- `Call.Waits`
abbrev pub waits : Call → Bool
waits c = not c.done && not (is_empty c.await)

-- `Call.Pending`
abbrev pub is_pending : Call → Bool
is_pending c = not c.done && not (is_some c.park) && is_empty c.await

-- `Reply`
pub record Reply : Type 0 where
  pub messages : List Message
  pub calls : List ToolCall
  pub result : Bytes
  pub timeouts : List ℕ
  pub input_tokens : ℕ

-- `Round`
pub record Round : Type 0 where
  pub reply : Reply
  pub calls : List Call

-- The calls of `NewRound`, each with its place in `Reply.Timeouts`.
unfoldable pub calls_of : List ToolCall → List ℕ → List Call
calls_of [] ts = []
calls_of (tc ∷ tcs) [] = new_call tc 0 ∷ calls_of tcs []
calls_of (tc ∷ tcs) (t ∷ ts) = new_call tc t ∷ calls_of tcs ts

-- `NewRound`
unfoldable pub new_round : Reply → Round
unfolding calls_of
new_round reply = record { reply = reply; calls = calls_of reply.calls reply.timeouts }

-- `Round.Parked`: `none` is -1.
abbrev pub parked : List Call → Option ℕ
parked calls = find_index? is_parked calls

-- `Round.Complete`
abbrev pub is_complete : List Call → Bool
is_complete calls = not (any (λ c. not c.done) calls)

pub calls_of-tool_key :
    (tcs : List ToolCall) (ts : List ℕ) → map call_key (calls_of tcs ts) ≡ map tool_key tcs
unfolding calls_of
calls_of-tool_key [] ts = refl
calls_of-tool_key (tc ∷ tcs) [] = ap (◌∷◌ (tool_key tc)) (calls_of-tool_key tcs [])
calls_of-tool_key (tc ∷ tcs) (t ∷ ts) = ap (◌∷◌ (tool_key tc)) (calls_of-tool_key tcs ts)
