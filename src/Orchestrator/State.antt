-- ===== src/Orchestrator/State.antt =====
-- The scheduler's state and mailbox (turn.go, types.go and carry.go of session/orchestrator,
-- session/session.go, session/types.go). A list that is nil or empty is [], except where the source
-- tests for nil. An MCP server is its encoding, a trace context its map.
mod Tests
use tacklr.Base.{
  ◌≡◌, refl, ℕ, Bool, true, false, ◌||◌, Option, none, some, List, [], ◌∷◌, ◌++◌, Bytes, codes,
  Dict, copy_into, if◌then◌else◌,
}
use tacklr.Failure.{
  Failure, Result, Sentinel, canceled, context_length, max_tokens, refused, is, context_canceled,
}
use tacklr.Message.{Message, Role, user, text_message}
use tacklr.Mounts.{AuthContext, MountRecipe, no_auth, apply_auth}
use tacklr.Call.{Call, Reply, Round, JobResult, JobStart}

abbrev pub Carrier : Type 0
Carrier = Dict Bytes

-- `session.Prompt`; its servers are `none` when nil.
pub record Prompt : Type 0 where
  pub text : Bytes
  pub user_message : Option Message
  pub mcp_servers : Option (List Bytes)
  pub auth : AuthContext
  pub state : Dict Bytes

-- `session.Resume`
pub record Resume : Type 0 where
  pub responses : Dict Bytes
  pub auth : AuthContext
  pub state : Dict Bytes

-- `session.JobEnd`
pub record JobEnd : Type 0 where
  pub id : Bytes
  pub result : JobResult

-- `session.Wake`, by its kind with what that kind reads. The zero wake is `none` of an `Option`.
pub data Wake : Type 0 where
  prompt : Prompt → Carrier → Wake
  resume : Resume → Carrier → Wake
  cancel close suspend : Wake
  job : JobEnd → Wake

-- The states that a turn's end sets.
pub data Terminal : Type 0 where
  complete failed : Terminal

-- `Job`: `call` is "" for a background job.
pub record Job : Type 0 where
  pub id : Bytes
  pub name : Bytes
  pub call : Bytes
  pub ended : Bool
  pub result : JobResult

-- `Identity`
pub record Identity : Type 0 where
  pub specialist : Bytes
  pub worker : Bytes
  pub parent : Bytes
  pub mounts : List MountRecipe
  pub task : Bool

-- `State`. `terminal` is `none` for "".
pub record State : Type 0 where
  pub session_id : Bytes
  pub identity : Identity
  pub mcp : List Bytes
  pub inbox : List Message
  pub next_mcp : Option (List Bytes)
  pub state : Option (Dict Bytes)
  pub round : Option Round
  pub rev : Bytes
  pub result : Bytes
  pub terminal : Option Terminal
  pub failure : Option Failure
  pub yielded : Bool
  pub finished : Bool
  pub suspended : Bool
  pub jobs : List Job
  pub closed : Bool
  pub cancelled : Bool
  pub held : List Wake
  pub trace : Carrier
  pub span : Carrier

-- `TurnStart`
pub data TurnKind : Type 0 where
  on_prompt on_resume on_continue : TurnKind

pub record TurnStart : Type 0 where
  pub kind : TurnKind
  pub prompt_len : ℕ
  pub resumes : ℕ
  pub parent : Carrier
  pub link : Carrier

-- `CommitIn`
pub record CommitIn : Type 0 where
  pub state : Option (Dict Bytes)
  pub round : Option Round
  pub users : List Message
  pub collapse : Bool

abbrev pub nothing_to_commit : CommitIn
nothing_to_commit = record { state = none; round = none; users = []; collapse = false }

-- The events that the orchestrator itself emits.
pub data Event : Type 0 where
  turn_complete : Event
  interrupt : (message_id payload : Bytes) → Event
  failure_event : Failure → Event

-- `session.FailureEvent` with `session.KindOf`: a cancel is reported as just that, unless the failure
-- is of a kind that is tested for first.
unfoldable pub failure_event_of : Failure → Event
failure_event_of e =
    if is e refused || is e context_length || is e max_tokens
    then failure_event e
    else if is e canceled
    then failure_event context_canceled
    else failure_event e

-- `State.queueState`
unfoldable pub queue_state : Dict Bytes → State → State
queue_state [] t = t
queue_state (e ∷ es) t = elim t.state [
  | none ↦ record t { state = some (copy_into [] (e ∷ es)) }
  | some m ↦ record t { state = some (copy_into m (e ∷ es)) }
]

abbrev pub set_mounts : List MountRecipe → State → State
set_mounts ms t = record t { identity = record t.identity { mounts = ms } }

-- `UserMessage`
abbrev pub user_message_of : Bytes → Option Message → Message
user_message_of text none = text_message user text
user_message_of text (some m) = m

abbrev pub or_keep : Option (List Bytes) → Option (List Bytes) → Option (List Bytes)
or_keep none old = old
or_keep (some servers) old = some servers

-- `State.Steer`
unfoldable pub steer : Prompt → State → State
unfolding queue_state
steer p t =
    let t1 = record t { inbox = t.inbox ++ user_message_of p.text p.user_message ∷ [] } in
    let t2 = set_mounts (apply_auth t1.identity.mounts p.auth) t1 in
    let t3 = queue_state p.state t2 in record t3 { next_mcp = or_keep p.mcp_servers t3.next_mcp }

-- `State.start`
unfoldable pub start_turn : AuthContext → Dict Bytes → State → State
unfolding queue_state
start_turn auth extra t =
    let t1 = queue_state extra t in
    let t2 = set_mounts (apply_auth t1.identity.mounts auth) t1 in
    record t2 {
      terminal = none;
      failure = none;
      yielded = false;
      result = [];
      finished = false;
      cancelled = false;
    }

-- `Carry`
pub record Carry : Type 0 where
  pub mounts : List MountRecipe
  pub mcp : List Bytes
  pub inbox : List Message
  pub next_mcp : Option (List Bytes)
  pub state : Option (Dict Bytes)
  pub round : Option Round
  pub rev : Bytes
  pub result : Bytes
  pub terminal : Option Terminal
  pub yielded : Bool
  pub finished : Bool
  pub suspended : Bool
  pub jobs : List Job
  pub held : List Wake
  pub trace : Carrier
  pub span : Carrier

-- `State.Carry`
unfoldable pub carry : State → Carry
carry t = record {
  mounts = t.identity.mounts;
  mcp = t.mcp;
  inbox = t.inbox;
  next_mcp = t.next_mcp;
  state = t.state;
  round = t.round;
  rev = t.rev;
  result = t.result;
  terminal = t.terminal;
  yielded = t.yielded;
  finished = t.finished;
  suspended = t.suspended;
  jobs = t.jobs;
  held = t.held;
  trace = t.trace;
  span = t.span;
}

fresh_state : Bytes → Identity → List Bytes → Option (Dict Bytes) → State
fresh_state id ident mcp state = record {
  session_id = id;
  identity = record ident { mounts = apply_auth ident.mounts no_auth };
  mcp = mcp;
  inbox = [];
  next_mcp = none;
  state = state;
  round = none;
  rev = [];
  result = [];
  terminal = none;
  failure = none;
  yielded = false;
  finished = false;
  suspended = false;
  jobs = [];
  closed = false;
  cancelled = false;
  held = [];
  trace = [];
  span = [];
}

-- `NewState`
unfoldable pub new_state :
    Bytes → Identity → List Bytes → Option (Dict Bytes) → Option Carry → State
unfolding fresh_state
new_state id ident mcp state none = fresh_state id ident mcp state
new_state id ident mcp state (some c) =
    let t = set_mounts c.mounts (fresh_state id ident mcp state) in
    record t {
      mcp = c.mcp;
      inbox = c.inbox;
      next_mcp = c.next_mcp;
      state = c.state;
      round = c.round;
      rev = c.rev;
      result = c.result;
      terminal = c.terminal;
      yielded = c.yielded;
      finished = c.finished;
      suspended = c.suspended;
      jobs = c.jobs;
      held = c.held;
      trace = c.trace;
      span = c.span;
    }

-- A session that a runtime suspends and restarts goes on from the state it had: all of it but the
-- last failure and the flags of a cancel or a close, which end a Run.
pub carry-new_state :
    (t : State) (mcp : List Bytes) (state : Option (Dict Bytes))
    → new_state t.session_id t.identity mcp state (some (carry t))
      ≡ record t { failure = none; closed = false; cancelled = false }
unfolding new_state carry
carry-new_state t mcp state = refl
