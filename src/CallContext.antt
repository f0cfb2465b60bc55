-- ===== src/CallContext.antt =====
-- What a tool call's tool gets (call.go), with `ChildID` of runtime_children.go. The context is the
-- call, its body, and the committed state that it reads. The goroutines' lock makes each operation one
-- step. The interrupts' `Return` and the registry of interrupt types are parameters.
pub mod Reads
pub mod Replays
pub mod Starts
mod Tests
use tacklr.Base.{
  ◌≡◌, refl, ℕ, zero, suc, ◌+◌, Bool, true, false, not, ◌&&◌, ◌||◌, ltb, leb, Option, none, some,
  is_some, List, [], ◌∷◌, ◌++◌, map, length, any, keep, find_index?, get_elem?, Bytes, codes,
  decimal, text_eq, is_empty, trim_space, Dict, lookup, insert, if◌then◌else◌,
}
use tacklr.Failure.{
  Failure, Result, ok, err, ◌>>=◌, plain, wrap, not_found, invalid, correction, auth_expired,
  interrupt_not_found,
}
use tacklr.Permissions.{Decision, decision, allow_always, deny_always}
use tacklr.Plan.{Todo, PlanOp, change, Changed, ToolOutcome}
use tacklr.Plan.Store.{PlanStore, snapshot}
use tacklr.Call.{
  Call, call_key, CallBody, CallPark, Interrupt, OnCallLayer, StateWrite, PermissionWrite,
  RestWrite, CallWrites, JobStart, user_selection, tool_permission, custom,
}
use tacklr.SessionManager.{Value, decoded, SessionManager, state}

-- `Interrupt.TypeName`
abbrev pub type_name : Interrupt → Bytes
type_name (user_selection _ _ _) = codes "user_selection_choice"
type_name (tool_permission _ _ _ _ _ _) = codes "tool_permission"
type_name (Interrupt.auth_expired _ _) = codes "auth_expired"
type_name (custom name _) = name

-- `userValue`: `none` is a deleted key.
abbrev pub UserValue : Type 0
UserValue = Option Value

-- `CallContext`. `specialists` and `jobs` are the names that the harness registers; `max_children`
-- is 0 for no limit.
pub record CallContext : Type 0 where
  pub session_id : Bytes
  pub specialists : List Bytes
  pub jobs : List Bytes
  pub session : SessionManager
  pub running : List Bytes
  pub max_children : ℕ
  pub call : Call
  pub body : CallBody
  pub user : Dict UserValue

-- What a write of an earlier run is read back as.
abbrev pub read_back : Option Bytes → UserValue
read_back none = none
read_back (some raw) = some (decoded raw)

-- The loop of `newCallContext`.
unfoldable pub user_values : List StateWrite → Dict UserValue → Dict UserValue
user_values [] m = m
user_values (w ∷ ws) m = user_values ws (insert w.key (read_back w.value) m)

-- `newCallContext`, of the call, its body, and what the harness and its session give.
unfoldable pub new_call_context :
    Bytes
    → List Bytes
    → List Bytes
    → SessionManager
    → Call
    → CallBody
    → List Bytes
    → ℕ
    → CallContext
unfolding user_values
new_call_context id specialists jobs s c b running max_children = record {
  session_id = id;
  specialists = specialists;
  jobs = jobs;
  session = s;
  running = running;
  max_children = max_children;
  call = c;
  body = b;
  user = user_values b.writes.state [];
}

abbrev pub with_writes : (CallWrites → CallWrites) → CallContext → CallContext
with_writes f ctx = record ctx { body = record ctx.body { writes = f ctx.body.writes } }

-- `CallContext.StateGet`
unfoldable pub state_get : Bytes → CallContext → Option Value
state_get key ctx = elim (lookup key ctx.user) [ some v ↦ v | none ↦ state ctx.session key ]

-- The value that the call reads of a key from now on, and the write that its commit applies.
unfoldable pub write_user : Bytes → UserValue → Option Bytes → CallContext → CallContext
write_user key v raw ctx =
    let w : StateWrite = record { key = key; value = raw } in
    with_writes (λ ws. record ws { state = ws.state ++ w ∷ [] })
      (record ctx { user = insert key v ctx.user })

-- `CallContext.StateSet`, with `json.Marshal`: the call keeps the value itself, and writes its encoding.
unfoldable pub state_set : (Value → Result Bytes) → Bytes → Value → CallContext → Result CallContext
unfolding write_user
state_set encode key v ctx = elim (encode v) [
  | err e ↦ err (record { text = codes "state: " ++ e.text; kinds = e.kinds })
  | ok raw ↦ ok (write_user key (some v) (some raw) ctx)
]

-- `CallContext.StateDelete`
unfoldable pub state_delete : Bytes → CallContext → CallContext
unfolding write_user
state_delete key ctx = write_user key none none ctx

-- `CallContext.park`; the interrupt is the error that the tool returns.
abbrev pub park : Interrupt → CallContext → CallContext
park i ctx = record ctx {
  body = record ctx.body { park = some (record { interrupt = i; answered = false }) };
}

-- `CallContext.resume`, with the interrupt's `Return`.
unfoldable pub resume :
    (Interrupt → Bytes → Result Interrupt) → Bytes → CallContext → Result CallContext
resume return_ payload ctx = elim ctx.body.park [
  | none ↦ err (wrap (codes "interrupt not found") interrupt_not_found)
  | some p ↦
      if p.answered
      then err (wrap (codes "interrupt not found") interrupt_not_found)
      else return_ p.interrupt payload >>= λ i. ok (record ctx {
        body = record ctx.body { park = some (record { interrupt = i; answered = true }) };
      })
]

-- `CallContext.takeAnswer`
unfoldable pub take_answer : Bytes → CallContext → Option Interrupt × CallContext
take_answer name ctx = elim ctx.body.park [
  | none ↦ (none, ctx)
  | some p ↦
      if not p.answered || not (text_eq (type_name p.interrupt) name)
      then (none, ctx)
      else (some p.interrupt, record ctx { body = record ctx.body { park = none } })
]

-- How a tool's `Park` ends: with the answer, parked on the interrupt, or with an error.
pub data Parking : Type 0 where
  answered : Interrupt → Parking
  parks : Interrupt → Parking
  not_registered : Failure → Parking

-- `CallContext.Park`, with the registry's test of a type's name.
unfoldable pub park_on : (Bytes → Bool) → Interrupt → CallContext → Parking × CallContext
unfolding take_answer
park_on is_registered i ctx =
    let (answer, ctx') = take_answer (type_name i) ctx in
    elim answer [
      | some a ↦ (answered a, ctx')
      | none ↦
          if is_registered (type_name i)
          then (parks i, park i ctx')
          else (not_registered (wrap (codes "interrupt type is not registered") invalid), ctx')
    ]

-- `CallBody.layer`
abbrev pub layer : Bytes → CallBody → Option OnCallLayer
layer name b = elim (find_index? (λ l. text_eq l.type_name name) b.layers) [
  | none ↦ none
  | some i ↦ get_elem? b.layers i
]

-- `CallContext.recordLayer`
abbrev pub record_layer : OnCallLayer → CallContext → CallContext
record_layer l ctx = record ctx { body = record ctx.body { layers = ctx.body.layers ++ l ∷ [] } }

-- The loop of `decision` from the last write to the first.
unfoldable pub own_decision : Bytes → List PermissionWrite → Option Decision
own_decision name [] = none
own_decision name (w ∷ ws) = elim (own_decision name ws) [
  | some d ↦ some d
  | none ↦ if text_eq w.tool name then some w.decision else none
]

-- `CallContext.decision`
unfoldable pub decision_of : Bytes → CallContext → Decision
unfolding own_decision
decision_of name ctx = elim (own_decision name ctx.body.writes.permissions) [
  | some d ↦ d
  | none ↦ decision ctx.session.permissions name
]

-- The answer that `SelectedKind` asks to keep.
abbrev pub kept_answer : Bytes → Option Decision
kept_answer kind =
    if text_eq kind (codes "allow_always")
    then some allow_always
    else if text_eq kind (codes "reject_always")
    then some deny_always
    else none

-- `CallContext.rememberAnswer`, of the prompt's tool and selected kind.
unfoldable pub remember_answer : Bytes → Bytes → CallContext → CallContext
remember_answer tool kind ctx = elim (kept_answer kind) [
  | none ↦ ctx
  | some d ↦
      let w : PermissionWrite = record { tool = tool; decision = d } in
      with_writes (λ ws. record ws { permissions = ws.permissions ++ w ∷ [] }) ctx
]

-- The loop of `rest` from the last write to the first.
unfoldable pub own_rest : Bytes → List RestWrite → Option Bytes
own_rest tool [] = none
own_rest tool (w ∷ ws) = elim (own_rest tool ws) [
  | some r ↦ some r
  | none ↦ if text_eq w.key tool then some w.rest else none
]

-- `CallContext.rest`; `none` is the zero rest.
unfoldable pub rest_of : Bytes → CallContext → Option Bytes
unfolding own_rest
rest_of tool ctx = elim (own_rest tool ctx.body.writes.rests) [
  | some r ↦ some r
  | none ↦ lookup tool ctx.session.rests
]

-- `CallContext.setRest`
abbrev pub set_rest : Bytes → Bytes → CallContext → CallContext
set_rest tool rest ctx =
    let w : RestWrite = record { key = tool; rest = rest } in
    with_writes (λ ws. record ws { rests = ws.rests ++ w ∷ [] }) ctx

-- The plan after a change, or as it was when the change fails.
abbrev pub planned : Option (List Todo) × Bytes → Result Changed → Option (List Todo) × Bytes
planned before (ok r) = (r.todos, r.doc)
planned before (err e) = before

-- The loop of `plan`.
unfoldable pub plan_from : List PlanOp → Option (List Todo) × Bytes → Option (List Todo) × Bytes
plan_from [] p = p
plan_from (op ∷ ops) p = plan_from ops (planned p (change op p.0 p.1))

-- `CallContext.plan`
unfoldable pub plan : CallContext → Option (List Todo) × Bytes
unfolding plan_from
plan ctx = plan_from ctx.body.writes.plan (snapshot ctx.session.plan)

-- `CallContext.changePlan`
unfoldable pub change_own_plan : PlanOp → CallContext → Result (ToolOutcome × CallContext)
unfolding plan
change_own_plan op ctx =
    let (todos, doc) = plan ctx in
    change op todos doc >>= λ r.
    ok (r.out, with_writes (λ ws. record ws { plan = ws.plan ++ op ∷ [] }) ctx)
