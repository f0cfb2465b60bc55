-- ===== src/CallContext/Replays.antt =====
-- What a commit makes of each kind of a call's writes, against what the call reads of them (call.go, session_manager.go).
use tacklr.Base.{
  ◌≡◌, refl, ap, ◌∙◌, Bool, true, false, Option, none, some, List, [], ◌∷◌, Bytes, text_eq, Dict,
  lookup, insert, lookup-insert, lookup-erase, if◌then◌else◌, arith, All, Option-cases, inl, inr,
}
use tacklr.Failure.{Result, ok, err}
use tacklr.Permissions.{
  Decision, none_yet, allow_always, deny_always, Permissions, decided, granted_decision, decision,
  set_decision, decision-set_decision,
}
use tacklr.Plan.{Todo, PlanOp, Changed, change}
use tacklr.Plan.Store.{
  PlanStore, snapshot, snapshot-replay_plan_op, replay_plan_op, replay_plan_ops,
}
use tacklr.Call.{StateWrite, PermissionWrite, RestWrite}
use tacklr.SessionManager.{
  Value, decoded, write_state, apply_states, apply_permissions, apply_rests,
}
use tacklr.CallContext.{
  UserValue, read_back, user_values, own_decision, own_rest, planned, plan_from,
}

-- A key as the call reads it: from its own values, else from the committed ones.
abbrev pub read : Option UserValue → Option Value → Option Value
read (some v) committed = v
read none committed = committed

write_read :
    (w : StateWrite) (key : Bytes) (own : Dict UserValue) (committed m : Dict Value)
    → read (lookup key own) (lookup key committed) ≡ lookup key m
    → read (lookup key (insert w.key (read_back w.value) own)) (lookup key committed)
      ≡ lookup key (write_state w m)
write_read w key own committed m h = elim (Option-cases w.value) [
  | inl e ↦ rw e (ground (arith, lookup-insert w.key key none own, lookup-erase w.key key m, h))
  | inr (raw, e) ↦ rw e (
      ground (
        arith,
        lookup-insert w.key key (some (decoded raw)) own,
        lookup-insert w.key key (decoded raw) m,
        h,
      ))
]

pub states_read :
    (ws : List StateWrite) (key : Bytes) (own : Dict UserValue) (committed m : Dict Value)
    → read (lookup key own) (lookup key committed) ≡ lookup key m
    → read (lookup key (user_values ws own)) (lookup key committed) ≡ lookup key (apply_states ws m)
unfolding user_values apply_states
states_read [] key own committed m h = h
states_read (w ∷ ws) key own committed m h =
    states_read ws key (insert w.key (read_back w.value) own) committed (write_state w m)
      (write_read w key own committed m h)

-- The answers of a permission prompt that a call keeps: none of them is "no answer".
abbrev pub is_answer : Decision → Bool
is_answer none_yet = false
is_answer allow_always = true
is_answer deny_always = true

abbrev pub Answers : List PermissionWrite → Type 0
Answers ws = All (λ w. is_answer w.decision ≡ true) ws

abbrev pub decide : Option Decision → Decision → Decision
decide (some d) committed = d
decide none committed = committed

decide_after :
    (later : Option Decision) (same : Bool) (d before after granted : Decision)
    → is_answer d ≡ true
    → after ≡ (if same then decided (some d) granted else before)
    → decide later after
      ≡ decide (elim later [ some x ↦ some x | none ↦ if same then some d else none ]) before
decide_after (some x) same d before after granted answer h = refl
decide_after none false d before after granted answer h = h
decide_after none true allow_always before after granted answer h = h
decide_after none true deny_always before after granted answer h = h
decide_after none true none_yet before after granted answer h = absurd (cc answer)

pub permissions_read :
    (ws : List PermissionWrite) (name : Bytes) (p : Permissions)
    → Answers ws
    → decision (apply_permissions ws p) name ≡ decide (own_decision name ws) (decision p name)
unfolding apply_permissions own_decision
permissions_read [] name p h = refl
permissions_read (w ∷ ws) name p (this, rest) =
    permissions_read ws name (set_decision p w.tool w.decision) rest
    ∙ decide_after (own_decision name ws) (text_eq w.tool name) w.decision _ _
        (granted_decision (lookup name p.granted)) this
        (decision-set_decision p w.tool name w.decision)

pub rests_read :
    (ws : List RestWrite) (tool : Bytes) (m : Dict Bytes)
    → lookup tool (apply_rests ws m)
      ≡ (elim (own_rest tool ws) [ some r ↦ some r | none ↦ lookup tool m ])
unfolding apply_rests own_rest
rests_read [] tool m = refl
rests_read (w ∷ ws) tool m =
    ground (arith, rests_read ws tool (insert w.key w.rest m), lookup-insert w.key tool w.rest m)

planned_outcome :
    (before : Option (List Todo) × Bytes) (m : Result Changed)
    → (elim m [ ok r ↦ (r.todos, r.doc) | err e ↦ before ]) ≡ planned before m
planned_outcome before (ok r) = refl
planned_outcome before (err e) = refl

pub plans_read :
    (ops : List PlanOp) (p : PlanStore)
    → snapshot (replay_plan_ops ops p) ≡ plan_from ops (snapshot p)
unfolding replay_plan_ops plan_from
plans_read [] p = refl
plans_read (op ∷ ops) p =
    plans_read ops (replay_plan_op op p)
    ∙ ap (plan_from ops)
        (snapshot-replay_plan_op op p ∙ planned_outcome (snapshot p) (change op p.todos p.document))
