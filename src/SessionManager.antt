-- ===== src/SessionManager.antt =====
-- One session's committed state and how a call's writes are applied to it (session_manager.go, with
-- the search rests of brain/search_context.go). A rest is its encoding, and a missing rest
-- is the zero one.
use tacklr.Base.{Option, none, some, List, [], ◌∷◌, Bytes, Dict, lookup, insert, erase, copy_into}
use tacklr.Plan.Store.{PlanStore, new_plan_store, replay_plan_ops}
use tacklr.Permissions.{Permissions, new_permissions, set_decision}
use tacklr.Call.{StateWrite, PermissionWrite, RestWrite, CallWrites}

-- A value of type `any`: what `json.Unmarshal` makes of a text, or one that the host or a tool gives, by a name that stands for it.
pub data Value : Type 0 where
  decoded : (raw : Bytes) → Value
  given : (name : Bytes) → Value

-- `sessionManager`
pub record SessionManager : Type 0 where
  pub plan : PlanStore
  pub user_state : Dict Value
  pub permissions : Permissions
  pub rests : Dict Bytes

-- `newSessionManager`
abbrev pub new_session_manager : SessionManager
new_session_manager = record {
  plan = new_plan_store;
  user_state = [];
  permissions = new_permissions;
  rests = [];
}

-- `sessionManager.state`
abbrev pub state : SessionManager → Bytes → Option Value
state s key = lookup key s.user_state

-- `sessionManager.setState`
abbrev pub set_state : Dict Value → SessionManager → SessionManager
set_state values s = record s { user_state = copy_into s.user_state values }

-- A write of one key, which a commit decodes.
abbrev pub write_state : StateWrite → Dict Value → Dict Value
write_state w m = elim w.value [ none ↦ erase w.key m | some raw ↦ insert w.key (decoded raw) m ]

-- The loops of `sessionManager.apply`.
unfoldable pub apply_states : List StateWrite → Dict Value → Dict Value
apply_states [] m = m
apply_states (w ∷ ws) m = apply_states ws (write_state w m)

unfoldable pub apply_permissions : List PermissionWrite → Permissions → Permissions
apply_permissions [] p = p
apply_permissions (w ∷ ws) p = apply_permissions ws (set_decision p w.tool w.decision)

unfoldable pub apply_rests : List RestWrite → Dict Bytes → Dict Bytes
apply_rests [] m = m
apply_rests (w ∷ ws) m = apply_rests ws (insert w.key w.rest m)

-- `sessionManager.apply`
unfoldable pub apply : CallWrites → SessionManager → SessionManager
unfolding apply_states apply_permissions apply_rests
apply w s = record {
  plan = replay_plan_ops w.plan s.plan;
  user_state = apply_states w.state s.user_state;
  permissions = apply_permissions w.permissions s.permissions;
  rests = apply_rests w.rests s.rests;
}
