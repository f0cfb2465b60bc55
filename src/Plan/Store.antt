-- ===== src/Plan/Store.antt =====
-- The plan store (session_plan.go) and the replay of plan changes at a commit (builtins.go).
use tacklr.Base.{
  ℕ, ◌≤◌, ◌≡◌, refl, Bool, true, false, Option, none, some, List, [], ◌∷◌, Bytes, arith, count,
}
use tacklr.Failure.{Result, ok, err}
use tacklr.Plan.{
  Todo, Changed, CreateTodosArgs, EditTodosArgs, PlanOp, create, complete, edit, change,
  create_plan_change, complete_todo_change, edit_plan_change,
}
use tacklr.Plan.Complete.{done, complete-adds_one}
use tacklr.Plan.Edit.{edit-keeps_completed, count_done}

pub record PlanStore : Type 0 where
  pub todos : Option (List Todo)
  pub document : Bytes
  pub todos_updated : Bool

pub new_plan_store : PlanStore
new_plan_store = record { todos = none; document = []; todos_updated = false }

-- `HasActive`
pub has_active : PlanStore → Bool
has_active p = elim p.todos [ none ↦ false | some ts ↦ (elim ts [ [] ↦ false | t ∷ _ ↦ true ]) ]

-- `Change`: when `fn` fails the store stays as it was.
unfoldable pub change_plan :
    PlanStore
    → (Option (List Todo) → Bytes → Result (Option (List Todo) × Bytes))
    → Result PlanStore
change_plan p fn = elim (fn p.todos p.document) [
  | ok (todos, doc) ↦ ok (record { todos = todos; document = doc; todos_updated = true })
  | err e ↦ err e
]

-- `ConsumeTodosUpdated`: the todos when the plan changed since the last call.
unfoldable pub consume_todos_updated : PlanStore → Option (Option (List Todo)) × PlanStore
consume_todos_updated p = elim p.todos_updated [
  | false ↦ (none, p)
  | true ↦ (some p.todos, record p { todos_updated = false })
]

-- `snapshot`
abbrev pub snapshot : PlanStore → Option (List Todo) × Bytes
snapshot p = (p.todos, p.document)

-- `restore`
unfoldable pub restore : PlanStore → Option (List Todo) → Bytes → PlanStore
restore p todos document = record { todos = todos; document = document; todos_updated = false }

dropped : Result Changed → Result (Option (List Todo) × Bytes)
dropped (ok r) = ok (r.todos, r.doc)
dropped (err e) = err e

-- The store after a change: as it was when the change failed.
abbrev or_unchanged : PlanStore → Result PlanStore → PlanStore
or_unchanged p (ok p') = p'
or_unchanged p (err e) = p

-- `replayPlanOp`: a change that no longer applies is skipped.
unfoldable pub replay_plan_op : PlanOp → PlanStore → PlanStore
unfolding change_plan dropped
replay_plan_op op p = or_unchanged p (change_plan p (λ todos doc. dropped (change op todos doc)))

replay_outcome :
    (m : Result Changed) (p : PlanStore)
    → snapshot (or_unchanged p (change_plan p (λ _ _. dropped m)))
      ≡ (elim m [ ok r ↦ (r.todos, r.doc) | err e ↦ snapshot p ])
unfolding change_plan dropped
replay_outcome (ok r) p = refl
replay_outcome (err e) p = refl

-- The loop over `w.Plan` of `sessionManager.apply`.
unfoldable pub replay_plan_ops : List PlanOp → PlanStore → PlanStore
unfolding replay_plan_op
replay_plan_ops [] p = p
replay_plan_ops (op ∷ ops) p = replay_plan_ops ops (replay_plan_op op p)

pub snapshot-replay_plan_op :
    (op : PlanOp) (p : PlanStore)
    → snapshot (replay_plan_op op p)
      ≡ (elim (change op p.todos p.document) [ ok r ↦ (r.todos, r.doc) | err e ↦ snapshot p ])
unfolding replay_plan_op
snapshot-replay_plan_op op p = replay_outcome (change op p.todos p.document) p

-- How many todos of a plan are completed.
abbrev pub progress : Option (List Todo) → ℕ
progress none = 0
progress (some ts) = count done ts

abbrev Grows : Option (List Todo) → Result Changed → Type 0
Grows todos (err e) = Unit
Grows todos (ok r) = progress todos ≤ progress r.todos

create-Grows :
    (args : CreateTodosArgs) (todos : Option (List Todo)) (doc : Bytes)
    → Grows todos (create_plan_change args todos doc)
unfolding create_plan_change
create-Grows args none doc = omega arith
create-Grows args (some []) doc = omega arith
create-Grows args (some (t ∷ ts)) doc = tt

complete-Grows :
    (title : Bytes) (todos : Option (List Todo)) (doc : Bytes) (m : Result Changed)
    → complete_todo_change title todos doc ≡ m
    → Grows todos m
unfolding complete_todo_change
complete-Grows title todos doc (err e) h = tt
complete-Grows title none doc (ok r) h = omega arith
complete-Grows title (some ts) doc (ok r) h =
    let (next, same, adds, _, _) = complete-adds_one title doc ts r h in rw same (omega arith)

edit-Grows :
    (args : EditTodosArgs) (todos : Option (List Todo)) (doc : Bytes) (m : Result Changed)
    → edit_plan_change args todos doc ≡ m
    → Grows todos m
edit-Grows args todos doc (err e) h = tt
edit-Grows args none doc (ok r) h = omega arith
edit-Grows args (some ts) doc (ok r) h =
    let (next, same, made) = edit-keeps_completed args ts doc r h in
    rw same (omega (arith, count_done args ts next made))

change-Grows :
    (op : PlanOp) (todos : Option (List Todo)) (doc : Bytes) → Grows todos (change op todos doc)
unfolding change
change-Grows (create args) todos doc = create-Grows args todos doc
change-Grows (complete title) todos doc = complete-Grows title todos doc _ refl
change-Grows (edit args) todos doc = edit-Grows args todos doc _ refl

dropped-Grows :
    (todos : Option (List Todo)) (m : Result Changed) (p : PlanStore)
    → p.todos ≡ todos
    → Grows todos m
    → progress todos ≤ progress (or_unchanged p (change_plan p (λ _ _. dropped m))).todos
unfolding change_plan dropped
dropped-Grows todos (ok r) p same g = g
dropped-Grows todos (err e) p same g = rw same (omega arith)

replay_plan_op_grows :
    (op : PlanOp) (p : PlanStore) → progress p.todos ≤ progress (replay_plan_op op p).todos
unfolding replay_plan_op
replay_plan_op_grows op p =
    dropped-Grows p.todos (change op p.todos p.document) p refl (change-Grows op p.todos p.document)

-- Whatever plan changes a commit replays, in whatever order and also where some no longer apply,
-- the plan has as many completed todos after it as before, or more.
pub replay-keeps_progress :
    (ops : List PlanOp) (p : PlanStore) → progress p.todos ≤ progress (replay_plan_ops ops p).todos
unfolding replay_plan_ops
replay-keeps_progress [] p = omega arith
replay-keeps_progress (op ∷ ops) p =
    omega (arith, replay_plan_op_grows op p, replay-keeps_progress ops (replay_plan_op op p))
