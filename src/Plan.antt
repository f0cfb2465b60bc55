-- ===== src/Plan.antt =====
-- The plan tools' changes (builtins.go), the todo (message.go) and the store that applies them
-- (session_plan.go). A nil plan is `none`. The store's lock makes each method one step. An error's
-- text is kept without the titles and numbers that its format puts in.
pub mod Complete
pub mod Create
pub mod Edit
pub mod Store
mod Tests
use tacklr.Base.{
  ℕ, zero, suc, ◌+◌, Bool, true, false, not, ◌&&◌, ◌||◌, Option, none, some, List, [], ◌∷◌, Bytes,
  codes, text_eq, is_empty, trim_space, ℤ, pos, negsuc, length, get_elem?, set, remove_at,
  find_index?, if◌then◌else◌, ltb,
}
use tacklr.Failure.{Result, ok, err, plain, ◌>>=◌}

-- `TodoStatus` is a Go string: `empty` is "", `other` is any that the constants do not name.
pub data TodoStatus : Type 0 where
  empty pending in_progress completed : TodoStatus
  other : Bytes → TodoStatus

pub record Todo : Type 0 where
  pub title : Bytes
  pub status : TodoStatus
  pub description : Bytes

abbrev pub is_completed : TodoStatus → Bool
is_completed completed = true
is_completed _ = false

abbrev pub is_open : Todo → Bool
is_open t = not (is_completed t.status)

-- `ToolResultEffect`
pub data Effect : Type 0 where
  no_effect handoff install_plan_document : Effect

-- The string that a tool returns. `starting t d` is the `Sprintf` of complete_todo's format with
-- the title `t` and the description `d`, not expanded.
pub data Output : Type 0 where
  text : Bytes → Output
  starting : (title description : Bytes) → Output

pub record ToolOutcome : Type 0 where
  pub output : Output
  pub effect : Effect

pub record CreateTodosArgs : Type 0 where
  pub plan : Bytes
  pub todos : List Todo

pub record TodoEdit : Type 0 where
  pub todo : Todo
  pub order : ℤ

pub record EditTodosArgs : Type 0 where
  pub to_delete : List Bytes
  pub to_add : List TodoEdit
  pub plan : Bytes

-- A plan change's new todos, document and outcome.
pub record Changed : Type 0 where
  pub todos : Option (List Todo)
  pub doc : Bytes
  pub out : ToolOutcome

-- `planChange`
abbrev pub PlanChange : Type 0
PlanChange = Option (List Todo) → Bytes → Result Changed

started_status : Bool → TodoStatus → TodoStatus
started_status started completed = completed
started_status false _ = in_progress
started_status true empty = pending
started_status true s = s

-- The loop of `createPlanChange`; `started` says that an item is in progress already.
mark_started : Bool → List Todo → List Todo
unfolding started_status
mark_started started [] = []
mark_started started (t ∷ ts) =
    record t { status = started_status started t.status } ∷ mark_started (started || is_open t) ts

-- `createPlanChange`, of a slice of todos that is not nil.
pub create_plan_change : CreateTodosArgs → PlanChange
unfolding mark_started
create_plan_change args (some (t ∷ ts)) doc = err (plain (codes "an active plan already exists"))
create_plan_change args _ doc = ok (record {
  todos = some (mark_started false args.todos);
  doc = args.plan;
  out = record {
    output = text (codes "Plan created successfully");
    effect = install_plan_document;
  };
})

-- The loop over `j` of `completeTodoChange`, on the todos after the completed one: the first that
-- is open, and the todos with it in progress.
start_next : List Todo → Option (Todo × List Todo)
start_next [] = none
start_next (t ∷ ts) =
    if is_open t
    then some (t, record t { status = in_progress } ∷ ts)
    else (elim (start_next ts) [ none ↦ none | some (u, us) ↦ some (u, t ∷ us) ])

record Completion : Type 0 where
  todos : List Todo
  next : Option Todo

before : Todo → Result Completion → Result Completion
before t (ok c) = ok (record c { todos = t ∷ c.todos })
before t (err e) = err e

finish_next : Todo → List Todo → Option (Todo × List Todo) → Completion
finish_next t ts none = record { todos = t ∷ ts; next = none }
finish_next t ts (some (u, us)) = record { todos = t ∷ us; next = some u }

-- `completeTodoChange` on the list: the first todo with the title.
complete_in : Bytes → List Todo → Result Completion
unfolding start_next before finish_next
complete_in title [] = err (plain (codes "todo not found in plan; call list_plan"))
complete_in title (t ∷ ts) =
    if text_eq t.title title
    then if is_completed t.status
      then err (plain (codes "todo is already completed; call list_plan"))
      else ok (finish_next (record t { status = completed }) ts (start_next ts))
    else before t (complete_in title ts)

completion_outcome : Option Todo → ToolOutcome
completion_outcome none = record {
  output = text (codes "All todos completed successfully");
  effect = no_effect;
}
completion_outcome (some t) = record { output = starting t.title t.description; effect = handoff }

pub complete_todo_change : Bytes → PlanChange
unfolding complete_in completion_outcome
complete_todo_change title none doc =
    err (plain (codes "no plan exists yet; call create_plan first"))
complete_todo_change title (some plan) doc = do
  c ← complete_in title plan
  ok (record { todos = some c.todos; doc = doc; out = completion_outcome c.next })

-- `slices.Insert(plan, i, todo)`
insert_at : ℕ → Todo → List Todo → List Todo
insert_at zero t ts = t ∷ ts
insert_at (suc i) t [] = t ∷ []
insert_at (suc i) t (u ∷ ts) = u ∷ insert_at i t ts

insert_todo : ℤ → Todo → List Todo → Result (List Todo)
unfolding insert_at
insert_todo (negsuc n) t plan = err (plain (codes "order is out of bounds"))
insert_todo (pos n) t plan =
    if ltb (length plan) n
    then err (plain (codes "order is out of bounds"))
    else ok (insert_at n t plan)

add_todos : List TodoEdit → List Todo → Result (List Todo)
unfolding insert_todo
add_todos [] plan = ok plan
add_todos (e ∷ es) plan = insert_todo e.order e.todo plan >>= add_todos es

kept : Todo → Result (List Todo) → Result (List Todo)
kept t (ok ts) = ok (t ∷ ts)
kept t (err e) = err e

-- The first todo with the title, unless it is completed.
delete_todo : Bytes → List Todo → Result (List Todo)
unfolding kept
delete_todo title [] = err (plain (codes "todo not found in plan"))
delete_todo title (t ∷ ts) =
    if text_eq t.title title
    then if is_completed t.status then err (plain (codes "cannot delete completed todo")) else ok ts
    else kept t (delete_todo title ts)

delete_todos : List Bytes → List Todo → Result (List Todo)
unfolding delete_todo
delete_todos [] plan = ok plan
delete_todos (title ∷ titles) plan = delete_todo title plan >>= delete_todos titles

-- The two loops of `editPlanChange`.
edit_todos : EditTodosArgs → List Todo → Result (List Todo)
unfolding add_todos delete_todos
edit_todos args plan = add_todos args.to_add plan >>= delete_todos args.to_delete

edited : EditTodosArgs → Bytes → List Todo → Changed
edited args doc left =
    let revised = trim_space args.plan in
    record {
      todos = some left;
      doc = if is_empty revised then doc else args.plan;
      out = record {
        output = text (codes "Plan edited successfully");
        effect = if is_empty revised then no_effect else handoff;
      };
    }

-- Whether the edit gives the document that the plan has.
is_unchanged : Bytes → Bytes → Bool
is_unchanged plan doc =
    let revised = trim_space plan in not (is_empty revised) && text_eq revised (trim_space doc)

pub edit_plan_change : EditTodosArgs → PlanChange
unfolding edit_todos edited is_unchanged
edit_plan_change args none doc = err (plain (codes "no plan exists yet; call create_plan first"))
edit_plan_change args (some plan) doc =
    if is_unchanged args.plan doc
    then err (plain (codes "plan document is unchanged; omit plan or provide a revised full plan"))
    else edit_todos args plan >>= λ left. ok (edited args doc left)

-- `planOp`: one field is set.
pub data PlanOp : Type 0 where
  create : CreateTodosArgs → PlanOp
  complete : (title : Bytes) → PlanOp
  edit : EditTodosArgs → PlanOp

-- `planOp.change`
unfoldable pub change : PlanOp → PlanChange
change (create args) = create_plan_change args
change (complete title) = complete_todo_change title
change (edit args) = edit_plan_change args
