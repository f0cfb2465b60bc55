-- ===== src/Plan/Tests.antt =====
-- Runs of the plan tools on small plans.
use tacklr.Base.{
  ◌+◌, ◌≤◌, ◌≡◌, refl, true, false, none, some, List, [], ◌∷◌, map, Bytes, codes, pos, text_eq,
  trim_space, count, any, All,
}
use tacklr.Failure.{ok}
use tacklr.Plan.{
  Todo, TodoStatus, pending, in_progress, completed, empty, is_open, text, starting, no_effect,
  handoff, install_plan_document, CreateTodosArgs, EditTodosArgs, Changed, complete,
  create_plan_change, start_next, before, finish_next, complete_in, completion_outcome,
  complete_todo_change, insert_at, insert_todo, add_todos, kept, delete_todo, delete_todos,
  edit_todos, edited, is_unchanged, edit_plan_change,
}
use tacklr.Plan.Complete.{done, label, complete-adds_one, complete-forgets_earlier}
use tacklr.Plan.Create.{StartsFirst, HasStatus, create-StartsFirst}
use tacklr.Plan.Edit.{Revised, edit-keeps_completed}
use tacklr.Plan.Store.{PlanStore, replay_plan_ops, progress, replay-keeps_progress}

abbrev todo : Bytes → TodoStatus → Todo
todo title status = record { title = title; status = status; description = codes "d" }

abbrev design : Bytes
design = codes "design"

abbrev build : Bytes
build = codes "build"

abbrev two_todos : List Todo
two_todos = todo design in_progress ∷ (todo build pending ∷ [])

abbrev handed_off : Changed
handed_off = record {
  todos = some (todo design completed ∷ (todo build in_progress ∷ []));
  doc = [];
  out = record { output = starting build (codes "d"); effect = handoff };
}

complete_design : complete_todo_change design (some two_todos) [] ≡ ok handed_off
unfolding complete_todo_change complete_in before finish_next start_next completion_outcome text_eq
complete_design = refl

complete-adds_one_example :
    (next : List Todo) × (handed_off.todos ≡ some next)
    × (count done next ≡ count done two_todos + 1)
    × (map label next ≡ map label two_todos)
    × (handed_off.doc ≡ [])
complete-adds_one_example = complete-adds_one design [] two_todos handed_off complete_design

complete-forgets_earlier_example :
    (next : List Todo) × (complete_todo_change build (some two_todos) []
      ≡ ok (record {
        todos = some next;
        doc = [];
        out = record {
          output = text (codes "All todos completed successfully");
          effect = no_effect;
        };
      }))
    × (any is_open next ≡ true)
unfolding text_eq
complete-forgets_earlier_example =
    complete-forgets_earlier build (todo build pending) refl refl [] (todo design in_progress ∷ [])
      [] (refl, tt) tt refl

abbrev new_plan : CreateTodosArgs
new_plan = record { plan = codes "p"; todos = todo design completed ∷ (todo build empty ∷ []) }

create-StartsFirst_example :
    (r : Changed) × (next : List Todo) × (create_plan_change new_plan none [] ≡ ok r)
    × (r.todos ≡ some next)
    × (map label next ≡ map label new_plan.todos)
    × (map done next ≡ map done new_plan.todos)
    × StartsFirst next
    × All HasStatus next
    × (r.doc ≡ new_plan.plan)
    × (r.out.effect ≡ install_plan_document)
create-StartsFirst_example = create-StartsFirst new_plan none [] tt

abbrev revision : EditTodosArgs
revision = record {
  to_delete = build ∷ [];
  to_add = record { todo = todo (codes "test") pending; order = pos 1 } ∷ [];
  plan = [];
}

-- One todo of the plan is completed, which an edit must keep.
abbrev half_done : List Todo
half_done = todo design completed ∷ (todo build pending ∷ [])

abbrev revised : Changed
revised = record {
  todos = some (todo design completed ∷ (todo (codes "test") pending ∷ []));
  doc = [];
  out = record { output = text (codes "Plan edited successfully"); effect = no_effect };
}

edit-keeps_completed_example :
    (next : List Todo) × (revised.todos ≡ some next) × Revised revision half_done next
unfolding edit_plan_change edit_todos add_todos insert_todo insert_at delete_todos delete_todo kept
    edited is_unchanged text_eq trim_space
edit-keeps_completed_example = edit-keeps_completed revision half_done [] revised refl

abbrev started_store : PlanStore
started_store = record { todos = some two_todos; document = []; todos_updated = false }

-- The second change no longer applies: the plan has no such todo.
replay-keeps_progress_example :
    progress started_store.todos
    ≤ progress (replay_plan_ops (complete design ∷ (complete (codes "x") ∷ [])) started_store).todos
replay-keeps_progress_example =
    replay-keeps_progress (complete design ∷ (complete (codes "x") ∷ [])) started_store
