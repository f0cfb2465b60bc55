-- ===== src/Plan/Create.antt =====
-- create_plan: which todos it starts (builtins.go).
use tacklr.Base.{
  ◌≡◌, ◌≢◌, refl, Bool, false, not, ◌||◌, Option, none, some, List, [], ◌∷◌, map, Bytes, arith, All,
  if◌then◌else◌,
}
use tacklr.Failure.{ok}
use tacklr.Plan.{
  Todo, TodoStatus, empty, in_progress, completed, is_completed, is_open, install_plan_document,
  CreateTodosArgs, Changed, started_status, mark_started, create_plan_change,
}
use tacklr.Plan.Complete.{done, label}

-- Whether a plan lets create_plan install another: none, or one with no todos.
abbrev pub Absent : Option (List Todo) → Type 0
Absent none = Unit {0}
Absent (some []) = Unit {0}
Absent (some (t ∷ ts)) = ⊥

-- The first todo that is not completed, if there is one, is in progress.
abbrev pub StartsFirst : List Todo → Type 0
StartsFirst [] = Unit {0}
StartsFirst (t ∷ ts) = if done t then StartsFirst ts else t.status ≡ in_progress

abbrev pub HasStatus : Todo → Type 0
HasStatus t = t.status ≢ empty

mark_started-label : (b : Bool) (ts : List Todo) → map label (mark_started b ts) ≡ map label ts
unfolding mark_started
mark_started-label b [] = refl
mark_started-label b (t ∷ ts) = ground (arith, mark_started-label (◌||◌ b (is_open t)) ts)

mark_started-done : (b : Bool) (ts : List Todo) → map done (mark_started b ts) ≡ map done ts
unfolding mark_started
mark_started-done b [] = refl
mark_started-done b (t ∷ ts) = ground (arith, mark_started-done (◌||◌ b (is_open t)) ts)

started_status-ne-empty : (b : Bool) (s : TodoStatus) → started_status b s ≢ empty
unfolding started_status
started_status-ne-empty b s = ground arith

mark_started-HasStatus : (b : Bool) (ts : List Todo) → All HasStatus (mark_started b ts)
unfolding mark_started
mark_started-HasStatus b [] = tt
mark_started-HasStatus b (t ∷ ts) =
    (started_status-ne-empty b t.status, mark_started-HasStatus (◌||◌ b (is_open t)) ts)

StartsFirst-at :
    (t : Todo) (s : TodoStatus) (ts : List Todo)
    → StartsFirst (mark_started false ts)
    → StartsFirst
        (record t { status = started_status false s } ∷ mark_started (not (is_completed s)) ts)
unfolding started_status
StartsFirst-at t completed ts h = h
StartsFirst-at t _ ts h = refl

mark_started-StartsFirst : (ts : List Todo) → StartsFirst (mark_started false ts)
unfolding mark_started
mark_started-StartsFirst [] = tt
mark_started-StartsFirst (t ∷ ts) = StartsFirst-at t t.status ts (mark_started-StartsFirst ts)

-- Over no plan, create_plan installs the todos it is given: the same titles and descriptions in
-- the same order, the same ones completed, the first of the others in progress, and none with no
-- status; with the given document.
pub create-StartsFirst :
    (args : CreateTodosArgs) (existing : Option (List Todo)) (doc : Bytes)
    → Absent existing
    → (r : Changed) × (next : List Todo) × (create_plan_change args existing doc ≡ ok r)
      × (r.todos ≡ some next)
      × (map label next ≡ map label args.todos)
      × (map done next ≡ map done args.todos)
      × StartsFirst next
      × All HasStatus next
      × (r.doc ≡ args.plan)
      × (r.out.effect ≡ install_plan_document)
unfolding create_plan_change
create-StartsFirst args none doc h =
    let next = mark_started false args.todos in
    (
      _,
      next,
      refl,
      refl,
      mark_started-label false args.todos,
      mark_started-done false args.todos,
      mark_started-StartsFirst args.todos,
      mark_started-HasStatus false args.todos,
      refl,
      refl,
    )
create-StartsFirst args (some []) doc h =
    let next = mark_started false args.todos in
    (
      _,
      next,
      refl,
      refl,
      mark_started-label false args.todos,
      mark_started-done false args.todos,
      mark_started-StartsFirst args.todos,
      mark_started-HasStatus false args.todos,
      refl,
      refl,
    )
create-StartsFirst args (some (t ∷ ts)) doc h = absurd h

-- Over a plan with todos it fails.
pub create-fails_over :
    (args : CreateTodosArgs) (t : Todo) (ts : List Todo) (doc : Bytes) (r : Changed)
    → create_plan_change args (some (t ∷ ts)) doc ≢ ok r
unfolding create_plan_change
create-fails_over args t ts doc r = ground arith
