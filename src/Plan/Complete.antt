-- ===== src/Plan/Complete.antt =====
-- complete_todo: what a completion changes, and which todo it starts (builtins.go).
use tacklr.Base.{
  ◌+◌, ◌≡◌, refl, ap, ◌∙◌, Bool, true, false, ◌||◌, Option, none, some, List, [], ◌∷◌, ◌++◌, map,
  Bytes, codes, text_eq, text_eq_iff, arith, count, any, any-append, All,
}
use tacklr.Failure.{Result, ok, err, >>=-eq-ok}
use tacklr.Plan.{
  Todo, completed, in_progress, is_completed, is_open, text, starting, no_effect, handoff, Changed,
  start_next, Completion, before, finish_next, complete_in, completion_outcome,
  complete_todo_change,
}

abbrev pub done : Todo → Bool
done t = is_completed t.status

-- What no plan change of complete_todo touches.
abbrev pub label : Todo → Bytes × Bytes
label t = (t.title, t.description)

abbrev finished : Todo → Todo
finished t = record t { status = completed }

abbrev started : Todo → Todo
started t = record t { status = in_progress }

abbrev Keeps : List Todo → Option (Todo × List Todo) → Type 0
Keeps ts none = Unit
Keeps ts (some (u, us)) = (count done us ≡ count done ts) × (map label us ≡ map label ts)

start_next-Keeps : (ts : List Todo) → Keeps ts (start_next ts)
unfolding start_next
start_next-Keeps [] = tt
start_next-Keeps (t ∷ ts) = ground (arith, start_next-Keeps ts)

abbrev Adds : List Todo → Result Completion → Type 0
Adds ts (err e) = Unit
Adds ts (ok c) = (count done c.todos ≡ count done ts + 1) × (map label c.todos ≡ map label ts)

complete_in-Adds : (title : Bytes) (ts : List Todo) → Adds ts (complete_in title ts)
unfolding complete_in finish_next before
complete_in-Adds title [] = tt
complete_in-Adds title (t ∷ ts) = ground (arith, start_next-Keeps ts, complete_in-Adds title ts)

-- A completion that succeeds makes exactly one more todo completed, keeps the number, the order,
-- the titles and the descriptions of the todos, and leaves the document as it was.
pub complete-adds_one :
    (title doc : Bytes) (plan : List Todo) (r : Changed)
    → complete_todo_change title (some plan) doc ≡ ok r
    → (next : List Todo) × (r.todos ≡ some next)
      × (count done next ≡ count done plan + 1)
      × (map label next ≡ map label plan)
      × (r.doc ≡ doc)
unfolding complete_todo_change
complete-adds_one title doc plan r h =
    let (c, found, same) = >>=-eq-ok (complete_in title plan) _ h in
    let facts : Adds plan (ok c) = rw found at (complete_in-Adds title plan) in
    (c.todos, ground arith, facts.0, facts.1, ground arith)

abbrev Misses : Bytes → List Todo → Type 0
Misses title = All (λ t. text_eq t.title title ≡ false)

abbrev AllDone : List Todo → Type 0
AllDone = All (λ t. done t ≡ true)

start_next-AllDone : (ts : List Todo) → AllDone ts → start_next ts ≡ none
unfolding start_next
start_next-AllDone [] h = refl
start_next-AllDone (t ∷ ts) h = ground (arith, start_next-AllDone ts)

start_next-append :
    (mid post : List Todo) (u : Todo)
    → AllDone mid
    → done u ≡ false
    → start_next (mid ++ u ∷ post) ≡ some (u, mid ++ started u ∷ post)
unfolding start_next
start_next-append [] post u h open_u = ground arith
start_next-append (t ∷ mid) post u h open_u = ground (arith, start_next-append mid post u)

module _ (title : Bytes) (t : Todo) (named : t.title ≡ title) (open_t : done t ≡ false) where
  complete_in-append :
      (pre post : List Todo)
      → Misses title pre
      → complete_in title (pre ++ t ∷ post) ≡ (
          let c = finish_next (finished t) post (start_next post) in
          ok (record c { todos = pre ++ c.todos }))
  unfolding complete_in before
  complete_in-append [] post h = ground (arith, text_eq_iff t.title title)
  complete_in-append (x ∷ pre) post h = ground (arith, complete_in-append pre post)

  -- Completing an open todo that has an open one after it starts the first of those, hands off
  -- to it, and changes nothing else.
  pub complete-hands_off :
      (doc : Bytes) (pre mid post : List Todo) (u : Todo)
      → Misses title pre
      → AllDone mid
      → done u ≡ false
      → complete_todo_change title (some (pre ++ t ∷ (mid ++ u ∷ post))) doc
        ≡ ok (record {
          todos = some (pre ++ finished t ∷ (mid ++ started u ∷ post));
          doc = doc;
          out = record { output = starting u.title u.description; effect = handoff };
        })
  unfolding complete_todo_change finish_next completion_outcome
  complete-hands_off doc pre mid post u misses all_done open_u = rw (
    complete_in-append pre (mid ++ u ∷ post) misses,
    start_next-append mid post u all_done open_u,
  )

  -- When every todo after it is completed, the answer is that all are, with no handoff.
  complete-last :
      (doc : Bytes) (pre post : List Todo)
      → Misses title pre
      → AllDone post
      → complete_todo_change title (some (pre ++ t ∷ post)) doc
        ≡ ok (record {
          todos = some (pre ++ finished t ∷ post);
          doc = doc;
          out = record {
            output = text (codes "All todos completed successfully");
            effect = no_effect;
          };
        })
  unfolding complete_todo_change finish_next completion_outcome
  complete-last doc pre post misses all_done =
      rw (complete_in-append pre post misses, start_next-AllDone post all_done)

  -- So an open todo that stands before the completed one is forgotten: the tool answers that all
  -- todos are completed, hands nothing off, and the plan that it leaves still has an open todo.
  pub complete-forgets_earlier :
      (doc : Bytes) (pre post : List Todo)
      → Misses title pre
      → AllDone post
      → any is_open pre ≡ true
      → (next : List Todo) × (complete_todo_change title (some (pre ++ t ∷ post)) doc
          ≡ ok (record {
            todos = some next;
            doc = doc;
            out = record {
              output = text (codes "All todos completed successfully");
              effect = no_effect;
            };
          }))
        × (any is_open next ≡ true)
  complete-forgets_earlier doc pre post misses all_done open_pre = (
    pre ++ finished t ∷ post,
    complete-last doc pre post misses all_done,
    any-append is_open pre (finished t ∷ post) ∙ ap (λ b. b || any is_open post) open_pre,
  )
