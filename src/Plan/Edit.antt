-- ===== src/Plan/Edit.antt =====
-- edit_plan: what an edit keeps (builtins.go).
use tacklr.Base.{
  ℕ, zero, suc, ◌+◌, ◌≡◌, refl, ap, some, List, [], ◌∷◌, map, Bytes, arith, ℤ, pos, negsuc, count,
  keep, text_eq, text_eq_iff, sym, ◌∙◌, inl, inr, Bool, Bool-cases, true, ◌&&◌, ◌≤◌,
}
use tacklr.Failure.{Result, ok, err, >>=-eq-ok, guard-eq-ok}
use tacklr.Plan.{
  Todo, TodoEdit, EditTodosArgs, Changed, insert_at, insert_todo, add_todos, delete_todo,
  delete_todos, edit_todos, edited, is_unchanged, edit_plan_change,
}
use tacklr.Plan.Complete.{done}

abbrev pub added : List TodoEdit → List Todo
added = map (λ e. e.todo)

-- How many given titles are this one.
abbrev pub named : Bytes → List Bytes → ℕ
named x titles = count (λ title. text_eq title x) titles

abbrev pub titled : Bytes → Todo → Bool
titled x t = text_eq t.title x

module _ (p : Todo → Bool) where
  abbrev AfterAdds : List Todo → List Todo → Result (List Todo) → Type 0
  AfterAdds new plan (err e) = Unit
  AfterAdds new plan (ok next) = count p next ≡ count p plan + count p new

  insert_at_counts :
      (i : ℕ) (t : Todo) (ts : List Todo) → AfterAdds (t ∷ []) ts (ok (insert_at i t ts))
  unfolding insert_at
  insert_at_counts zero t ts = ground arith
  insert_at_counts (suc i) t [] = ground arith
  insert_at_counts (suc i) t (u ∷ ts) = ground (arith, insert_at_counts i t ts)

  insert_todo_counts :
      (order : ℤ) (t : Todo) (ts : List Todo) → AfterAdds (t ∷ []) ts (insert_todo order t ts)
  unfolding insert_todo
  insert_todo_counts (negsuc n) t ts = tt
  insert_todo_counts (pos n) t ts = ground (arith, insert_at_counts n t ts)

  -- The insertions of an edit add the given todos, each as it is given.
  add_todos_counts :
      (es : List TodoEdit) (ts next : List Todo)
      → add_todos es ts ≡ ok next
      → count p next ≡ count p ts + count p (added es)
  unfolding add_todos
  add_todos_counts [] ts next h = ground arith
  add_todos_counts (e ∷ es) ts next h =
      let (mid, first, rest) = >>=-eq-ok (insert_todo e.order e.todo ts) _ h in
      let one : AfterAdds (e.todo ∷ []) ts (ok mid) =
        rw first at (insert_todo_counts e.order e.todo ts) in
      let more = add_todos_counts es mid next rest in ground (arith, one, more)

  -- A deletion leaves no todo more, of whatever kind, and of the completed ones none less.
  abbrev FewerAfter : List Todo → Result (List Todo) → Type 0
  FewerAfter ts (err e) = Unit
  FewerAfter ts (ok next) = (count p next ≤ count p ts) × (keep done next ≡ keep done ts)

  delete_todo_fewer : (title : Bytes) (ts : List Todo) → FewerAfter ts (delete_todo title ts)
  unfolding delete_todo
  delete_todo_fewer title [] = tt
  delete_todo_fewer title (t ∷ ts) = ground (arith, delete_todo_fewer title ts)

  delete_todos_fewer :
      (titles : List Bytes) (ts next : List Todo)
      → delete_todos titles ts ≡ ok next
      → (count p next ≤ count p ts) × (keep done next ≡ keep done ts)
  unfolding delete_todos
  delete_todos_fewer [] ts next h = ground arith
  delete_todos_fewer (title ∷ titles) ts next h =
      let (mid, first, rest) = >>=-eq-ok (delete_todo title ts) _ h in
      let one : FewerAfter ts (ok mid) = rw first at (delete_todo_fewer title ts) in
      let more = delete_todos_fewer titles mid next rest in
      (omega (arith, one.0, more.0), ground (arith, one.1, more.1))

module _ (x : Bytes) where
  -- A deletion takes one todo with the title, and none with another.
  abbrev LessAfter : Bytes → List Todo → Result (List Todo) → Type 0
  LessAfter title ts (err e) = Unit
  LessAfter title ts (ok next) = count (titled x) next + named x (title ∷ []) ≡ count (titled x) ts

  delete_todo_less : (title : Bytes) (ts : List Todo) → LessAfter title ts (delete_todo title ts)
  unfolding delete_todo
  delete_todo_less title [] = tt
  delete_todo_less title (t ∷ ts) = elim (Bool-cases (text_eq t.title title)) [
    | inl same ↦
        let alike : text_eq t.title x ≡ text_eq title x =
          ap (λ b. text_eq b x) ((text_eq_iff t.title title).0 same) in
        rw (delete_todo, same) (ground (arith, alike))
    | inr differs ↦ rw (delete_todo, differs) (ground (arith, delete_todo_less title ts))
  ]

  delete_todos_less :
      (titles : List Bytes) (ts next : List Todo)
      → delete_todos titles ts ≡ ok next
      → count (titled x) next + named x titles ≡ count (titled x) ts
  unfolding delete_todos
  delete_todos_less [] ts next h = ground arith
  delete_todos_less (title ∷ titles) ts next h =
      let (mid, first, rest) = >>=-eq-ok (delete_todo title ts) _ h in
      let one : LessAfter title ts (ok mid) = rw first at (delete_todo_less title ts) in
      let more = delete_todos_less titles mid next rest in ground (arith, one, more)

-- The todos that pass a test, before and after: insertions put in the given ones and deletions take some out.
count-keep :
    (p : Todo → Bool) (ts : List Todo) → count (λ t. done t && p t) ts ≡ count p (keep done ts)
count-keep p [] = refl
count-keep p (t ∷ ts) = ground (arith, count-keep p ts)

-- The plan after an edit, against the plan before it and the given todos, by how many todos pass a test or have a title.
pub record Revised (args : EditTodosArgs) (plan next : List Todo) : Type 0 where
  -- Each completed todo as often as before and as it is given.
  pub completed_kept :
      (p : Todo → Bool)
      → count (λ t. done t && p t) next
        ≡ count (λ t. done t && p t) plan + count (λ t. done t && p t) (added args.to_add)
  -- Each todo no oftener than before and as it is given.
  pub none_made : (p : Todo → Bool) → count p next ≤ count p plan + count p (added args.to_add)
  -- Of each title as many as before and given, but for the deleted ones.
  pub one_deleted :
      (x : Bytes)
      → count (titled x) next + named x args.to_delete
        ≡ count (titled x) plan + count (titled x) (added args.to_add)

edit_todos-Revised :
    (args : EditTodosArgs) (plan left : List Todo)
    → edit_todos args plan ≡ ok left
    → Revised args plan left
unfolding edit_todos
edit_todos-Revised args plan left h =
    let (mid, adds, deletes) = >>=-eq-ok (add_todos args.to_add plan) _ h in
    record {
      completed_kept = λ p.
          let q : Todo → Bool = λ t. done t && p t in
          count-keep p left
          ∙ (ap (count p) (delete_todos_fewer p args.to_delete mid left deletes).1
              ∙ (sym (count-keep p mid) ∙ add_todos_counts q args.to_add plan mid adds));
      none_made = λ p. omega (
        arith,
        (delete_todos_fewer p args.to_delete mid left deletes).0,
        add_todos_counts p args.to_add plan mid adds,
      );
      one_deleted = λ x.
          delete_todos_less x args.to_delete mid left deletes
          ∙ add_todos_counts (titled x) args.to_add plan mid adds;
    }

-- An edit that succeeds loses and makes up no todo. The completed todos after it are those before it and the
-- completed ones among the given, each with its title and description and as often. Any todo after it was there
-- or is given. Of each title there are as many as before and given, less the deletions that name the title.
pub edit-keeps_completed :
    (args : EditTodosArgs) (plan : List Todo) (doc : Bytes) (r : Changed)
    → edit_plan_change args (some plan) doc ≡ ok r
    → (next : List Todo) × (r.todos ≡ some next) × Revised args plan next
unfolding edit_plan_change
edit-keeps_completed args plan doc r h =
    let (_, ran) = guard-eq-ok (is_unchanged args.plan doc) _ _ h in
    let (left, loops, same) = >>=-eq-ok (edit_todos args plan) _ ran in
    (left, unfold edited in ground arith, edit_todos-Revised args plan left loops)

pub count_done :
    (args : EditTodosArgs) (plan next : List Todo)
    → Revised args plan next
    → count done plan ≤ count done next
count_done args plan next h =
    omega (arith, h.completed_kept (λ t. true), all_done plan, all_done next)
  where
    all_done : (ts : List Todo) → count (λ t. done t && true) ts ≡ count done ts
    all_done [] = refl
    all_done (t ∷ ts) = ground (arith, all_done ts)
