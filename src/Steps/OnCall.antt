-- ===== src/Steps/OnCall.antt =====
-- The OnCall layers of a tool (tool_runner.go): the interrupts that a call passes before its handler.
use tacklr.Base.{
  ℕ, sym, ◌≡◌, refl, ap, ◌∙◌, subst, Bool, if◌then◌else◌, true, false, not, ◌||◌, Option, none,
  some, List, [], ◌∷◌, ◌++◌, Bytes, codes, text_eq, text_eq_refl, find_index?, get_elem?,
  Option-cases, Bool-cases, inl, inr, arith,
}
use tacklr.Failure.{Failure, permission_denied, correction}
use tacklr.SessionManager.{SessionManager}
use tacklr.Permissions.{Decision, none_yet, allow_always, deny_always}
use tacklr.Call.{
  Call, CallBody, Interrupt, OnCallLayer, user_selection, tool_permission, auth_expired, custom,
}
use tacklr.CallContext.{
  CallContext, new_call_context, type_name, park, take_answer, layer, record_layer, decision_of,
  kept_answer, remember_answer,
}

-- How a layer ends: the call goes on with these arguments, is denied, or is parked.
pub data LayerEnd : Type 0 where
  passes : (args : Bytes) → LayerEnd
  denied : Failure → LayerEnd
  asks : Interrupt → LayerEnd

-- `finishOnCallLayer`, of a tool's qualified name.
unfoldable pub finish_on_call_layer :
    Bytes → Bytes → Bytes → Bool → CallContext → LayerEnd × CallContext
finish_on_call_layer tool args name true ctx = (
  denied (record {
    text =
        tool
        ++ codes
            " was rejected by the user. Do not retry this tool unless the task can proceed another way";
    kinds = permission_denied ∷ correction ∷ [];
  }),
  ctx,
)
finish_on_call_layer tool args name false ctx =
    (passes args, record_layer (record { type_name = name; args = args }) ctx)

-- The layer with an answered park; a permission prompt's answer is kept, and may deny the call.
answered_layer : Bytes → Bytes → Bytes → Interrupt → CallContext → LayerEnd × CallContext
unfolding finish_on_call_layer
answered_layer tool args name (tool_permission asked _ _ _ kind allowed) ctx =
    finish_on_call_layer tool args name (not allowed) (remember_answer asked kind ctx)
answered_layer tool args name _ ctx = finish_on_call_layer tool args name false ctx

-- The remembered answer, or the park.
unasked_layer : Bytes → Bytes → Bytes → Interrupt → Decision → CallContext → LayerEnd × CallContext
unfolding finish_on_call_layer
unasked_layer tool args name i deny_always ctx = finish_on_call_layer tool args name true ctx
unasked_layer tool args name i allow_always ctx = finish_on_call_layer tool args name false ctx
unasked_layer tool args name i none_yet ctx = (asks i, park i ctx)

-- The remembered answer to an interrupt: only a permission prompt has one.
abbrev remembered : Interrupt → CallContext → Decision
remembered (tool_permission asked _ _ _ _ _) ctx = decision_of asked ctx
remembered _ ctx = none_yet

new_layer : Bytes → Bytes → Interrupt → Option Interrupt × CallContext → LayerEnd × CallContext
unfolding answered_layer unasked_layer
new_layer tool args i (some a, ctx) = answered_layer tool args (type_name i) a ctx
new_layer tool args i (none, ctx) = unasked_layer tool args (type_name i) i (remembered i ctx) ctx

-- `applyOnCallLayer`, of the interrupt that the layer's constructor makes.
unfoldable pub apply_on_call_layer :
    Bytes → Bytes → Option Interrupt → CallContext → LayerEnd × CallContext
unfolding new_layer
apply_on_call_layer tool args none ctx = (passes args, ctx)
apply_on_call_layer tool args (some i) ctx = elim (layer (type_name i) ctx.body) [
  | some l ↦ (passes l.args, ctx)
  | none ↦ new_layer tool args i (take_answer (type_name i) ctx)
]

-- The loop of `onCallMiddleware`, of the tool's constructors.
unfoldable pub on_call_middleware :
    Bytes → List (Bytes → Option Interrupt) → Bytes → CallContext → LayerEnd × CallContext
unfolding apply_on_call_layer
on_call_middleware tool [] args ctx = (passes args, ctx)
on_call_middleware tool (ctor ∷ ctors) args ctx =
    let (r, ctx') = apply_on_call_layer tool args (ctor args) ctx in
    elim r [
      | passes args' ↦ on_call_middleware tool ctors args' ctx'
      | denied e ↦ (denied e, ctx')
      | asks i ↦ (asks i, ctx')
    ]

-- The context's body has a completed layer of this name, which left these arguments.
abbrev Completed : Bytes → Bytes → CallContext → Type 0
Completed name args ctx = (l : OnCallLayer) × (layer name ctx.body ≡ some l) × (l.args ≡ args)

abbrev PassedAs : Bytes → LayerEnd × CallContext → Type 0
PassedAs name (passes args, ctx) = Completed name args ctx
PassedAs name (denied e, ctx) = Unit
PassedAs name (asks i, ctx) = Unit

first_layer : Bytes → List OnCallLayer → Option OnCallLayer
first_layer name ls = elim (find_index? (λ (l : OnCallLayer). text_eq l.type_name name) ls) [
  | none ↦ none
  | some i ↦ get_elem? ls i
]

first_layer-append :
    (name args : Bytes) (ls : List OnCallLayer)
    → first_layer name ls ≡ none
    → first_layer name (ls ++ record { type_name = name; args = args } ∷ [])
      ≡ some (record { type_name = name; args = args })
unfolding first_layer
first_layer-append name args [] h = rw (text_eq_refl name, first_layer) refl
first_layer-append name args (l ∷ ls) h = ground (arith, h, first_layer-append name args ls)

finish-PassedAs :
    (tool args name : Bytes) (no : Bool) (ctx : CallContext)
    → layer name ctx.body ≡ none
    → PassedAs name (finish_on_call_layer tool args name no ctx)
unfolding finish_on_call_layer first_layer
finish-PassedAs tool args name true ctx h = tt
finish-PassedAs tool args name false ctx h =
    (_, first_layer-append name args ctx.body.layers h, refl)

remember_answer-layer :
    (name asked kind : Bytes) (ctx : CallContext)
    → layer name (remember_answer asked kind ctx).body ≡ layer name ctx.body
unfolding remember_answer
remember_answer-layer name asked kind ctx = elim (Option-cases (kept_answer kind)) [
  | inl e ↦ rw (e, remember_answer) refl
  | inr (d, e) ↦ rw (e, remember_answer) refl
]

take_answer-layer :
    (name asked : Bytes) (ctx : CallContext)
    → layer name (take_answer asked ctx).1.body ≡ layer name ctx.body
unfolding take_answer
take_answer-layer name asked ctx = elim (Option-cases ctx.body.park) [
  | inl e ↦ rw (e, take_answer) refl
  | inr (p, e) ↦ elim (Bool-cases (not p.answered || not (text_eq (type_name p.interrupt) asked))) [
    | inl k ↦ rw (e, k, take_answer) refl
    | inr k ↦ rw (e, k, take_answer) refl
  ]
]

answered_layer-PassedAs :
    (tool args name : Bytes) (i : Interrupt) (ctx : CallContext)
    → layer name ctx.body ≡ none
    → PassedAs name (answered_layer tool args name i ctx)
unfolding answered_layer
answered_layer-PassedAs tool args name (tool_permission asked _ _ _ kind allowed) ctx h =
    finish-PassedAs tool args name (not allowed) _ (remember_answer-layer name asked kind ctx ∙ h)
answered_layer-PassedAs tool args name (user_selection _ _ _) ctx h =
    finish-PassedAs tool args name false ctx h
answered_layer-PassedAs tool args name (auth_expired _ _) ctx h =
    finish-PassedAs tool args name false ctx h
answered_layer-PassedAs tool args name (custom _ _) ctx h =
    finish-PassedAs tool args name false ctx h

unasked_layer-PassedAs :
    (tool args name : Bytes) (i : Interrupt) (d : Decision) (ctx : CallContext)
    → layer name ctx.body ≡ none
    → PassedAs name (unasked_layer tool args name i d ctx)
unfolding unasked_layer
unasked_layer-PassedAs tool args name i deny_always ctx h =
    finish-PassedAs tool args name true ctx h
unasked_layer-PassedAs tool args name i allow_always ctx h =
    finish-PassedAs tool args name false ctx h
unasked_layer-PassedAs tool args name i none_yet ctx h = tt

new_layer-PassedAs :
    (tool args : Bytes) (i : Interrupt) (taken : Option Interrupt × CallContext)
    → layer (type_name i) taken.1.body ≡ none
    → PassedAs (type_name i) (new_layer tool args i taken)
unfolding new_layer
new_layer-PassedAs tool args i (some a, ctx) h =
    answered_layer-PassedAs tool args (type_name i) a ctx h
new_layer-PassedAs tool args i (none, ctx) h =
    unasked_layer-PassedAs tool args (type_name i) i (remembered i ctx) ctx h

apply_on_call_layer-PassedAs :
    (tool args : Bytes) (i : Interrupt) (ctx : CallContext)
    → PassedAs (type_name i) (apply_on_call_layer tool args (some i) ctx)
unfolding apply_on_call_layer
apply_on_call_layer-PassedAs tool args i ctx = elim (Option-cases (layer (type_name i) ctx.body)) [
  | inl e ↦
      rw (e, apply_on_call_layer)
        (new_layer-PassedAs tool args i (take_answer (type_name i) ctx)
          (take_answer-layer (type_name i) (type_name i) ctx ∙ e))
  | inr (l, e) ↦ rw (e, apply_on_call_layer) (l, e, refl)
]

abbrev found_in : Bytes → List OnCallLayer → Option OnCallLayer
found_in name ls = elim (find_index? (λ l. text_eq l.type_name name) ls) [
  | none ↦ none
  | some i ↦ get_elem? ls i
]

found_in-cons :
    (name : Bytes) (x : OnCallLayer) (ls : List OnCallLayer)
    → found_in name (x ∷ ls) ≡ (if text_eq x.type_name name then some x else found_in name ls)
found_in-cons name x ls = ground arith

-- A recorded layer is found again after more are recorded.
found_in-append :
    (name : Bytes) (ls more : List OnCallLayer) (l : OnCallLayer)
    → found_in name ls ≡ some l
    → found_in name (ls ++ more) ≡ some l
found_in-append name [] more l h = absurd (cc h)
found_in-append name (x ∷ ls) more l h =
    found_in-cons name x (ls ++ more)
    ∙ next (λ k. found_in-append name ls more l k) (text_eq x.type_name name)
        (sym (found_in-cons name x ls) ∙ h)
  where
    next :
        (found_in name ls ≡ some l → found_in name (ls ++ more) ≡ some l)
        → (here : Bool) → (if here then some x else found_in name ls) ≡ some l
        → (if here then some x else found_in name (ls ++ more)) ≡ some l
    next later true k = k
    next later false k = later k

-- A layer that a call passed is not asked again. Let the call go on after the pass, park, and run again: a context
-- opened on any body that has the layers recorded after the pass, and maybe more, whatever its park and its writes are.
-- That run passes the layer at once, with the arguments of the first pass whatever arguments it comes with, and leaves
-- the context as it was.
pub layer-passes_again :
    (tool args args' again : Bytes) (i j : Interrupt) (ctx ctx' : CallContext) (id : Bytes)
    (specialists jobs : List Bytes) (s : SessionManager) (c : Call) (b : CallBody)
    (running : List Bytes) (max_children : ℕ) (more : List OnCallLayer)
    → apply_on_call_layer tool args (some i) ctx ≡ (passes args', ctx')
    → type_name j ≡ type_name i
    → b.layers ≡ ctx'.body.layers ++ more
    → let later = new_call_context id specialists jobs s c b running max_children in
      apply_on_call_layer tool again (some j) later ≡ (passes args', later)
unfolding apply_on_call_layer new_call_context
layer-passes_again tool args args' again i j ctx ctx' id specialists jobs s c b running max_children
      more h same kept =
    let (l, found, left) =
      subst (PassedAs (type_name i)) h (apply_on_call_layer-PassedAs tool args i ctx) in
    let later = new_call_context id specialists jobs s c b running max_children in
    let found_j : layer (type_name j) later.body ≡ some l =
      ap (found_in (type_name j)) kept
      ∙ found_in-append (type_name j) ctx'.body.layers more l
          (ap (λ n. layer n ctx'.body) same ∙ found) in
    rw (found_j, apply_on_call_layer) (ap (λ a. (passes a, later)) left)
