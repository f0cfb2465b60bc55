-- ===== src/CallContext/Reads.antt =====
-- What a call reads of the session while it runs, and what a commit makes of its writes (call.go,
-- session_manager.go).
use tacklr.Base.{
  ℕ, ◌≡◌, ◌⊎◌, subst, refl, sym, ap, ◌∙◌, Bool, true, false, Option, none, some, List, [], ◌∷◌,
  ◌++◌, Bytes, text_eq, Dict, lookup, insert, lookup-insert, if◌then◌else◌, arith, Option-cases,
  inl, inr,
}
use tacklr.Failure.{Result, ok, err, Result-cases}
use tacklr.Permissions.{Decision, decision}
use tacklr.Plan.{ToolOutcome, PlanOp, change}
use tacklr.Plan.Store.{snapshot}
use tacklr.Call.{Call, CallBody, StateWrite, PermissionWrite}
use tacklr.SessionManager.{Value, decoded, SessionManager, state, apply}
use tacklr.CallContext.{
  CallContext, UserValue, read_back, user_values, state_set, state_delete, new_call_context,
  state_get, write_user, own_decision, decision_of, kept_answer, remember_answer, rest_of, set_rest,
  plan, change_own_plan,
}
use tacklr.CallContext.Replays.{
  read, states_read, is_answer, Answers, decide, permissions_read, rests_read, plans_read,
}

-- A value that a call keeps, and the one that its commit makes: itself, or what its encoding decodes to.
abbrev pub Kept : (Value → Result Bytes) → Value → Value → Type 0
Kept encode v w = (v ≡ w) ⊎ ((raw : Bytes) × (encode v ≡ ok raw) × (w ≡ decoded raw))

abbrev pub KeptAs : (Value → Result Bytes) → Option Value → Option Value → Type 0
KeptAs encode none none = Unit
KeptAs encode (some v) (some w) = Kept encode v w
KeptAs encode none (some w) = ⊥
KeptAs encode (some v) none = ⊥

abbrev pub KeptFor : (Value → Result Bytes) → Option UserValue → Option UserValue → Type 0
KeptFor encode none none = Unit
KeptFor encode (some v) (some w) = KeptAs encode v w
KeptFor encode none (some w) = ⊥
KeptFor encode (some v) none = ⊥

KeptAs-same : (encode : Value → Result Bytes) (o : Option Value) → KeptAs encode o o
KeptAs-same encode none = tt
KeptAs-same encode (some v) = inl refl

KeptFor-same : (encode : Value → Result Bytes) (o : Option UserValue) → KeptFor encode o o
KeptFor-same encode none = tt
KeptFor-same encode (some o) = KeptAs-same encode o

read-KeptAs :
    (encode : Value → Result Bytes) (own replayed : Option UserValue) (committed : Option Value)
    → KeptFor encode own replayed
    → KeptAs encode (read own committed) (read replayed committed)
read-KeptAs encode none none committed h = KeptAs-same encode committed
read-KeptAs encode (some v) (some w) committed h = h
read-KeptAs encode none (some w) committed h = absurd h
read-KeptAs encode (some v) none committed h = absurd h

-- The call's own values are its writes, in order, before they are encoded.
pub record Synced (encode : Value → Result Bytes) (ctx : CallContext) : Type 0 where
  pub values :
      (key : Bytes)
      → KeptFor encode (lookup key ctx.user) (lookup key (user_values ctx.body.writes.state []))
  pub answers : Answers ctx.body.writes.permissions

-- The call's context, opened again on what it wrote.
abbrev pub reopened : CallContext → CallContext
reopened ctx =
    new_call_context ctx.session_id ctx.specialists ctx.jobs ctx.session ctx.call ctx.body
      ctx.running ctx.max_children

-- The call reads the user state as a session has it: a key that it did not write, the same, and one that it wrote, with
-- the value that it set or what this decodes to; opened again, each key the same. It reads the permission answers, the
-- search rests and the plan the same.
abbrev pub ReadsAs : (Value → Result Bytes) → CallContext → SessionManager → Type 0
ReadsAs encode ctx after =
    ((key : Bytes) → KeptAs encode (state_get key ctx) (state after key))
    × ((key : Bytes) → lookup key ctx.user ≡ none → state_get key ctx ≡ state after key)
    × ((key : Bytes) → state_get key (reopened ctx) ≡ state after key)
    × ((name : Bytes) → decision_of name ctx ≡ decision after.permissions name)
    × ((tool : Bytes) → rest_of tool ctx ≡ lookup tool after.rests)
    × (plan ctx ≡ snapshot after.plan)

read_own : (o : Option UserValue) (c : Option Value) → (elim o [ some v ↦ v | none ↦ c ]) ≡ read o c
read_own none c = refl
read_own (some v) c = refl

state_get-read :
    (key : Bytes) (ctx : CallContext)
    → state_get key ctx ≡ read (lookup key ctx.user) (lookup key ctx.session.user_state)
unfolding state_get
state_get-read key ctx = read_own (lookup key ctx.user) (lookup key ctx.session.user_state)

-- A key that the call's writes leave has no value of its own.
unwritten :
    (encode : Value → Result Bytes) (own replayed : Option UserValue)
    → KeptFor encode own replayed
    → own ≡ none
    → replayed ≡ none
unwritten encode none none h e = refl
unwritten encode none (some w) h e = absurd h
unwritten encode (some v) replayed h e = absurd (cc e)

reads-Synced :
    (encode : Value → Result Bytes) (ctx : CallContext)
    → Synced encode ctx
    → ReadsAs encode ctx (apply ctx.body.writes ctx.session)
unfolding decision_of rest_of plan apply lookup new_call_context
reads-Synced encode ctx synced = (
  λ key.
      subst (λ o. KeptAs encode o (committed_read key)) (sym (state_get-read key ctx))
        (subst (KeptAs encode (read (lookup key ctx.user) (before key))) (replayed key) (
          read-KeptAs encode (lookup key ctx.user)
            (lookup key (user_values ctx.body.writes.state [])) (before key) (synced.values key))),
  λ key own.
      state_get-read key ctx
      ∙ (ap (λ o. read o (before key))
            (own
              ∙ sym (
                  unwritten encode (lookup key ctx.user)
                    (lookup key (user_values ctx.body.writes.state [])) (synced.values key) own))
          ∙ replayed key),
  λ key. state_get-read key (reopened ctx) ∙ replayed key,
  λ name.
      decided_own (own_decision name ctx.body.writes.permissions)
        (decision ctx.session.permissions name)
      ∙ sym (
          permissions_read ctx.body.writes.permissions name ctx.session.permissions synced.answers),
  λ tool. sym (rests_read ctx.body.writes.rests tool ctx.session.rests),
  sym (plans_read ctx.body.writes.plan ctx.session.plan),
)
  where
    before : Bytes → Option Value
    before key = lookup key ctx.session.user_state

    committed_read : Bytes → Option Value
    committed_read key = state (apply ctx.body.writes ctx.session) key

    replayed :
        (key : Bytes)
        → read (lookup key (user_values ctx.body.writes.state [])) (before key) ≡ committed_read key
    replayed key =
        states_read ctx.body.writes.state key [] ctx.session.user_state ctx.session.user_state refl

    decided_own :
        (o : Option Decision) (c : Decision) → (elim o [ some d ↦ d | none ↦ c ]) ≡ decide o c
    decided_own none c = refl
    decided_own (some d) c = refl

user_values-append :
    (ws : List StateWrite) (w : StateWrite) (m : Dict UserValue)
    → user_values (ws ++ w ∷ []) m ≡ insert w.key (read_back w.value) (user_values ws m)
unfolding user_values
user_values-append [] w m = refl
user_values-append (v ∷ ws) w m = user_values-append ws w (insert v.key (read_back v.value) m)

Answers-append :
    (ws : List PermissionWrite) (w : PermissionWrite)
    → Answers ws
    → is_answer w.decision ≡ true
    → Answers (ws ++ w ∷ [])
Answers-append [] w h last = (last, tt)
Answers-append (v ∷ ws) w (this, rest) last = (this, Answers-append ws w rest last)

-- The operations of a context that write; one that fails writes nothing.
pub data Write : Type 0 where
  set_key : (key : Bytes) (v : Value) → Write
  delete_key : (key : Bytes) → Write
  remember : (tool kind : Bytes) → Write
  set_rest_of : (tool rest : Bytes) → Write
  change_plan_by : PlanOp → Write

abbrev or_same : CallContext → Result (ToolOutcome × CallContext) → CallContext
or_same ctx (ok (out, ctx')) = ctx'
or_same ctx (err e) = ctx

abbrev or_unset : CallContext → Result CallContext → CallContext
or_unset ctx (ok ctx') = ctx'
or_unset ctx (err e) = ctx

insert_kept :
    (encode : Value → Result Bytes) (key other : Bytes) (v w : UserValue)
    (own replayed : Dict UserValue)
    → KeptFor encode (lookup other own) (lookup other replayed)
    → KeptAs encode v w
    → KeptFor encode (lookup other (insert key v own)) (lookup other (insert key w replayed))
insert_kept encode key other v w own replayed h k =
    rw (lookup-insert key other v own, lookup-insert key other w replayed)
      (either (text_eq key other))
  where
    either :
        (same : Bool)
        → KeptFor encode
            (if same then some v else lookup other own)
            (if same then some w else lookup other replayed)
    either true = k
    either false = h

write_user-Synced :
    (encode : Value → Result Bytes) (key : Bytes) (v : UserValue) (raw : Option Bytes)
    (ctx : CallContext)
    → KeptAs encode v (read_back raw)
    → Synced encode ctx
    → Synced encode (write_user key v raw ctx)
unfolding write_user
write_user-Synced encode key v raw ctx k h = record {
  values = λ other.
      subst (λ m. KeptFor encode (lookup other (insert key v ctx.user)) (lookup other m))
        (sym (user_values-append ctx.body.writes.state (record { key = key; value = raw }) []))
        (insert_kept encode key other v (read_back raw) ctx.user
          (user_values ctx.body.writes.state []) (h.values other) k);
  answers = h.answers;
}

kept_answer-is_answer :
    (kind : Bytes) (d : Decision) → kept_answer kind ≡ some d → is_answer d ≡ true
kept_answer-is_answer kind d h = ground arith

module _ (encode : Value → Result Bytes) where
  abbrev pub write : Write → CallContext → CallContext
  write (set_key key v) ctx = or_unset ctx (state_set encode key v ctx)
  write (delete_key key) ctx = state_delete key ctx
  write (remember tool kind) ctx = remember_answer tool kind ctx
  write (set_rest_of tool rest) ctx = set_rest tool rest ctx
  write (change_plan_by op) ctx = or_same ctx (change_own_plan op ctx)

  abbrev pub write_all : List Write → CallContext → CallContext
  write_all [] ctx = ctx
  write_all (w ∷ ws) ctx = write_all ws (write w ctx)

  write-Synced : (w : Write) (ctx : CallContext) → Synced encode ctx → Synced encode (write w ctx)
  unfolding state_set state_delete remember_answer change_own_plan
  write-Synced (set_key key v) ctx h = elim (Result-cases (encode v)) [
    | inl (e, k) ↦ rw (k, state_set) h
    | inr (raw, k) ↦
        rw (k, state_set)
          (write_user-Synced encode key (some v) (some raw) ctx (inr (raw, k, refl)) h)
  ]
  write-Synced (delete_key key) ctx h = write_user-Synced encode key none none ctx tt h
  write-Synced (remember tool kind) ctx h = elim (Option-cases (kept_answer kind)) [
    | inl e ↦ rw (e, remember_answer) h
    | inr (d, e) ↦
        rw (e, remember_answer)
          (record {
            values = h.values;
            answers =
                Answers-append ctx.body.writes.permissions (record { tool = tool; decision = d })
                  h.answers (kept_answer-is_answer kind d e);
          })
  ]
  write-Synced (set_rest_of tool rest) ctx h = record { values = h.values; answers = h.answers }
  write-Synced (change_plan_by op) ctx h =
      elim (Result-cases (change op (plan ctx).0 (plan ctx).1)) [
        | inl (e, k) ↦ rw (k, change_own_plan) h
        | inr (r, k) ↦ rw (k, change_own_plan) (record { values = h.values; answers = h.answers })
      ]

  write_all-Synced :
      (ws : List Write) (ctx : CallContext) → Synced encode ctx → Synced encode (write_all ws ctx)
  write_all-Synced [] ctx h = h
  write_all-Synced (w ∷ ws) ctx h = write_all-Synced ws (write w ctx) (write-Synced w ctx h)

-- Open a call's context on what its earlier runs wrote (their permission writes are answers), and let its tool write
-- user-state values, permission answers, search rests and plan changes. Let the commit apply the call's writes. Then
-- the permission answers, the rests and the plan that the call reads are those that the session holds. So is a key of
-- the user state that the call has not written. Where another key reads as a value, the session holds that value or
-- what its encoding decodes to; where it reads as none, the session holds none. The context opened again on the
-- writes reads each key as the session holds it.
pub reads-apply :
    (encode : Value → Result Bytes) (id : Bytes) (specialists jobs : List Bytes)
    (s : SessionManager) (c : Call) (b : CallBody) (running : List Bytes) (max_children : ℕ)
    (ws : List Write)
    → Answers b.writes.permissions
    → let ctx =
        write_all encode ws (new_call_context id specialists jobs s c b running max_children) in
      ReadsAs encode ctx (apply ctx.body.writes ctx.session)
unfolding new_call_context
reads-apply encode id specialists jobs s c b running max_children ws answers =
    reads-Synced encode _ (
      write_all-Synced encode ws _ (record {
        values = λ key. KeptFor-same encode (lookup key (user_values b.writes.state []));
        answers = answers;
      }))
