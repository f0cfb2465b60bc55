-- ===== src/Steps/Commits.antt =====
-- The commit of a reply's round (`commitReplyRound` of durable_steps.go).
use tacklr.Base.{
  append-nil, append_assoc, ◌≡◌, refl, sym, ap, ◌∙◌, Bool, true, false, Option, none, some, List,
  [], ◌∷◌, ◌++◌, map, Bytes, All, Bool-cases, inl, inr, if◌then◌else◌,
}
use tacklr.Failure.{Failure, Result, ok, err}
use tacklr.Message.{Message, wire_id}
use tacklr.Plan.{Todo, Effect, no_effect}
use tacklr.Call.{Call, CallBody, Round}
use tacklr.SessionManager.{SessionManager}
use tacklr.Steps.{
  result_of, commit_calls, applied, max_effect, asked_effect, tool_result_message,
  cancelled_content,
}
use tacklr.Window.{Host, Window}
use tacklr.Steps.Rounds.{
  present, present_committed, commit_round, reply_round_committed, commit_reply_round,
}
use tacklr.Steps.Runs.{RunEnd, finished}

-- A call that is done has its result, to its wire id; one that is not done needs none.
pub data Settled (c : Call) : Type 0 where
  not_done : c.done ≡ false → Settled c
  has_result :
      (b : CallBody) (m : Message)
      → c.body ≡ some b
      → b.result ≡ some m
      → m.tool_call_id ≡ wire_id c.tool
      → Settled c

-- A settled call gives a message to its wire id.
result_of-message :
    (c : Call)
    → Settled c
    → (m : Message) × (result_of c c.body ≡ some m) × (m.tool_call_id ≡ wire_id c.tool)
result_of-message c (not_done e) = (tool_result_message c.tool cancelled_content, rw e refl, refl)
result_of-message c (has_result b m e k same) = elim (Bool-cases c.done) [
  | inl d ↦ (m, rw (d, e, k) refl, same)
  | inr d ↦ (tool_result_message c.tool cancelled_content, rw d refl, refl)
]

Settled-body : (c : Call) → Settled c → c.body ≡ none → c.done ≡ false
Settled-body c (not_done e) h = e
Settled-body c (has_result b m e k same) h = cc

-- The test for a result without a body lets a settled call pass.
body_found :
    (body : Option CallBody) (done : Bool) (f : Failure)
    (rest : Result (SessionManager × List (Option Message) × Effect))
    → (body ≡ none → done ≡ false)
    → (elim body [ none ↦ if done then err f else rest | some b ↦ rest ]) ≡ rest
body_found (some b) done f rest fits = refl
body_found none false f rest fits = refl
body_found none true f rest fits = absurd (cc (fits refl))

-- The loop gives each call's message after those before.
commit_calls-results :
    (cs : List Call) (s : SessionManager) (msgs : List (Option Message)) (e : Effect)
    → All Settled cs
    → (s' : SessionManager) × (results : List Message) × (e' : Effect) × (commit_calls cs s msgs e
        ≡ ok (s', msgs ++ map some results, e'))
      × (map (λ (m : Message). m.tool_call_id) results ≡ map (λ (c : Call). wire_id c.tool) cs)
unfolding commit_calls
commit_calls-results [] s msgs e h =
    (s, [], e, ap (λ ms. ok (s, ms, e)) (sym (append-nil msgs)), refl)
commit_calls-results (c ∷ cs) s msgs e (this, rest) =
    let (m, is_m, same) = result_of-message c this in
    let s1 = applied c.body s in
    let e1 = max_effect e (asked_effect c.body) in
    let (s', results, e', ran, to) = commit_calls-results cs s1 (msgs ++ some m ∷ []) e1 rest in
    (
      s',
      m ∷ results,
      e',
      body_found c.body c.done _ _ (Settled-body c this)
          ∙ (ap (λ r. commit_calls cs s1 (msgs ++ r ∷ []) e1) is_m
              ∙ (ran
                  ∙ ap (λ ms. ok (s', ms, e'))
                      (append_assoc msgs (some m ∷ []) (map some results)))),
      rw (same, to) refl,
    )

-- A call that a run has just ended is settled.
pub RunEnd-Settled : (c : Call) → RunEnd c → Settled c
RunEnd-Settled c (finished b m done body result same) = has_result b m body result same
RunEnd-Settled c (RunEnd.parks p new _ _) = not_done new
RunEnd-Settled c (RunEnd.awaits new _) = not_done new

present-some : (ms ns : List Message) → present (map some ms ++ map some ns) ≡ some (ms ++ ns)
unfolding present
present-some [] [] = refl
present-some [] (n ∷ ns) = rw (present, present-some [] ns) refl
present-some (m ∷ ms) ns = rw (present, present-some ms ns) refl

-- The commit of a round whose calls are settled, whether they are done or not, comes to the window, and only what the
-- window does then can fail. The window gets the messages of the reply, and after them one message for each call, in
-- call order and to the call's wire id: no call of the model is left without an answer.
pub commit_reply_round-answers_each :
    {W : Type 0} (h : Host W) (write : Option (List Todo) → List Message → W → Result Bytes × W)
    (stopped : Option Failure) (r : Round) (s : SessionManager) (w : Window W)
    → All Settled r.calls
    → (s' : SessionManager) × (results : List Message) × (e' : Effect) × (commit_reply_round h write
          stopped r s w
        ≡ ok (
          s',
          commit_round h write stopped s' (r.reply.messages ++ results) e' r.reply.input_tokens w,
        ))
      × (map (λ (m : Message). m.tool_call_id) results ≡ map (λ (c : Call). wire_id c.tool) r.calls)
unfolding commit_reply_round
commit_reply_round-answers_each h write stopped r s w settled =
    let (s', results, e', ran, to) =
      commit_calls-results r.calls s (map some r.reply.messages) no_effect settled in
    (
      s',
      results,
      e',
      ap (reply_round_committed h write stopped r w) ran
          ∙ ap (λ o. ok (s', present_committed h write stopped s' o e' r.reply.input_tokens w))
              (present-some r.reply.messages results),
      to,
    )
