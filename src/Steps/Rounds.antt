-- ===== src/Steps/Rounds.antt =====
-- The commit of a reply's round: `commitReplyRound` of durable_steps.go with `commitRound` and `applyEffect` of agent.go and
-- `handoff` of model_tasks.go. The text that the model writes for a handoff on
-- the plan is a parameter.
use tacklr.Base.{Bool, false, not, Option, none, some, List, [], ◌∷◌, map, Bytes, ℕ, any}
use tacklr.Failure.{Failure, Result, ok, err}
use tacklr.Message.{Message}
use tacklr.Plan.{Todo, is_completed, Effect, no_effect, handoff}
use tacklr.Call.{Round}
use tacklr.SessionManager.{SessionManager}
use tacklr.Window.{Host, Window}
use tacklr.Window.Fit.{add, fit, install_plan, hand_off}
use tacklr.Steps.{commit_calls}

-- `openTodos` of the plan, as a test for none.
abbrev pub has_open : Option (List Todo) → Bool
has_open none = false
has_open (some todos) = any (λ (t : Todo). not (is_completed t.status)) todos

-- The messages of a round, `none` where one is nil: the window's code would dereference it.
unfoldable pub present : List (Option Message) → Option (List Message)
present [] = some []
present (none ∷ ms) = none
present (some m ∷ ms) = elim (present ms) [ none ↦ none | some rest ↦ some (m ∷ rest) ]

module _ {W : Type 0} (h : Host W)
    (write : Option (List Todo) → List Message → W → Result Bytes × W) where
  -- `applyEffect`
  abbrev pub apply_effect :
      Effect → SessionManager → Window W → Option (Result (Unit {0}) × Window W)
  apply_effect handoff s w =
      hand_off h s.plan.document (has_open s.plan.todos) (write s.plan.todos) w
  apply_effect _ s w = install_plan h s.plan.document w

  -- `commitRound` where the context has not ended.
  abbrev pub commit_open_round :
      SessionManager → List Message → Effect → ℕ → Window W → Option (Result (Unit {0}) × Window W)
  commit_open_round s round no_effect counted w = fit h round counted w
  commit_open_round s round asked counted w = apply_effect asked s (add h round w)

  -- `commitRound`, where `stopped` is the context's error.
  unfoldable pub commit_round :
      Option Failure
      → SessionManager
      → List Message
      → Effect
      → ℕ
      → Window W
      → Option (Result (Unit {0}) × Window W)
  commit_round (some e) s round asked counted w = some (err e, w)
  commit_round none s round asked counted w = commit_open_round s round asked counted w

  abbrev pub present_committed :
      Option Failure
      → SessionManager
      → Option (List Message)
      → Effect
      → ℕ
      → Window W
      → Option (Result (Unit {0}) × Window W)
  present_committed stopped s none asked counted w = none
  present_committed stopped s (some round) asked counted w =
      commit_round stopped s round asked counted w

  abbrev pub reply_round_committed :
      Option Failure
      → Round
      → Window W
      → Result (SessionManager × List (Option Message) × Effect)
      → Result (SessionManager × Option (Result (Unit {0}) × Window W))
  reply_round_committed stopped r w (err e) = err e
  reply_round_committed stopped r w (ok (s, msgs, asked)) =
      ok (s, present_committed stopped s (present msgs) asked r.reply.input_tokens w)

  -- `commitReplyRound`: an error of its own, or the session with the writes and what the window does with the round.
  unfoldable pub commit_reply_round :
      Option Failure
      → Round
      → SessionManager
      → Window W
      → Result (SessionManager × Option (Result (Unit {0}) × Window W))
  commit_reply_round stopped r s w =
      reply_round_committed stopped r w
        (commit_calls r.calls s (map some r.reply.messages) no_effect)
