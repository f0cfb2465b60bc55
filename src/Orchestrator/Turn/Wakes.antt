-- ===== src/Orchestrator/Turn/Wakes.antt =====
-- What the wakes that come in while a turn runs leave of its state (`handle` and `pump` of
-- session/orchestrator/session.go).
use tacklr.Base.{
  ℕ, zero, suc, ◌≡◌, ◌∙◌, Bool, false, Option, none, some, inl, inr, Option-cases, [], ◌∷◌, Bytes,
  Dict, arith,
}
use tacklr.Orchestrator.State.{
  State, Prompt, Wake, prompt, resume, cancel, close, suspend, job, queue_state, steer,
}
use tacklr.Orchestrator.Runtime.{Runtime, Sys}
use tacklr.Orchestrator.Jobs.{job_ended}
use tacklr.Orchestrator.Turn.{handle_running, pump}

pub record Keeps (t t' : State) : Type 0 where
  pub round : t'.round ≡ t.round
  pub rev : t'.rev ≡ t.rev
  pub result : t'.result ≡ t.result
  pub finished : t'.finished ≡ t.finished
  pub terminal : t'.terminal ≡ t.terminal
  pub failure : t'.failure ≡ t.failure

pub Keeps-refl : (t : State) → Keeps t t
Keeps-refl t = ground arith

pub Keeps-trans : {t u v : State} → Keeps t u → Keeps u v → Keeps t v
Keeps-trans h k = record {
  round = k.round ∙ h.round;
  rev = k.rev ∙ h.rev;
  result = k.result ∙ h.result;
  finished = k.finished ∙ h.finished;
  terminal = k.terminal ∙ h.terminal;
  failure = k.failure ∙ h.failure;
}

queue_state-Keeps : (m : Dict Bytes) (t : State) → Keeps t (queue_state m t)
unfolding queue_state
queue_state-Keeps [] t = Keeps-refl t
queue_state-Keeps (e ∷ es) t = elim (Option-cases t.state) [
  | inl h ↦ rw (h, queue_state) (ground arith)
  | inr (m, h) ↦ rw (h, queue_state) (ground arith)
]

steer-Keeps : (p : Prompt) (t : State) → Keeps t (steer p t)
unfolding steer
steer-Keeps p t =
    let h = queue_state-Keeps p.state _ in
    record {
      round = h.round;
      rev = h.rev;
      result = h.result;
      finished = h.finished;
      terminal = h.terminal;
      failure = h.failure;
    }

pub handle_running-Keeps : (k : Wake) (t : State) → Keeps t (handle_running k t)
unfolding handle_running job_ended
handle_running-Keeps (prompt p trace) t = steer-Keeps p t
handle_running-Keeps (job end) t = ground arith
handle_running-Keeps (resume r trace) t = ground arith
handle_running-Keeps cancel t = ground arith
handle_running-Keeps close t = ground arith
handle_running-Keeps suspend t = ground arith

module _ {W : Type 0} where
  abbrev pub PumpKeeps : State → Option (Sys W) → Type 0
  PumpKeeps t none = Unit
  PumpKeeps t (some s) = Keeps t s.turn

module _ {W : Type 0} (rt : Runtime W) where
  PumpKeeps-trans : {t u : State} (o : Option (Sys W)) → Keeps t u → PumpKeeps u o → PumpKeeps t o
  PumpKeeps-trans none h k = tt
  PumpKeeps-trans (some s) h k = Keeps-trans h k

  pub pump-PumpKeeps :
      (fuel : ℕ) (block : Bool) (s : Sys W) → PumpKeeps s.turn (pump rt fuel block s)
  unfolding pump
  pump-PumpKeeps zero block s = tt
  pump-PumpKeeps (suc fuel) block s = elim (Option-cases (rt.next block s.world).0) [
    | inl e ↦ rw (e, pump) (Keeps-refl s.turn)
    | inr (k, e) ↦
        rw (e, pump)
          (PumpKeeps-trans _ (handle_running-Keeps k s.turn) (
            pump-PumpKeeps fuel false
              (record { turn = handle_running k s.turn; world = (rt.next block s.world).1 })))
  ]
