-- ===== src/Orchestrator/Runtime.antt =====
-- What the orchestrator calls: the interface `Runtime` of turn.go, over the runtime's own world.
-- `next` gives `none` for the zero wake.
use tacklr.Base.{Bool, Option, List, Bytes}
use tacklr.Failure.{Failure, Result, ok, err}
use tacklr.Call.{Call, Reply, JobStart}
use tacklr.Orchestrator.State.{Carrier, State, TurnStart, CommitIn, Event, Wake}

pub record Runtime (W : Type 0) : Type 0 where
  pub begin : TurnStart → W → Carrier × W
  pub end_turn : W → W
  pub commit : Bytes → CommitIn → W → Result Bytes × W
  pub infer : W → Result Reply × W
  pub tools : List Call → W → List Call × W
  pub emit : Event → W → W
  pub run_job : Bytes → Bytes → W → Result Bytes × W
  pub next : Bool → W → Option Wake × W
  pub start_job : JobStart → W → Option Failure × W
  pub cancel_job : Bytes → W → W

-- The session's state with the world that its runtime acts on.
pub record Sys (W : Type 0) : Type 0 where
  pub turn : State
  pub world : W

-- What a commit makes of a record at a revision: the record at the revision it returns, or the record
-- as it was.
abbrev pub Advanced : {W : Type 0} → (Bytes → W → Type 0) → Bytes → Result Bytes × W → Type 0
Advanced At rev (ok rev', w) = At rev' w
Advanced At rev (err e, w) = At rev w

-- The runtime's record is at a revision, and only a commit on that revision moves it on.
pub record Follows {W : Type 0} (rt : Runtime W) (At : Bytes → W → Type 0) : Type 0 where
  pub commit : (rev : Bytes) (c : CommitIn) (w : W) → At rev w → Advanced At rev (rt.commit rev c w)
  pub infer : (rev : Bytes) (w : W) → At rev w → At rev (rt.infer w).1
  pub tools : (rev : Bytes) (cs : List Call) (w : W) → At rev w → At rev (rt.tools cs w).1
  pub emit : (rev : Bytes) (e : Event) (w : W) → At rev w → At rev (rt.emit e w)
  pub next : (rev : Bytes) (block : Bool) (w : W) → At rev w → At rev (rt.next block w).1
  pub start_job : (rev : Bytes) (j : JobStart) (w : W) → At rev w → At rev (rt.start_job j w).1
  pub cancel_job : (rev : Bytes) (id : Bytes) (w : W) → At rev w → At rev (rt.cancel_job id w)
