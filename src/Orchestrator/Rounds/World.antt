-- ===== src/Orchestrator/Rounds/World.antt =====
-- The revision that the runtime's record is at, through the calls that the jobs and the runs make.
use tacklr.Base.{
  ℕ, Bool, true, false, Option, none, some, inl, inr, Option-cases, List, [], ◌∷◌, Bytes,
  find_index?, remove_at, text_eq, if◌then◌else◌,
}
use tacklr.Failure.{Failure}
use tacklr.Call.{Call, JobStart}
use tacklr.Orchestrator.State.{Job}
use tacklr.Orchestrator.Runtime.{Runtime, Follows}
use tacklr.Orchestrator.Jobs.{cancel_each, cancel_asked, start_each, start_jobs}
use tacklr.Orchestrator.Rounds.{
  Recorded, launched, record_at, record_found, record_outcome, record_call, record_calls, counts,
}

module _ {W : Type 0} (rt : Runtime W) (At : Bytes → W → Type 0) (follows : Follows rt At) where
  pub cancel_each-At :
      (rev : Bytes) (js : List Job) (w : W) → At rev w → At rev (cancel_each rt js w)
  unfolding cancel_each
  cancel_each-At rev [] w h = h
  cancel_each-At rev (j ∷ js) w h = cancel_each-At rev js _ (cancelled j.ended)
    where
      cancelled : (b : Bool) → At rev (if b then w else rt.cancel_job j.id w)
      cancelled true = h
      cancelled false = follows.cancel_job rev j.id w h

  cancel_asked-At :
      (rev : Bytes) (ids : List Bytes) (js : List Job) (w : W)
      → At rev w
      → At rev (cancel_asked rt ids js w).1
  unfolding cancel_asked
  cancel_asked-At rev [] js w h = h
  cancel_asked-At rev (id ∷ ids) js w h =
      elim (Option-cases (find_index? (λ j. text_eq j.id id) js)) [
        | inl e ↦ rw (e, cancel_asked) (cancel_asked-At rev ids js w h)
        | inr (i, e) ↦
            rw (e, cancel_asked)
              (cancel_asked-At rev ids (remove_at i js) _ (follows.cancel_job rev id w h))
      ]

  start_each-At :
      (rev : Bytes) (c : Call) (ss : List JobStart) (js : List Job) (w : W)
      → At rev w
      → At rev (start_each rt c ss js w).2
  unfolding start_each
  start_each-At rev c [] js w h = h
  start_each-At rev c (s ∷ ss) js w h = elim (Option-cases (rt.start_job s w).0) [
    | inl e ↦ rw (e, start_each) (start_each-At rev c ss _ _ (follows.start_job rev s w h))
    | inr (x, e) ↦ rw (e, start_each) (follows.start_job rev s w h)
  ]

  start_jobs-At :
      (rev : Bytes) (c : Call) (js : List Job) (w : W) → At rev w → At rev (start_jobs rt c js w).2
  unfolding start_jobs
  start_jobs-At rev c js w h =
      start_each-At rev c c.starts _ _ (cancel_asked-At rev c.cancels js w h)

  launched-At :
      (rev : Bytes) (b : Bool) (c : Call) (s : Recorded W)
      → At rev s.world
      → At rev (launched rt b c s).2
  unfolding launched
  launched-At rev false c s h = h
  launched-At rev true c s h = start_jobs-At rev c s.jobs s.world h

  abbrev pub RecordedAt : Bytes → Option (Recorded W) → Type 0
  RecordedAt rev none = Unit
  RecordedAt rev (some s) = At rev s.world

  record_found-At :
      (rev : Bytes) (i : Option ℕ) (c : Call) (s : Recorded W)
      → At rev s.world
      → RecordedAt rev (record_found rt i c s)
  unfolding record_found record_at
  record_found-At rev none c s h = tt
  record_found-At rev (some i) c s h = launched-At rev (counts s.calls i c) c s h

  record_outcome-At :
      (rev : Bytes) (f : Option Failure) (c : Call) (s : Recorded W)
      → At rev s.world
      → RecordedAt rev (record_outcome rt f c s)
  unfolding record_outcome
  record_outcome-At rev (some e) c s h = h
  record_outcome-At rev none c s h = record_found-At rev _ c s h

  pub record_calls-At :
      (rev : Bytes) (cs : List Call) (s : Recorded W)
      → At rev s.world
      → RecordedAt rev (record_calls rt cs s)
  unfolding record_calls record_call
  record_calls-At rev [] s h = h
  record_calls-At rev (c ∷ cs) s h =
      recorded (record_outcome rt c.failure c s) (record_outcome-At rev c.failure c s h)
        (record_calls-At rev cs)
    where
      recorded :
          (o : Option (Recorded W))
          → RecordedAt rev o
          → ((s' : Recorded W) → At rev s'.world → RecordedAt rev (record_calls rt cs s'))
          → RecordedAt rev (elim o [ none ↦ none | some s' ↦ record_calls rt cs s' ])
      recorded none h next = tt
      recorded (some s') h next = next s' h
