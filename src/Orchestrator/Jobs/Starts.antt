-- ===== src/Orchestrator/Jobs/Starts.antt =====
-- What a call's starts add to the session's jobs.
use tacklr.Base.{
  ℕ, suc, ◌≡◌, refl, ap, sym, ◌∙◌, none, List, [], ◌∷◌, ◌++◌, map, append_assoc, append-nil, take,
  inl, inr, Option-cases,
}
use tacklr.Call.{Call, JobStart}
use tacklr.Orchestrator.State.{Job}
use tacklr.Orchestrator.Runtime.{Runtime}
use tacklr.Orchestrator.Jobs.{started_job, start_each}

module _ {W : Type 0} (rt : Runtime W) where
  -- The jobs after the starts are those before, then the jobs of the starts up to the first that
  -- the runtime refuses: all of them when it refuses none. No job of a refused start stays.
  pub start_each-prefix :
      (c : Call) (starts : List JobStart) (jobs : List Job) (w : W)
      → (k : ℕ) × ((start_each rt c starts jobs w).1 ≡ jobs ++ map (started_job c) (take k starts))
        × ((start_each rt c starts jobs w).0 ≡ none → take k starts ≡ starts)
  unfolding start_each
  start_each-prefix c [] jobs w = (0, sym (append-nil jobs), λ _. refl)
  start_each-prefix c (s ∷ ss) jobs w = elim (Option-cases (rt.start_job s w).0) [
    | inl started ↦
        let (k, rest, all_started) =
          start_each-prefix c ss (jobs ++ started_job c s ∷ []) (rt.start_job s w).1 in
        (
          suc k,
          rw (started, start_each) (rest ∙ append_assoc jobs (started_job c s ∷ []) _),
          λ none_failed. ap (◌∷◌ s) (all_started (rw (started, start_each) at none_failed)),
        )
    | inr (e, refused) ↦ (
      0,
      rw (refused, start_each) (sym (append-nil jobs)),
      λ none_failed. absurd (cc (rw (refused, start_each) at none_failed)),
    )
  ]
