-- ===== src/Orchestrator/Turn/Unasked.antt =====
-- Answers to a session that waits on none (`drive` of turn.go).
use tacklr.Base.{
  ℕ, ◌≡◌, refl, ◌∙◌, ap, Bool, true, false, Option, none, some, [], ◌∷◌, Bytes, Dict, is_empty,
  is_some, text_eq, codes,
}
use tacklr.Failure.{Failure, ok, err, wrap, interrupt_not_found}
use tacklr.Orchestrator.Runtime.{Runtime, Sys}
use tacklr.Orchestrator.Rounds.{unknown_answer}
use tacklr.Orchestrator.Turn.{
  first_commit, commit, moved_past, unasked, fail, turn_loop, start_loop, drive,
}

module _ {W : Type 0} (rt : Runtime W) (fuel : ℕ) (answers : Dict Bytes) (s : Sys W) where
  first : Bool → Option (Sys W)
  first false = start_loop rt fuel answers s
  first true =
      let (done, s2) = commit rt (first_commit none s.turn) s in
      elim done [ false ↦ some s2 | true ↦ start_loop rt fuel answers s2 ]

  -- What the loop makes of answers that no round takes.
  unknown : Option (Sys W)
  unknown = elim (unknown_answer answers []) [ err e ↦ some (fail rt e s) | ok _ ↦ none ]

  second : Bool → Option (Sys W)
  unfolding unknown
  second true = unknown
  second false = turn_loop rt fuel answers false s

  drive-unknown :
      s.turn.round ≡ none
      → s.turn.state ≡ none
      → unasked none answers ≡ true
      → drive rt fuel none answers s ≡ unknown
  unfolding drive start_loop first second moved_past
  drive-unknown closed nothing late =
      ap (λ o. first (is_some o)) nothing
      ∙ (ap (λ o. second (unasked o answers)) closed ∙ ap second late)

module _ {W : Type 0} (rt : Runtime W) where
  -- With no open round and nothing to commit first, an answer to an id fails the turn, and an answer to
  -- the empty id alone is a panic: `drive` returns for no fuel.
  pub drive-unasked :
      (fuel : ℕ) (key a : Bytes) (s : Sys W)
      → s.turn.round ≡ none
      → s.turn.state ≡ none
      → (is_empty key ≡ false
          → (e : Failure) × (drive rt fuel none ((key, a) ∷ []) s ≡ some (fail rt e s)))
        × (drive rt fuel none (([], a) ∷ []) s ≡ none)
  unfolding unasked unknown unknown_answer text_eq
  drive-unasked fuel key a s closed nothing =
      (λ named. elim_key key named, drive-unknown rt fuel (([], a) ∷ []) s closed nothing refl)
    where
      elim_key :
          (k : Bytes)
          → is_empty k ≡ false
          → (e : Failure) × (drive rt fuel none ((k, a) ∷ []) s ≡ some (fail rt e s))
      elim_key [] named = absurd (cc named)
      elim_key (b ∷ k) named = (
        wrap (codes "no tool call id found for interrupt") interrupt_not_found,
        drive-unknown rt fuel ((b ∷ k, a) ∷ []) s closed nothing refl,
      )
