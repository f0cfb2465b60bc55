-- ===== src/Window/Fit.antt =====
-- How a round enters the window, and how the window collapses (window.go). `none` is a panic: the window
-- has no first message where the code takes it.
pub mod Keeps
use tacklr.Base.{
  ◌≡◌, refl, ℕ, zero, suc, ◌+◌, Bool, true, false, not, ◌&&◌, ltb, leb, ◌==◌, min, Option, none,
  some, List, [], ◌∷◌, ◌++◌, map, length, take, drop, Bytes, codes, is_empty, if◌then◌else◌,
}
use tacklr.Failure.{Failure, Result, ok, err, plain, err_context_length}
use tacklr.Message.{Message, developer, text_message}
use tacklr.Window.{
  RequestCount, no_count, Host, Window, plan_document, context_summary_prefix,
  searchable_history_note, continue_plan_nudge, protected_prefix_len, without_reasoning, bound,
  measure, trim,
}

-- The summary that a collapse leaves.
summary : Bytes → Bool → Message
unfolding context_summary_prefix searchable_history_note
summary text kept = text_message developer (
    context_summary_prefix
    ++ (text ++ (if kept then codes "\n\n" ++ searchable_history_note else [])))

module _ {W : Type 0} (h : Host W) where
  -- `set`
  abbrev pub set_window : List Message → RequestCount → Window W → Window W
  set_window msgs c w = record w { msgs = msgs; count = c }

  -- `Add`
  abbrev pub add : List Message → Window W → Window W
  add round w = record w { msgs = w.msgs ++ round }

  summarized : List Message → ℕ → Bool → Result Bytes → Result (List Message)
  unfolding summary
  summarized msgs end kept (err e) = err e
  summarized msgs end kept (ok text) = ok (
      take (protected_prefix_len msgs) msgs
      ++ (summary text kept ∷ without_reasoning (drop end msgs)))

  archived : List Message → ℕ → Result Bool → Window W → Result (List Message) × Window W
  unfolding summarized
  archived msgs end (err e) w = (err e, w)
  archived msgs end (ok kept) w =
      let (r, world) = h.summarize (take end msgs) w.world in
      (summarized msgs end kept r, record w { world = world })

  -- `collapse`
  unfoldable pub collapse : List Message → ℕ → Window W → Result (List Message) × Window W
  unfolding archived
  collapse msgs end w =
      let (r, world) = h.archive (drop (protected_prefix_len msgs) (take end msgs)) w.world in
      archived msgs end r (record w { world = world })

  trimmed :
      RequestCount
      → List Message
      → Option (Result (List Message) × Window W)
      → Option (Result (Unit {0}) × Window W)
  trimmed c msgs none = none
  trimmed c msgs (some (err e, w)) = some (err e, w)
  trimmed c msgs (some (ok round, w)) = some (ok tt, set_window (msgs ++ round) c w)

  -- The end of `Fit`: a round that is still over the window's size is cut.
  unfoldable pub fit_round :
      RequestCount
      → List Message
      → List Message
      → ℕ
      → Window W
      → Option (Result (Unit {0}) × Window W)
  unfolding trimmed
  fit_round c msgs round n w = elim (ltb w.size n) [
    | true ↦ trimmed c msgs (trim h c msgs round n w)
    | false ↦ some (ok tt, set_window (msgs ++ round) c w)
  ]

  fit_measured :
      RequestCount
      → List Message
      → List Message
      → Result ℕ × Window W
      → Option (Result (Unit {0}) × Window W)
  unfolding fit_round
  fit_measured c msgs round (err e, w) = some (err e, w)
  fit_measured c msgs round (ok n, w) = fit_round c msgs round n w

  fit_collapsed :
      List Message → Result (List Message) × Window W → Option (Result (Unit {0}) × Window W)
  unfolding fit_measured
  fit_collapsed round (err e, w) = some (err e, w)
  fit_collapsed round (ok msgs, w) =
      let rest = without_reasoning round in
      fit_measured no_count msgs rest (measure h no_count msgs rest w)

  -- Over the pressure, a window with something to collapse collapses first.
  over_pressure :
      RequestCount
      → List Message
      → List Message
      → Result ℕ × Window W
      → Option (Result (Unit {0}) × Window W)
  unfolding fit_collapsed
  over_pressure c msgs round (err e, w) = some (err e, w)
  over_pressure c msgs round (ok n, w) =
      elim (ltb w.threshold n && ltb (protected_prefix_len msgs) (length msgs)) [
        | true ↦ fit_collapsed round (collapse msgs (length msgs) w)
        | false ↦ fit_round c msgs round n w
      ]

  abbrev pub counted_on : ℕ → Window W → RequestCount
  counted_on counted w =
      if ltb 0 counted then record { tokens = counted; messages = length w.msgs } else w.count

  -- `Fit`
  unfoldable pub fit : List Message → ℕ → Window W → Option (Result (Unit {0}) × Window W)
  unfolding over_pressure
  fit round counted w =
      let c = counted_on counted w in
      elim (ltb (bound h c w.msgs round) w.threshold) [
        | true ↦ some (ok tt, set_window (w.msgs ++ round) c w)
        | false ↦ over_pressure c w.msgs round (measure h c w.msgs round w)
      ]

  refitted : Result (List Message) × Window W → Result (Unit {0}) × Window W
  refitted (err e, w) = (err e, w)
  refitted (ok msgs, w) = (ok tt, set_window msgs no_count w)

  -- Where the summary of `Refit` ends: after the messages that were counted, else after all.
  abbrev pub refit_end : Window W → ℕ
  refit_end w =
      if leb w.count.messages (protected_prefix_len w.msgs) then length w.msgs else w.count.messages

  -- `Refit`
  unfoldable pub refit : Window W → Result (Unit {0}) × Window W
  unfolding refitted
  refit w = elim (leb (refit_end w) (protected_prefix_len w.msgs)) [
    | true ↦ (err err_context_length, w)
    | false ↦ refitted (collapse w.msgs (refit_end w) w)
  ]

  -- `InstallPlan`
  unfoldable pub install_plan : Bytes → Window W → Option (Result (Unit {0}) × Window W)
  install_plan [] w = some (err (plain (codes "install plan document: no plan document")), w)
  install_plan (b ∷ plan) w = elim w.msgs [
    | [] ↦ none
    | m ∷ _ ↦ some (ok tt, set_window (m ∷ (plan_document (b ∷ plan) ∷ [])) no_count w)
  ]

  -- The window after a handoff.
  handed_off : Message → Bytes → Bool → Bytes → List Message
  unfolding continue_plan_nudge
  handed_off first plan todos_open handoff =
      (first ∷ [])
      ++ ((if is_empty plan then [] else plan_document plan ∷ [])
          ++ (text_message developer handoff
              ∷ (if todos_open then text_message developer continue_plan_nudge ∷ [] else [])))

  written :
      List Message → Bytes → Bool → Result Bytes → Window W → Option (Result (Unit {0}) × Window W)
  unfolding handed_off
  written msgs plan todos_open (err e) w = some (err e, w)
  written [] plan todos_open (ok handoff) w = none
  written (m ∷ msgs) plan todos_open (ok handoff) w =
      some (ok tt, set_window (handed_off m plan todos_open handoff) no_count w)

  archived_rest :
      (List Message → W → Result Bytes × W)
      → Bytes
      → Bool
      → Result Bool
      → Window W
      → Option (Result (Unit {0}) × Window W)
  unfolding written
  archived_rest write plan todos_open (err e) w = some (err e, w)
  archived_rest write plan todos_open (ok kept) w =
      let (r, world) = write w.msgs w.world in
      written w.msgs plan todos_open r (record w { world = world })

  -- `HandOff`, where `write` writes the handoff.
  unfoldable pub hand_off :
      Bytes
      → Bool
      → (List Message → W → Result Bytes × W)
      → Window W
      → Option (Result (Unit {0}) × Window W)
  unfolding archived_rest
  hand_off plan todos_open write w =
      let (r, world) = h.archive (drop 1 w.msgs) w.world in
      archived_rest write plan todos_open r (record w { world = world })
