-- ===== src/Orchestrator/State/Tests.antt =====
-- A session that is suspended in a turn, and goes on.
use tacklr.Base.{◌≡◌, true, false, none, some, [], ◌∷◌, codes}
use tacklr.Message.{user, text_message}
use tacklr.Orchestrator.State.{State, new_state, carry, carry-new_state}

abbrev suspended_session : State
suspended_session =
    record (new_state (codes "s")
      (record { specialist = []; worker = []; parent = []; mounts = []; task = true }) [] none
      none) { inbox = text_message user (codes "wait") ∷ []; suspended = true; cancelled = true }

carry-new_state_example :
    new_state (codes "s") suspended_session.identity [] none (some (carry suspended_session))
    ≡ record suspended_session { failure = none; closed = false; cancelled = false }
unfolding new_state
carry-new_state_example = carry-new_state suspended_session [] none
