-- ===== src/Orchestrator.antt =====
-- The session's orchestrator (session/orchestrator): its state and what one wake does to it, the
-- jobs, the open round, the turn's loop, and the session's loop. The runtime is a parameter.
pub mod State
pub mod Runtime
pub mod Jobs
pub mod Rounds
pub mod Turn
pub mod Session
mod Samples
