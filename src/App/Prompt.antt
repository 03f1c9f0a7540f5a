-- ===== src/App/Prompt.antt =====
-- internal/app/prompt.go: the loop that accompanies the session of an agent task.
pub mod Texts
pub mod State
pub mod Performers
pub mod Turn
pub mod Actions
pub mod Events
pub mod TurnEnd
pub mod MidTurn
pub mod Timers
pub mod Rounds
pub mod Invariant
pub mod Safety
pub mod Completed
pub mod Stale
pub mod Ending
