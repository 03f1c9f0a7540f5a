-- ===== src/Supervisor.antt =====
-- internal/supervisor: the deterministic rules, the decision ledger, the executor and the timers.
pub mod Types
pub mod Engine
pub mod Ledger
pub mod Executor
pub mod Clock
pub mod Progress
pub mod Semantic
pub mod Answer
pub mod Plan
