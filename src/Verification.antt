-- ===== src/Verification.antt =====
-- internal/verification: the verifiers that decide whether a task may complete.
pub mod Tail
pub mod Command
pub mod Workspace
