-- ===== src/App.antt =====
-- internal/app: the tasks, their runtimes and the operations of the control plane.
pub mod Types
pub mod Service
pub mod Queue
pub mod Control
pub mod Verify
pub mod Prompt
pub mod Review
pub mod Start
pub mod Consume
