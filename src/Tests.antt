-- ===== src/Tests.antt =====
-- Runs of the model at concrete inputs, and the theorems applied there.
mod Supervision
mod Bus
mod Service
mod Control
mod Verification
mod Verify
mod Prompt
mod Texts
mod Plan
mod Start
