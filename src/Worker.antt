-- ===== src/Worker.antt =====
-- backend/app/worker.py: one scan job from its start to its terminal status.
pub mod Rescheduling
pub mod Lifecycle
pub mod Outcomes
