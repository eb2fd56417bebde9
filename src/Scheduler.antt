-- ===== src/Scheduler.antt =====
-- The scheduler: backend/app/desktop_scheduler.py (the tray and the resume event) and
-- `enqueue_scheduled` of backend/app/worker.py (the worker's poll).
pub mod Settings
pub mod Poll
pub mod Branches
pub mod Due
pub mod Owners
pub mod Tray
