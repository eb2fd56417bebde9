-- ===== src/System.antt =====
-- The desktop application as a sequence of transactions on the shared tables: requests of the
-- user, the worker's poll, claim and ends of a job, the tray, the resume event, shutdown and
-- restart. Any order of them is a run of the system.
pub mod Events
pub mod Exclusive
pub mod Polling
pub mod Worker
pub mod Outcomes
pub mod Evolution
pub mod Updates
pub mod Steps
pub mod Ends
pub mod Commits
pub mod Interrupts
pub mod Quiet
pub mod Conflicts
pub mod Disjoint
pub mod History
pub mod Stuck
pub mod Single
