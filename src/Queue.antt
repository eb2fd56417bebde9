-- ===== src/Queue.antt =====
-- The durable queue of scan runs: backend/app/job_queue.py, and the two endpoints of
-- backend/app/main.py that insert and cancel runs. Each call is one database transaction, so
-- each operation here is a function from the tables to the tables.
pub mod Rows
pub mod Invariant
pub mod Counting
pub mod Claim
pub mod Stop
pub mod Selected
pub mod Detach
pub mod Enqueue
