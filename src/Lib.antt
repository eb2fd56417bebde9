-- ===== src/Lib.antt =====
-- SearchCar desktop: the scan queue with its scheduler and worker, the readers of pages, the
-- reports, the tracking of listings, the search license, the accounts and the locks of an update
-- (backend/app).
--
-- The desktop application keeps its work in a few tables (models.py). The API inserts scan runs
-- (main.py, `enqueue`) and cancels them; a scheduler inserts automatic runs (worker.py,
-- `enqueue_scheduled`); one worker claims the oldest queued run (job_queue.py, `claim_next_job`),
-- scans, with up to two threads that read pages (detail_workers.py), publishes a report on the way and
-- ends the run (worker.py). Users log in and administrators keep the accounts (auth.py, main.py). An
-- update of the application waits for the scans and takes a lock file (maintenance.py,
-- desktop_runtime.py), which the queue looks at. The tray pauses the schedulers
-- (desktop_scheduler.py); shutdown, sleep and restart interrupt runs (job_queue.py).
--
-- Base holds the shared names and list lemmas.
-- Store models the rows of the tables (models.py) and the JSON payload of a run.
-- Queue models job_queue.py and the endpoints `enqueue` and `cancel_scan` of main.py, one function
-- from the tables to the tables for each transaction: Queue/Rows the shared selections, Queue/Claim
-- `claim_next_job` and `heartbeat_job`, Queue/Stop recovery, shutdown, sleep and cancellation,
-- Queue/Detach the deletion of a project, Queue/Enqueue the insertion of a run. Queue/Invariant and
-- Queue/Counting hold the invariant of scan_runs, Queue/Selected the ids that are returned.
-- Scheduler models desktop_scheduler.py (Settings) and `enqueue_scheduled` (Poll); Branches, Due,
-- Owners and Tray prove what they do.
-- Worker models how `process_job` starts and checks a job (Lifecycle), publishes and ends it
-- (Outcomes), and what the end of a job does to its owner's scheduler (Rescheduling).
-- Report models reporting.py: the keys and contexts (Context), grouping, choice and order (Dedupe).
-- System puts the transactions together: an event for each (Events), and runs of events in any order.
-- Evolution says how a row of scan_runs may change, Conflicts which runs may not exist together;
-- Updates, Steps, Ends, Commits, Interrupts and Quiet go through the transactions, Exclusive,
-- Polling, Worker and Outcomes through the keys and the active runs, Disjoint through the additions of
-- runs, and Single, History and Stuck draw the conclusions.
-- Json models the JSON values of the columns and Python's dicts of them.
-- Tracking models services.py and the comparisons of parser.py that it uses: Tables the rows of cars,
-- project_cars, car_events, price_history and car_snapshots, Changes the comparisons, Details
-- `merge_reliable_detail`, Events and Upsert `upsert_detail` and `upsert_price_status`, Absence
-- `mark_absent` and `mark_found_without_detail`; Reliable, Stable, Prices, Ledger, Identity,
-- Counting, Missing and Availability prove their properties.
-- License models desktop_license.py: Lease the files, the lease and the trusted time, Entitlement
-- `evaluate_search_entitlement` and `require_search_entitlement`; Bound says what a lease is
-- that passes its check, Expiry and Search what is allowed. The check of a signature is a parameter.
-- Pool models detail_workers.py: Pool the state and the operations of the coordinator and of a thread,
-- Moves the steps of both, of the clock and of the reader in any order, with the history of what was
-- submitted, taken and read; Calls and Turns what the history says of the tasks and of the turns.
-- Order, Kept, Spacing, Shape, Staged, Stops and Live are invariants; Progress and Ending say that
-- the pool does not hang, Measure that it does not go on for ever.
-- Maintenance models maintenance.py: Maintenance the lock files over an association list of files,
-- Processes when a process is alive (what the operating system replies is a parameter) and the
-- clearing of stale locks, Update `prepare_desktop_update` of desktop_runtime.py. Files, Locks and
-- Stale prove what each operation does, Exclusive what any order of them does, and Update/Ready and
-- Update/Released what the preparation of an update does among the transactions of System.
-- Accounts models auth.py and the endpoints of main.py on accounts: Requests the session, the origin
-- and the CSRF token of a request, Users logins, passwords, profiles and registration, Admin what an
-- administrator may do. Steps puts the operations in any order; Changes says how an operation may
-- change the tables and what such changes keep, Effects, Admins and Entries that the operations change
-- them so, and Safety draws the conclusions. The hashes, the tokens, the check of a password and the
-- normalisation of names are parameters.
-- Tests holds samples, tests and the theorems at concrete inputs.
--
-- Timestamps are natural numbers of microseconds; `isoformat` is kept as that number. Statuses and
-- reasons are data types with the constants of the source. Texts that are compared are lists of code
-- points; Unicode's upper case and white space, which `str.upper` and `str.split` go by, are
-- parameters, and so is the SHA-256 of a fingerprint. JSON numbers are natural numbers.
-- A row is written back by its primary key. Each function is one transaction: what the database
-- isolates is not interleaved inside it. What the worker's session keeps over its commits is an
-- argument of its transactions: it writes back any payload, however old (System/Events). What a
-- transaction has read before it begins, whether the maintenance is active, is an argument too, which
-- Maintenance/Update takes from the files or from an earlier time. A lock file is created and written in one step. What a page
-- reader's call gives, a page, a failure or a block, is any. All loops are over lists; the only fuel is
-- that of
-- `decimal`, which prints a number n with n + 1 rounds, more than it has digits.
--
-- Not modelled: the browser, the network, rendering and packaging; the parsing of pages and the search
-- pagination; backup and restore; the license client; the row loop of a scan; the vehicle groups; the
-- endpoints on projects and cars; the audit log and the hashes of addresses in sessions; `updated_at` of
-- scan_runs; the images of a listing and the percentage of a price change.
pub mod Base
pub mod Store
pub mod Report
pub mod Json
pub mod License
pub mod Tracking
pub mod Queue
pub mod Scheduler
pub mod Worker
pub mod Pool
pub mod Maintenance
pub mod Accounts
pub mod System
mod Tests
