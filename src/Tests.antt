-- ===== src/Tests.antt =====
-- The theorems of the scan queue, the reports and the system at concrete tables.
mod Samples
mod PoolTests
mod MaintenanceTests
mod QueueTests
mod StopTests
mod SchedulerTests
mod SystemTests
mod TrackingTests
mod LicenseTests
mod ReportTests
mod AccountsTests
