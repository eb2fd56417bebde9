-- ===== src/Report.antt =====
-- backend/app/reporting.py: a report holds every changed vehicle once.
pub mod Context
pub mod Dedupe
pub mod Groups
pub mod Sort
pub mod Once
