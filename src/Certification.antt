-- ===== src/Certification.antt =====
-- scripts/certification_tasks.py and scripts/certification_jobs.py: the tasks of a certification
-- run, their receipts, and the lanes that admit and account for them.
pub mod Receipts
pub mod Accounting
pub mod Admission
pub mod Lanes
pub mod Keys
pub mod Admitted
pub mod Recovering
pub mod Spending
pub mod Histories
pub mod Overrun
mod Examples
