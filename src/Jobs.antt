-- ===== src/Jobs.antt =====
-- The job queue: the table panoptic_jobs and the lease operations on it (shared/utils/leases.py),
-- the reclaimer, and what holds of the table under them.
pub mod Model
pub mod Lease
pub mod Table
pub mod Reclaim
pub mod Invariant
pub mod System
pub mod Ownership
pub mod Backoff
pub mod Race
pub mod Sweep
pub mod Accounts
pub mod Orphans
