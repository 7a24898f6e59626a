-- ===== src/Jobs/System.antt =====
-- The queue as a system of processes over the shared table: workers claim, renew, mark and release,
-- producers insert pending rows, and one reclaimer selects stale rows and then resets them one
-- transaction at a time, so that the others run between its steps (shared/utils/leases.py, and the
-- loop of services/panoptic_reclaimer/worker.py).
pub mod Snapshot
pub mod Steps
pub mod Resets
pub mod Safety
pub mod Exclusive
