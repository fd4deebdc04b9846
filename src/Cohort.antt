-- ===== src/Cohort.antt =====
-- The watch cohort of artists: server/workers/cohort.py, which derives it from the signals in the
-- database, and server/api/services/cohort_service.py, through which an admin overrides it.
pub mod Rows
pub mod Tier
pub mod Signals
pub mod Recompute
pub mod Service
pub mod Due
mod Tests
