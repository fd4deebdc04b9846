-- ===== src/Families.antt =====
-- Sets that are the same performance, or parts of one, under one virtual parent: the second half of
-- server/api/services/set_dedup_service.py, which merges the tracklists of the children, attaches
-- and detaches them, and keeps the flags that an admin resolves.
pub mod Rows
pub mod Results
pub mod Duplicates
pub mod Parts
pub mod Metadata
pub mod Parents
pub mod Flags
pub mod Forest
pub mod Tests
