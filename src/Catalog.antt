-- ===== src/Catalog.antt =====
-- The shared catalog: its rows, the choice of the row to keep among duplicates, and the merge that
-- folds a duplicate into it (server/workers/catalog_merge.py and catalog_dedup.py, over
-- server/api/models).
pub mod Rows
pub mod Canonical
pub mod Repoint
pub mod Keys
pub mod Absorb
pub mod Merge
pub mod Dedup
