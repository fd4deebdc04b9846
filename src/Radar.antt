-- ===== src/Radar.antt =====
-- The radar of playlists: when server/workers/tasks/radar.py crawls one, and how
-- server/workers/db.py turns a crawl into the tracks that were added and removed.
pub mod Cadence
pub mod Batch
pub mod Diff
mod Tests
