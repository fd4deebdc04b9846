-- ===== src/Sets.antt =====
-- The matching of DJ sets: server/api/services/set_dedup_service.py, which decides whether two
-- sets are one recording and merges the tracks of those that are.
pub mod Ratio
pub mod Verdict
pub mod Levenshtein
pub mod Titles
pub mod Signals
pub mod Confidence
mod Tests
