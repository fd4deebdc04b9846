-- ===== src/Twins.antt =====
-- Twin sets: a YouTube set without a tracklist and another set that may be the same performance
-- (server/api/services/set_twin_rules.py and set_twin_service.py).
pub mod Dates
pub mod Words
pub mod Rules
pub mod Choice
pub mod Urls
pub mod Search
pub mod Reconcile
pub mod Tests
