-- ===== src/Store.antt =====
-- internal/store: the log store and its in-memory history.
pub mod History
pub mod Message
pub mod Incident
pub mod SetIncident
pub mod Report
pub mod Restore
pub mod Errors
pub mod Path
pub mod Search
pub mod Scanner
pub mod View
