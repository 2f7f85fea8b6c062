-- ===== src/Scheme.antt =====
-- internal/scheme: the targets that a probe reports, and sets of URLs.
pub mod Tracker
pub mod UrlSet
pub mod Search
