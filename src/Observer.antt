-- ===== src/Observer.antt =====
-- src/ssrfguard/_observer.py: decision records, redaction and what it hides, reporting, and the
-- rebinding watch with what it keeps.
pub mod Decision
pub mod Redact
pub mod Hidden
pub mod Report
pub mod Watch
pub mod Sightings
