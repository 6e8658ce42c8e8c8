-- ===== src/Refresh.antt =====
-- The generator of the address table, scripts/refresh_registry.py: `Curated` the rows that it carries
-- itself, `Texts` the string operations, `Defs` the transcription, `Emit` its rendering. `Verdicts` and
-- `Transcribed` are about the transcription.
pub mod Texts
pub mod Curated
pub mod Defs
pub mod Emit
pub mod Verdicts
pub mod Transcribed
