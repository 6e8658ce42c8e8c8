-- ===== src/Resolve.antt =====
-- src/ssrfguard/_resolve.py: one lookup, every answer validated. `Defs` holds the definitions,
-- `Answers` is about the distinct answers, `Sifting` about the loop over them, `Validated` about
-- what `resolve` returns, `Reports` about what it reports.
pub mod Defs
pub mod Answers
pub mod Sifting
pub mod Validated
pub mod Reports
