-- ===== src/Registry.antt =====
-- src/ssrfguard/_registry.py: what the table says about a block, and the shipped table.
pub mod Defs
pub mod Table
