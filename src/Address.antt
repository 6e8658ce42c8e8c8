-- ===== src/Address.antt =====
-- src/ssrfguard/_address.py: the address table, longest-prefix lookup and classification through
-- translation prefixes. `Defs` holds the definitions; `Index` is about construction, `Match` about
-- lookup, `Classify` about the verdicts of any table.
pub mod Defs
pub mod Index
pub mod Match
pub mod Classify
pub mod Default
pub mod Wrappers
