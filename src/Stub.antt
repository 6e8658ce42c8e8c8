-- ===== src/Stub.antt =====
-- `UdpResolver` of src/ssrfguard/resolvers.py. `Network` is what it calls, `Config` its fields and what
-- it reads of a host, `Exchange` one question to one server, `Lookup` a call of it. `Ready` is about
-- its construction, `Answered`, `Queried` and `Complete` about what it
-- returns, `Rows` about what `resolve` reads
-- of that. `Session` is the order of its calls, `Logic` the rules to reason by, and `Runs`, `Waits`,
-- `Asking`, `Played` and `Orderly` keep to that order, from the reads of a socket to a whole lookup.
pub mod Network
pub mod Config
pub mod Exchange
pub mod Lookup
pub mod Answered
pub mod Queried
pub mod Complete
pub mod Logic
pub mod Session
pub mod Runs
pub mod Waits
pub mod Asking
pub mod Played
pub mod Orderly
pub mod Rows
pub mod Ready
