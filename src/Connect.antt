-- ===== src/Connect.antt =====
-- src/ssrfguard/_connect.py: connecting to a validated address. `Kernel` is the interface to the
-- operating system's sockets, `Defs` holds the definitions, `Traces` is about the calls of one
-- attempt, `Attempts` about the failover loop, `Sockets` about what its calls add up to, `Peer` about the
-- peer check, `Told` about what the failover ends with, `Outcome` about `connect`.
pub mod Kernel
pub mod Defs
pub mod Traces
pub mod Attempts
pub mod Sockets
pub mod Peer
pub mod Told
pub mod Outcome
