-- ===== src/Policy.antt =====
-- src/ssrfguard/_policy.py: everything decidable about a URL without touching the network.
-- `Platform` holds what the standard library answers, `Hosts` the host patterns, `Config` the
-- construction of a policy, `Addresses` and `Url` its checks. The other modules are about these:
-- `Literal` and `Listing` about hosts, `Valid` about construction, `Accepted` and `Reporting` about URLs.
pub mod Platform
pub mod Hosts
pub mod Config
pub mod Addresses
pub mod Url
pub mod Literal
pub mod Accepted
pub mod Reporting
pub mod Listing
pub mod Valid
