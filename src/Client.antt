-- ===== src/Client.antt =====
-- The clients: src/ssrfguard/requests.py in `Requests`, src/ssrfguard/httpx.py in `Httpx`, `Failover`, `Pools`
-- and `Options`. `Headers` and `Redirects` hold what both do. `Stripped` and `Capped` are about the headers
-- and the redirect cap, `Pinned`, `Opened` and `Reached` about the sockets and streams that are opened,
-- `Agreed` about the failures of the two backends, `Routed` about the options, `Transports` about the
-- transports.
pub mod Headers
pub mod Stripped
pub mod Redirects
pub mod Requests
pub mod Httpx
pub mod Options
pub mod Failover
pub mod Pools
pub mod Capped
pub mod Pinned
pub mod Opened
pub mod Reached
pub mod Routed
pub mod Transports
pub mod Agreed
