-- ===== src/Tests.antt =====
-- Runs of the model at concrete inputs, and the theorems applied to them.
mod Data
mod Tables
mod Generator
mod Urls
mod Policies
mod Watching
mod Lookups
mod Resolving
mod Clients
mod Sockets
mod Transports
mod Messages
