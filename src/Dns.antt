-- ===== src/Dns.antt =====
-- The messages of src/ssrfguard/resolvers.py. `Names` encodes and decodes a domain name, `Bounded`
-- is about the decoding of any bytes, `Trip` about a name that was encoded; `Reply` reads a
-- response, `Supplied` and `Accepted` are about the records that it takes, `Total` about its end.
pub mod Names
pub mod Bounded
pub mod Trip
pub mod Reply
pub mod Supplied
pub mod Accepted
pub mod Total
