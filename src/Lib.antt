-- ===== src/Lib.antt =====
-- ssrfguard: a client-side guard that lets an HTTP client reach only permitted addresses. A URL is
-- checked by a policy before any lookup, its host is resolved once, every answer is checked, and
-- a socket is opened to a checked address and to nothing else.
--
-- Parts, and where they are modelled:
--   Base: Booleans, lists and text over the native numbers, `str` methods, results that raise.
--   Net: the addresses and networks of Python's `ipaddress`, with its parser in Net/Parse.
--   Registry: src/ssrfguard/_registry.py. `Reach`, `Block` and the rows of `TABLE` in its order.
--   Address: src/ssrfguard/_address.py. `AddressTable` with `post_init`, `match` and `classify`, the
--   embedded addresses of the translation prefixes, `DEFAULT_DENIED` as `default_denied`.
--   Errors: src/ssrfguard/errors.py. A refusal holds the values of its sentence.
--   Observer: src/ssrfguard/_observer.py. `Decision`, `redacted`, `report`, `RebindingWatch`; an
--   observer is what it does on each record, and the records are kept in a log.
--   Policy: src/ssrfguard/_policy.py. Config is `Policy.__post_init__`, Hosts the host patterns and
--   the two regular expressions, Addresses `check_address` and `check_host`, Url `check_url`.
--   Resolve: src/ssrfguard/_resolve.py. `resolve`, with its lookup as a parameter.
--   Connect: src/ssrfguard/_connect.py. `connect`, `_open` and `_verify_peer` as computations on a
--   world that holds the calls made on the operating system and the log of records.
--   Dns: src/ssrfguard/resolvers.py, its messages: `_encode_name`, `_decode_name`, `_parse` and
--   what they call.
--   Stub: src/ssrfguard/resolvers.py, `UdpResolver`: Config is its fields, `__post_init__` and
--   `nameservers_from_resolv_conf`, Exchange `_ask` over UDP and TCP, Lookup `_query`, `_lookup` and
--   `__call__`, as computations on the calls made so far on Network; Session is the order of the
--   calls as a step relation, and Logic the rules by which Runs, Waits, Asking, Played and
--   Orderly keep to it.
--   Client: src/ssrfguard/requests.py in Requests, src/ssrfguard/httpx.py in Httpx (the synchronous
--   backend), Failover (the asynchronous one), Pools (the transports, with the backends that their
--   pools take sockets from) and Options (the constructors of the clients); Headers and Redirects
--   hold what both do.
--   Refresh: scripts/refresh_registry.py, the generator of the table that Registry holds: Curated is
--   what it carries itself, Texts the string methods it calls, Defs `_verdict` and `_rows`, Emit
--   `_emit`; Tests/Generator compares what it adds with the end of the shipped table.
--   Tests: runs of the model, and the theorems at concrete inputs.
--
-- How they interact: `resolve` and `connect` both call the policy's `check_address`, which asks
-- `classify` of its table; `check_url` asks the same of a literal address; each reports what it
-- decided to the observer it is given. `connect` takes the addresses that `resolve` returns.
-- The adapters compose the three: `pinned_socket` and `connect_tcp` check, resolve and connect, and
-- turn what is raised into the errors of their libraries. `call` of `UdpResolver` gives the rows
-- that `resolve` reads.
--
-- Parameters: `urlsplit` and the `idna` codec (Policy/Platform); the lookup and the address families
-- (`Resolver`); the operating system's sockets (`Kernel`), the network, clock and transaction ids of
-- `UdpResolver` (`Network`, with the numbers of the socket module and `str` of an address), and the
-- streams of anyio (`Anyio`), which answer a call from all calls made before it, so that a theorem
-- holds of every run of them; the headers of the client libraries (`Headers`), the values of options
-- (`Values`), what the methods that a class overrides answer (`base`), and for the generator the CSV
-- reader, `ip_network`, the decimal digits, `repr` and `textwrap`.
--
-- Bounds and fuel: `_classify` recurses at most twice, so its recursion is on the hops left
-- (`max_translation_depth`). `decode_name` has fuel for one turn for each pointer (64), one for each
-- byte of a name (255) and one more. The wait for a datagram has fuel for one turn for each tick of
-- the attempt's timeout and one more, which is enough where a later reading of the clock is larger;
-- reading a count of bytes has a turn for each byte. `str` of a number has a turn for each unit of
-- the number. All other loops are over lists, or count down.
--
-- Not modelled: the texts of messages and of `repr`; `_as_networks`, whose parsing is the standard
-- library's; the arguments that the constructors of the adapters pass on unread and
-- `init_poolmanager`, which installs the table that is modelled; `sleep`; of the generator, fetching
-- the registries and writing the file; the other scripts. A read of bytes past the end of a message
-- gives 0 where the source would raise `struct.error` or `IndexError`: the reads stand after the
-- tests of length as in the source, but no theorem here says that a message raises neither. A number of seconds is a natural number,
-- of clock ticks where it is compared with the clock.
pub mod Base
pub mod Net
pub mod Registry
pub mod Refresh
pub mod Address
pub mod Errors
pub mod Observer
pub mod Policy
pub mod Resolve
pub mod Connect
pub mod Dns
pub mod Stub
pub mod Client
mod Tests
