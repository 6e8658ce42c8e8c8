-- ===== src/Client/Httpx.antt =====
-- The seam and the transports of src/ssrfguard/httpx.py. What they call of `httpx` and `httpcore` is a
-- parameter.
use ssrfguard.Base.{
  ℕ, ◌==◌, List, [], ◌∷◌, ◌++◌, Option, none, some, codes, Text, any, Result, ok, raise, ◌>>◌,
  if◌then◌else◌,
}
use ssrfguard.Errors.{
  Exception, refused, value_error, type_error, gaierror, timeout_error, os_error, torn_down,
  Refusal, blocked_url, verbatim, port_not_allowed, unix_socket,
}
use ssrfguard.Observer.Report.{Observer}
use ssrfguard.Policy.Config.{Policy}
use ssrfguard.Policy.Hosts.{literal_address}
use ssrfguard.Policy.Addresses.{check_host}
use ssrfguard.Policy.Url.{Target}
use ssrfguard.Resolve.Defs.{Address, Resolver, resolve}
use ssrfguard.Connect.Kernel.{SocketOption, Kernel, World}
use ssrfguard.Connect.Defs.{
  Settings, Exhausted, Failure, raised, timed_out, unreachable, connect, options_of,
}
use ssrfguard.Client.Requests.{decimal_of}

abbrev pub tcp : Text
tcp = codes "tcp"

-- `_origin_target`
unfoldable pub origin_target : Text → ℕ → Target
origin_target host port = record {
  scheme = tcp;
  host = host;
  port = port;
  host_as_written = host;
  address = literal_address host;
}

-- `_check_port`
unfoldable pub check_backend_port : Policy → ℕ → Result Refusal (Unit {0})
check_backend_port p port =
    if any (λ q. q == port) p.allowed_ports
    then ok tt
    else raise
        (blocked_url (verbatim (tcp ++ (codes "://" ++ decimal_of port))) (port_not_allowed port))

-- `_check_origin`
unfoldable pub check_origin : Policy → Text → ℕ → Result Refusal (Unit {0})
check_origin p host port = check_backend_port p port >> check_host p host

-- What a backend raises: an exception passed on, or one of the two of httpcore.
pub data BackendError : Type 0 where
  passed : Exception → BackendError
  connect_timeout connect_error : Option Exhausted → BackendError

-- The `except` clauses of `SafeBackend.connect_tcp`.
abbrev pub httpcore_error : Exception → BackendError
httpcore_error timeout_error = connect_timeout none
httpcore_error gaierror = connect_error none
httpcore_error os_error = connect_error none
httpcore_error (refused r) = passed (refused r)
httpcore_error value_error = passed value_error
httpcore_error type_error = passed type_error
httpcore_error torn_down = passed torn_down

abbrev pub httpcore_failure : Failure → BackendError
httpcore_failure (raised e) = httpcore_error e
httpcore_failure (timed_out message) = connect_timeout (some message)
httpcore_failure (unreachable message) = connect_error (some message)

-- `SafeBackend`; `nodelay` is the option that is added to the caller's.
pub record Backend : Type 0 where
  pub kernel : Kernel
  pub policy : Policy
  pub resolver : Resolver
  pub observer : Option Observer
  pub nodelay : SocketOption

-- The arguments of `connect_tcp` but the host and the port.
pub record Dial : Type 0 where
  pub timeout : Option ℕ
  pub local_address : Option Text
  pub socket_options : Option (List SocketOption)

abbrev pub source_of : Option Text → Option (Text × ℕ)
source_of none = none
source_of (some address) = some (address, 0)

abbrev pub dial_settings : Backend → Dial → Settings
dial_settings b d = record {
  timeout = d.timeout;
  source_address = source_of d.local_address;
  socket_options = some (options_of d.socket_options ++ b.nodelay ∷ []);
  observer = b.observer;
}

-- `SafeBackend.connect_tcp` from the addresses on.
unfoldable pub connect_found : Backend → Dial → List Address → World → Result BackendError ℕ × World
connect_found b d addresses w =
    let (result, w') = connect b.kernel b.policy (dial_settings b d) addresses w in
    (elim result [ ok sock ↦ ok sock | raise f ↦ raise (httpcore_failure f) ], w')

-- `SafeBackend.connect_tcp` from the target on.
unfoldable pub resolve_found : Backend → Dial → Target → World → Result BackendError ℕ × World
resolve_found b d t w =
    let (result, log) = resolve b.resolver b.policy t b.observer w.log in
    let w' = record w { log = log } in
    elim result [
      | raise e ↦ (raise (httpcore_error e), w')
      | ok addresses ↦ connect_found b d addresses w'
    ]

-- `SafeBackend.connect_tcp`
unfoldable pub connect_tcp : Backend → Text → ℕ → Dial → World → Result BackendError ℕ × World
connect_tcp b host port d w = elim (check_origin b.policy host port) [
  | raise r ↦ (raise (passed (refused r)), w)
  | ok _ ↦ resolve_found b d (origin_target host port) w
]

-- `connect_unix_socket` of both backends
unfoldable pub connect_unix_socket : Text → Exception
connect_unix_socket path = refused (blocked_url (verbatim path) unix_socket)
