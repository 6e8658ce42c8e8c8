-- ===== src/Client/Requests.antt =====
-- src/ssrfguard/requests.py. What it calls of `requests` and `urllib3` is a parameter.
use ssrfguard.Base.{
  length, ℕ, zero, suc, ◌+◌, ◌/◌, ◌%◌, ltb, Bool, not, List, [], ◌∷◌, ◌++◌, Option, none, some,
  codes, Text, has_char, Result, ok, raise, if◌then◌else◌,
}
use ssrfguard.Errors.{
  Exception, refused, value_error, type_error, gaierror, timeout_error, os_error, torn_down,
  proxy_unsupported,
}
use ssrfguard.Observer.Report.{Observer, Log}
use ssrfguard.Policy.Platform.{Platform}
use ssrfguard.Policy.Config.{Policy}
use ssrfguard.Policy.Url.{Target, check_url}
use ssrfguard.Resolve.Defs.{Address, Resolver, resolve}
use ssrfguard.Connect.Kernel.{SocketOption, Kernel, World}
use ssrfguard.Connect.Defs.{Settings, Exhausted, Failure, raised, timed_out, unreachable, connect}
use ssrfguard.Client.Headers.{Headers, strip}
use ssrfguard.Client.Redirects.{refuse_chain}

-- `str` of a number
unfoldable pub digits : ℕ → ℕ → Text
digits zero n = []
digits (suc fuel) n =
    let rest = digits fuel (n / 10) in
    if ltb n 10 then (b'0' + n) ∷ [] else rest ++ (b'0' + n % 10) ∷ []

abbrev pub decimal_of : ℕ → Text
decimal_of n = digits (suc n) n

-- `_origin`
unfoldable pub origin : Text → Text → ℕ → Text
origin scheme host port =
    let literal = if has_char b':' host then codes "[" ++ (host ++ codes "]") else host in
    scheme ++ (codes "://" ++ (literal ++ (codes ":" ++ (decimal_of port ++ codes "/"))))

-- What `_pinned_socket` reads of a connection.
pub record Connection : Type 0 where
  pub host : Text
  pub port : ℕ
  pub dns_host : Text
  pub tunnel_host : Option Text
  pub timeout : Option ℕ
  pub source_address : Option (Text × ℕ)
  pub socket_options : Option (List SocketOption)

-- What `_pinned_socket` raises: an exception passed on, or one of the three of urllib3.
pub data PinError : Type 0 where
  passed : Exception → PinError
  name_resolution connect_timeout : PinError
  new_connection : Option Exhausted → PinError

-- The `except` clauses, on what `resolve` or `connect` raised.
abbrev pub urllib3_error : Exception → PinError
urllib3_error gaierror = name_resolution
urllib3_error timeout_error = connect_timeout
urllib3_error os_error = new_connection none
urllib3_error (refused r) = passed (refused r)
urllib3_error value_error = passed value_error
urllib3_error type_error = passed type_error
urllib3_error torn_down = passed torn_down

abbrev pub urllib3_failure : Failure → PinError
urllib3_failure (raised e) = urllib3_error e
urllib3_failure (timed_out _) = connect_timeout
urllib3_failure (unreachable message) = new_connection (some message)

-- What stays the same for every connection of an adapter; `audit` is `sys.audit` of a host and port.
pub record Adapter : Type 0 where
  pub platform : Platform
  pub kernel : Kernel
  pub audit : Text → ℕ → Result Exception (Unit {0})
  pub policy : Policy
  pub resolver : Resolver
  pub observer : Option Observer

abbrev pub settings_of : Adapter → Connection → Settings
settings_of a c = record {
  timeout = c.timeout;
  source_address = c.source_address;
  socket_options = c.socket_options;
  observer = a.observer;
}

abbrev pub audited : Adapter → Connection → ℕ → Result PinError ℕ
audited a c sock = elim (a.audit c.host c.port) [ ok _ ↦ ok sock | raise e ↦ raise (passed e) ]

-- `_pinned_socket` from the addresses on.
unfoldable pub connect_pinned :
    Adapter → Connection → List Address → World → Result PinError ℕ × World
connect_pinned a c addresses w =
    let (result, w') = connect a.kernel a.policy (settings_of a c) addresses w in
    (elim result [ ok sock ↦ audited a c sock | raise f ↦ raise (urllib3_failure f) ], w')

-- `_pinned_socket` from the target on.
unfoldable pub resolve_pinned : Adapter → Connection → Target → World → Result PinError ℕ × World
resolve_pinned a c t w =
    let (result, log) = resolve a.resolver a.policy t a.observer w.log in
    let w' = record w { log = log } in
    elim result [
      | raise e ↦ (raise (urllib3_error e), w')
      | ok addresses ↦ connect_pinned a c addresses w'
    ]

-- `_pinned_socket`
unfoldable pub pinned_socket : Adapter → Text → Connection → World → Result PinError ℕ × World
pinned_socket a scheme c w = elim c.tunnel_host [
  | some _ ↦
      (raise (passed (refused (proxy_unsupported (c.host ++ (codes ":" ++ decimal_of c.port))))), w)
  | none ↦
      let (result, log) =
        check_url a.platform a.policy (origin scheme c.dns_host c.port) a.observer w.log in
      let w' = record w { log = log } in
      elim result [ raise e ↦ (raise (passed e), w') | ok t ↦ resolve_pinned a c t w' ]
]

-- What opens the socket of a connection of one pool class: its `_new_conn`.
abbrev pub NewConn : Type 0
NewConn = Connection → World → Result PinError ℕ × World

-- `_pool_classes`: the table of an adapter, from a scheme to the `_new_conn` of its connections
abbrev pub pool_classes : Adapter → List (Text × NewConn)
pool_classes a =
    (codes "http", pinned_socket a (codes "http"))
    ∷ ((codes "https", pinned_socket a (codes "https")) ∷ [])

-- `SafeAdapter.send`, where `proxy` is what `select_proxy` answered and `base` what
-- `HTTPAdapter.send` would do; an empty text is no proxy.
unfoldable pub send {ℓ} :
    {R : Type ℓ} → Policy → Option Text → Result Exception R → Result Exception R
send p none base = base
send p (some []) base = base
send p (some (c ∷ cs)) base =
    if not p.allow_proxy then raise (refused (proxy_unsupported (c ∷ cs))) else base

-- `Session.get_adapter`, where `base` is what the method of `requests` answers
unfoldable pub get_adapter {ℓ} :
    {R : Type ℓ} → Adapter → Text → Result Exception R → Log → Result Exception R × Log
get_adapter a url base log =
    let (result, log') = check_url a.platform a.policy url a.observer log in
    (elim result [ ok _ ↦ base | raise e ↦ raise e ], log')

-- How the generator of `requests` ends: with the URLs of the chain, if it names the response,
-- where the chain is too long for the limit it was given.
pub data ChainEnd : Type 0 where
  finished : ChainEnd
  too_long : Option (List Text) → ChainEnd
  broken_by : Exception → ChainEnd

-- What a session keeps: the attribute that anyone may assign, and the policy.
pub record Session : Type 0 where
  pub max_redirects : ℕ
  pub policy : Policy
  pub observer : Option Observer

-- `Session.__init__`, for what the session keeps
abbrev pub new_session : Policy → Option Observer → Session
new_session p observer = record { max_redirects = p.max_redirects; policy = p; observer = observer }

abbrev pub chain_of : Option (List Text) → List Text
chain_of none = []
chain_of (some urls) = urls

unfoldable pub end_chain : Session → ChainEnd → Log → Result Exception (Unit {0}) × Log
end_chain s finished log = (ok tt, log)
end_chain s (broken_by e) log = (raise e, log)
end_chain s (too_long walked) log = refuse_chain s.policy (chain_of walked) s.observer log

-- What a walk gave: the responses it yielded, and how it ended.
pub record Walked {ℓ} (R : Type ℓ) : Type ℓ where
  pub yielded : List R
  pub ended : Result Exception (Unit {0})
  pub session : Session
  pub log : Log

-- What the attribute holds at each hop of a walk, which `requests` reads anew: the limit it starts with,
-- until an assignment after the response of a hop.
abbrev pub limit_at : ℕ → (ℕ → Option ℕ) → ℕ → ℕ
limit_at limit assigned zero = limit
limit_at limit assigned (suc n) = elim (assigned n) [
  | none ↦ limit_at limit assigned n
  | some m ↦ m
]

-- `Session.resolve_redirects`, where `base` is what the generator of `requests` gives for the limits that
-- it reads, and `assigned` what is assigned to the attribute while the walk waits after a response
unfoldable pub resolve_redirects {ℓ} :
    {R : Type ℓ} → ((ℕ → ℕ) → List R × ChainEnd) → Session → (ℕ → Option ℕ) → Log → Walked R
resolve_redirects base s assigned log =
    let limits = limit_at s.policy.max_redirects assigned in
    let (hops, ending) = base limits in
    let (ended, log') = end_chain s ending log in
    record {
      yielded = hops;
      ended = ended;
      session = record s { max_redirects = limits (length hops) };
      log = log';
    }

-- `Session.rebuild_auth`, where `rebuilt` is what the method of `requests` leaves and
-- `leaves_origin` what its `should_strip_auth` answers
unfoldable pub rebuild_auth : (H : Headers) → Policy → Bool → H.Store → H.Store
rebuild_auth H p leaves_origin rebuilt =
    if not leaves_origin then rebuilt else strip H p.sensitive_headers rebuilt
