-- ===== src/Client/Pools.antt =====
-- The transports of src/ssrfguard/httpx.py: their guards, the pools that they build, and the check of a
-- request.
use ssrfguard.Base.{
  ℕ, not, Option, none, some, Text, ℤ, pos, is_below, to_ℕ, Result, ok, raise, ◌>>=◌, ◌>>◌,
  if◌then◌else◌,
}
use ssrfguard.Errors.{
  Exception, refused, value_error, blocked_url, verbatim, unix_socket, proxy_unsupported,
}
use ssrfguard.Observer.Report.{Observer, Log}
use ssrfguard.Policy.Platform.{Platform}
use ssrfguard.Policy.Config.{Policy}
use ssrfguard.Policy.Url.{check_url}
use ssrfguard.Resolve.Defs.{Resolver}
use ssrfguard.Connect.Kernel.{SocketOption, Kernel}
use ssrfguard.Client.Httpx.{Backend}
use ssrfguard.Client.Failover.{Anyio, AsyncBackend}

-- `httpx.Limits`
pub record Limits : Type 0 where
  pub max_connections : Option ℕ
  pub max_keepalive_connections : Option ℕ
  pub keepalive_expiry : Option ℕ

abbrev pub httpx_default_limits : Limits
httpx_default_limits = record {
  max_connections = some 100;
  max_keepalive_connections = some 20;
  keepalive_expiry = some 5;
}

abbrev pub limits_or_default : Option Limits → Limits
limits_or_default none = httpx_default_limits
limits_or_default (some limits) = limits

-- Where a transport sends: to the pool of httpx for its proxy, or to a pool that pins.
pub data Pool : Type 0 where
  proxy_pool : Text → Pool
  pinning_pool : Backend → Limits → Pool
  async_pinning_pool : AsyncBackend → Limits → ℕ → Pool

-- The keyword arguments of a transport that decide where it sends; the slots are of the asynchronous one.
pub record TransportArgs : Type 0 where
  pub policy : Policy
  pub resolver : Resolver
  pub observer : Option Observer
  pub limits : Option Limits
  pub slots : Option ℤ
  pub proxy : Option Text
  pub uds : Option Text

pub record Transport : Type 0 where
  pub policy : Policy
  pub observer : Option Observer
  pub pool : Pool

-- The two tests that both constructors make first.
abbrev pub refuse_route : Policy → Option Text → Option Text → Result Exception (Unit {0})
refuse_route p (some path) proxy = raise (refused (blocked_url (verbatim path) unix_socket))
refuse_route p none (some url) =
    if not p.allow_proxy then raise (refused (proxy_unsupported url)) else ok tt
refuse_route p none none = ok tt

-- `SafeBackend(policy=policy, resolver=resolver, observer=observer)`, and its asynchronous twin
abbrev pub backend_of : Kernel → SocketOption → TransportArgs → Backend
backend_of k nodelay a = record {
  kernel = k;
  policy = a.policy;
  resolver = a.resolver;
  observer = a.observer;
  nodelay = nodelay;
}

abbrev pub async_backend_of : Anyio → TransportArgs → AsyncBackend
async_backend_of net a = record {
  net = net;
  policy = a.policy;
  resolver = a.resolver;
  observer = a.observer;
}

-- `SafeTransport.__init__`, where `base` is what `create_ssl_context` and the constructor of httpx do
unfoldable pub new_transport :
    Kernel → SocketOption → TransportArgs → Result Exception (Unit {0}) → Result Exception Transport
new_transport k nodelay a base = do
  refuse_route a.policy a.uds a.proxy
  base
  ok (record {
    policy = a.policy;
    observer = a.observer;
    pool = elim a.proxy [
      | none ↦ pinning_pool (backend_of k nodelay a) (limits_or_default a.limits)
      | some url ↦ proxy_pool url
    ];
  })

abbrev pub resolver_slots : ℕ
resolver_slots = 100

-- `_resolver_slots_for`
unfoldable pub resolver_slots_for : Limits → Option ℤ → ℤ
resolver_slots_for limits (some requested) = requested
resolver_slots_for limits none = elim limits.max_connections [
  | none ↦ pos resolver_slots
  | some n ↦ pos n
]

-- `AsyncSafeBackend.__init__`, for the number of its slots
unfoldable pub new_async_backend : ℤ → Result Exception ℕ
new_async_backend slots = if is_below slots 1 then raise value_error else ok (to_ℕ slots)

-- The end of `AsyncSafeTransport.__init__`.
abbrev pub async_pool : AsyncBackend → TransportArgs → Option Text → Result Exception Pool
async_pool b a (some url) = ok (proxy_pool url)
async_pool b a none =
    let chosen = limits_or_default a.limits in
    new_async_backend (resolver_slots_for chosen a.slots) >>= λ n.
    ok (async_pinning_pool b chosen n)

-- `AsyncSafeTransport.__init__`
unfoldable pub new_async_transport :
    Anyio → TransportArgs → Result Exception (Unit {0}) → Result Exception Transport
new_async_transport net a base = do
  refuse_route a.policy a.uds a.proxy
  base
  pool ← async_pool (async_backend_of net a) a a.proxy
  ok (record { policy = a.policy; observer = a.observer; pool = pool })

-- `handle_request` and `handle_async_request`, where `base` is what the method of httpx answers
unfoldable pub handle_request {ℓ} :
    {R : Type ℓ} → Platform → Transport → Text → Result Exception R → Log → Result Exception R × Log
handle_request py t url base log =
    let (result, log') = check_url py t.policy url t.observer log in
    (elim result [ ok _ ↦ base | raise e ↦ raise e ], log')
