-- ===== src/Tests/Transports.antt =====
-- The transports of httpx.
use ssrfguard.Base.{ℕ, ◌≡◌, refl, ap, inr, [], none, some, pos, Result, ok, raise, codes}
use ssrfguard.Errors.{refused, proxy_unsupported, value_error}
use ssrfguard.Connect.Kernel.{SocketOption, with_value, an_int, World}
use ssrfguard.Policy.Url.{Target}
use ssrfguard.Policy.Accepted.{IsAccepted}
use ssrfguard.Client.Httpx.{BackendError, origin_target, connect_tcp}
use ssrfguard.Client.Pools.{
  TransportArgs, backend_of, async_backend_of, Transport, httpx_default_limits, pinning_pool,
  async_pinning_pool, new_transport, new_async_transport, handle_request,
}
use ssrfguard.Client.Pinned.{IsVetted}
use ssrfguard.Client.Opened.{IsOrigin}
use ssrfguard.Client.Transports.{IsGuarded, handle_request-IsGuarded, new_transport-IsVetted}
use ssrfguard.Tests.Data.{platform, policy, resolver, url, calm_kernel, start}
use ssrfguard.Tests.Sockets.{backend, async_backend, dial, opens}

abbrev args : TransportArgs
args = record {
  policy = policy;
  resolver = resolver;
  observer = none;
  limits = none;
  slots = none;
  proxy = none;
  uds = none;
}

abbrev nodelay : SocketOption
nodelay = with_value 6 1 (an_int 1)

abbrev async_transport : Transport
async_transport = record {
  policy = policy;
  observer = none;
  pool = async_pinning_pool (async_backend_of async_backend.net args) httpx_default_limits 100;
}

makes_async : new_async_transport async_backend.net args (ok tt) ≡ ok async_transport
unfolding new_async_transport ssrfguard.Client.Pools.new_async_backend
    ssrfguard.Client.Pools.resolver_slots_for
makes_async = refl

abbrev sync_transport : Transport
sync_transport = record {
  policy = policy;
  observer = none;
  pool = pinning_pool (backend_of calm_kernel nodelay args) httpx_default_limits;
}

makes_sync : new_transport calm_kernel nodelay args (ok tt) ≡ ok sync_transport
unfolding new_transport
makes_sync = refl

refuses_proxy :
    new_transport calm_kernel nodelay
      (record args { proxy = some (codes "http://p.example") })
      (ok tt)
    ≡ raise (refused (proxy_unsupported (codes "http://p.example")))
unfolding new_transport
refuses_proxy = refl

-- A pool of no slots would never look anything up.
refuses_no_slots :
    new_async_transport async_backend.net (record args { slots = some (pos 0) }) (ok tt)
    ≡ raise value_error
unfolding new_async_transport ssrfguard.Client.Pools.new_async_backend
    ssrfguard.Client.Pools.resolver_slots_for
refuses_no_slots = refl

sends : (handle_request {R = ℕ} platform async_transport url (ok 200) []).0 ≡ ok 200
unfolding handle_request ssrfguard.Policy.Url.check_url ssrfguard.Policy.Url.decide
    ssrfguard.Policy.Url.reject_overlong ssrfguard.Policy.Url.reject_control_characters
    ssrfguard.Policy.Url.split ssrfguard.Policy.Url.check_scheme ssrfguard.Policy.Url.check_userinfo
    ssrfguard.Policy.Url.check_host_of ssrfguard.Policy.Hosts.reject_overlong_host
    ssrfguard.Policy.Hosts.normalise ssrfguard.Policy.Url.check_host_shape
    ssrfguard.Policy.Hosts.numeric_shaped ssrfguard.Policy.Hosts.well_formed_hostname
    ssrfguard.Policy.Url.check_port ssrfguard.Policy.Url.check_listed
    ssrfguard.Policy.Url.check_literal
sends = refl

handle_request-IsGuarded_example :
    IsGuarded args async_transport × ((target : Target) × IsAccepted platform policy url target)
handle_request-IsGuarded_example =
    handle_request-IsGuarded platform calm_kernel nodelay async_backend.net args (ok tt)
      async_transport url (ok 200) [] 200 (inr makes_async) sends

abbrev dialled : Result BackendError ℕ × World
dialled = connect_tcp backend (codes "a.example") 443 dial start

new_transport-IsVetted_example :
    IsOrigin policy (codes "a.example") 443
    × IsVetted calm_kernel policy resolver
        (origin_target (codes "a.example") 443)
        start.trace
        dialled.1.trace
        7
new_transport-IsVetted_example =
    new_transport-IsVetted calm_kernel nodelay args (ok tt) sync_transport (codes "a.example") 443
      dial start dialled.1 7 makes_sync (ap (λ x. some (x, dialled.1)) opens)
