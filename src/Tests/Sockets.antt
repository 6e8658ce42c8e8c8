-- ===== src/Tests/Sockets.antt =====
-- The sockets and streams that the clients open.
use ssrfguard.Base.{
  ℕ, zero, suc, ◌+◌, ◌-◌, ◌≤◌, ◌≡◌, ◌≢◌, refl, Bool, true, false, not, List, [], ◌++◌, Option, none,
  some, codes, Text, text_eq, lower, length, keep, map, Among, All-of_Among, text_eq_refl, ap, inl,
  inr, Result, ok, raise, arith,
}
use ssrfguard.Errors.{timeout_error}
use ssrfguard.Resolve.Defs.{Address}
use ssrfguard.Connect.Kernel.{with_value, an_int}
use ssrfguard.Connect.Defs.{open_to}
use ssrfguard.Client.Requests.{
  rebuild_auth, Connection, Adapter, pinned_socket, origin, ChainEnd, too_long, chain_of, Session,
  resolve_redirects,
}
use ssrfguard.Client.Pinned.{IsVetted, pool_classes-IsVetted}
use ssrfguard.Client.Httpx.{Backend, Dial, origin_target, connect_found, connect_tcp}
use ssrfguard.Client.Failover.{
  Step, reaching, Anyio, AsyncWorld, AsyncBackend, reach_found, async_connect_tcp,
}
use ssrfguard.Client.Opened.{IsOrigin, connect_tcp-IsVetted}
use ssrfguard.Client.Reached.{IsReachedFor, async_connect_tcp-IsReachedFor}
use ssrfguard.Policy.Accepted.{IsAccepted}
use ssrfguard.Policy.Url.{Target}
use ssrfguard.Tests.Data.{policy, platform, resolver, noisy, calm_kernel, slow_kernel, start}

abbrev adapter : Adapter
adapter = record {
  platform = platform;
  kernel = calm_kernel;
  audit = λ _ _. ok tt;
  policy = policy;
  resolver = resolver;
  observer = some noisy;
}

abbrev connection : Connection
connection = record {
  host = codes "a.example";
  port = 443;
  dns_host = codes "a.example";
  tunnel_host = none;
  timeout = some 3;
  source_address = none;
  socket_options = none;
}

pins : (pinned_socket adapter (codes "https") connection start).0 ≡ ok 7
unfolding pinned_socket ssrfguard.Policy.Url.check_url ssrfguard.Policy.Url.decide
    ssrfguard.Policy.Url.reject_overlong origin ssrfguard.Client.Requests.digits
    ssrfguard.Policy.Url.reject_control_characters ssrfguard.Policy.Url.split
    ssrfguard.Policy.Url.check_scheme ssrfguard.Policy.Url.check_userinfo
    ssrfguard.Policy.Url.check_host_of ssrfguard.Policy.Hosts.reject_overlong_host
    ssrfguard.Policy.Hosts.normalise ssrfguard.Policy.Url.check_host_shape
    ssrfguard.Policy.Hosts.numeric_shaped ssrfguard.Policy.Hosts.well_formed_hostname
    ssrfguard.Policy.Url.check_port ssrfguard.Address.Defs.check_inner
    ssrfguard.Address.Defs.classify ssrfguard.Address.Defs.classify_from
    ssrfguard.Address.Defs.classify_step ssrfguard.Address.Defs.classify_translated
    ssrfguard.Address.Defs.embedded_v4 ssrfguard.Address.Defs.first_containing
    ssrfguard.Address.Defs.match ssrfguard.Address.Defs.raise_if_blocked
    ssrfguard.Address.Defs.reason text_eq ssrfguard.Base.after_prefix ssrfguard.Base.ends_with lower
    ssrfguard.Base.partition ssrfguard.Base.remove_prefix ssrfguard.Base.rstrip
    ssrfguard.Base.split_on ssrfguard.Base.starts_with ssrfguard.Client.Requests.connect_pinned
    ssrfguard.Client.Requests.resolve_pinned ssrfguard.Connect.Defs.check_all
    ssrfguard.Connect.Defs.connect ssrfguard.Connect.Defs.connect_checked
    ssrfguard.Connect.Defs.exhausted open_to ssrfguard.Connect.Defs.prepare
    ssrfguard.Connect.Defs.try_each ssrfguard.Net.Parse.ip_address ssrfguard.Net.Parse.parse_octet
    ssrfguard.Net.Parse.parse_v4 ssrfguard.Net.Parse.parse_v6 ssrfguard.Net.Parse.parse_v6_number
    ssrfguard.Net.Parse.quad ssrfguard.Net.contains ssrfguard.Net.ip_eq ssrfguard.Net.net_eq
    ssrfguard.Observer.Redact.after_last ssrfguard.Observer.Redact.partition_slashes
    ssrfguard.Observer.Redact.redacted ssrfguard.Observer.Report.report
    ssrfguard.Policy.Addresses.check_address ssrfguard.Policy.Addresses.check_host_is_listed
    ssrfguard.Policy.Hosts.before_newline ssrfguard.Policy.Hosts.host_is_allowed
    ssrfguard.Policy.Hosts.matches ssrfguard.Policy.Hosts.nearest_pattern
    ssrfguard.Policy.Url.check_known_port ssrfguard.Policy.Url.check_listed
    ssrfguard.Policy.Url.check_literal ssrfguard.Policy.Url.default_port
    ssrfguard.Policy.Url.find_control ssrfguard.Policy.Url.url_decision
    ssrfguard.Resolve.Defs.address_decision ssrfguard.Resolve.Defs.addresses_after
    ssrfguard.Resolve.Defs.key_eq ssrfguard.Resolve.Defs.refuse_all_denied
    ssrfguard.Resolve.Defs.refuse_partial ssrfguard.Resolve.Defs.resolve
    ssrfguard.Resolve.Defs.resolve_answers ssrfguard.Resolve.Defs.settle ssrfguard.Resolve.Defs.sift
pins = refl

pool_classes-IsVetted_example :
    (connection.tunnel_host ≡ none)
    × ((t : Target) × IsAccepted platform policy (origin (codes "https") (codes "a.example") 443) t
        × IsVetted calm_kernel policy resolver t start.trace
            (pinned_socket adapter (codes "https") connection start).1.trace
            7)
pool_classes-IsVetted_example =
    pool_classes-IsVetted adapter (codes "https", pinned_socket adapter (codes "https")) connection
      start 7 (inr (inl refl)) pins

abbrev pub backend : Backend
backend = record {
  kernel = calm_kernel;
  policy = policy;
  resolver = resolver;
  observer = none;
  nodelay = with_value 6 1 (an_int 1);
}

abbrev pub dial : Dial
dial = record { timeout = some 3; local_address = none; socket_options = none }

pub opens : (connect_tcp backend (codes "a.example") 443 dial start).0 ≡ ok 7
unfolding connect_tcp ssrfguard.Client.Httpx.check_origin ssrfguard.Client.Httpx.check_backend_port
    ssrfguard.Policy.Addresses.check_host ssrfguard.Client.Httpx.resolve_found
    ssrfguard.Resolve.Defs.resolve ssrfguard.Resolve.Defs.addresses_after
    ssrfguard.Net.Parse.ip_address ssrfguard.Resolve.Defs.key_eq text_eq
    ssrfguard.Resolve.Defs.resolve_answers ssrfguard.Resolve.Defs.sift
    ssrfguard.Observer.Report.report ssrfguard.Resolve.Defs.settle
    ssrfguard.Policy.Addresses.check_address ssrfguard.Address.Defs.raise_if_blocked
    ssrfguard.Address.Defs.classify ssrfguard.Address.Defs.check_inner
    ssrfguard.Address.Defs.classify_from ssrfguard.Address.Defs.classify_step
    ssrfguard.Address.Defs.classify_translated ssrfguard.Address.Defs.embedded_v4
    ssrfguard.Address.Defs.first_containing ssrfguard.Address.Defs.match
    ssrfguard.Address.Defs.reason ssrfguard.Base.after_prefix ssrfguard.Base.ends_with
    ssrfguard.Base.partition ssrfguard.Base.remove_prefix ssrfguard.Base.rstrip
    ssrfguard.Base.split_on ssrfguard.Base.starts_with connect_found origin_target
    ssrfguard.Client.Requests.digits ssrfguard.Connect.Defs.check_all ssrfguard.Connect.Defs.connect
    ssrfguard.Connect.Defs.connect_checked ssrfguard.Connect.Defs.exhausted open_to
    ssrfguard.Connect.Defs.prepare ssrfguard.Connect.Defs.try_each ssrfguard.Net.Parse.parse_octet
    ssrfguard.Net.Parse.parse_v4 ssrfguard.Net.Parse.parse_v6 ssrfguard.Net.Parse.parse_v6_number
    ssrfguard.Net.Parse.quad ssrfguard.Net.contains ssrfguard.Net.ip_eq ssrfguard.Net.net_eq
    ssrfguard.Policy.Addresses.check_host_is_listed ssrfguard.Policy.Hosts.host_is_allowed
    ssrfguard.Policy.Hosts.matches ssrfguard.Policy.Hosts.nearest_pattern
    ssrfguard.Resolve.Defs.address_decision ssrfguard.Resolve.Defs.refuse_all_denied
    ssrfguard.Resolve.Defs.refuse_partial
opens = refl

connect_tcp-IsVetted_example :
    IsOrigin policy (codes "a.example") 443
    × IsVetted calm_kernel policy resolver
        (origin_target (codes "a.example") 443)
        start.trace
        (connect_tcp backend (codes "a.example") 443 dial start).1.trace
        7
connect_tcp-IsVetted_example =
    connect_tcp-IsVetted backend (codes "a.example") 443 dial start 7 opens

abbrev pub async_backend : AsyncBackend
async_backend = record {
  net = record {
    reach = λ _ _. ok 4;
    act = λ _ _. ok tt;
    remote = λ _ _. some (codes "93.184.216.34");
  };
  policy = policy;
  resolver = resolver;
  observer = none;
}

abbrev async_start : AsyncWorld
async_start = record { steps = []; log = [] }

reaches : (async_connect_tcp async_backend (codes "a.example") 443 dial async_start).0 ≡ ok 4
unfolding async_connect_tcp ssrfguard.Client.Httpx.check_origin
    ssrfguard.Client.Httpx.check_backend_port ssrfguard.Policy.Addresses.check_host
    ssrfguard.Client.Failover.async_resolve_found ssrfguard.Resolve.Defs.resolve
    ssrfguard.Resolve.Defs.addresses_after ssrfguard.Net.Parse.ip_address
    ssrfguard.Resolve.Defs.key_eq text_eq ssrfguard.Resolve.Defs.resolve_answers
    ssrfguard.Resolve.Defs.sift ssrfguard.Observer.Report.report ssrfguard.Resolve.Defs.settle
    ssrfguard.Policy.Addresses.check_address ssrfguard.Address.Defs.raise_if_blocked
    ssrfguard.Address.Defs.classify ssrfguard.Address.Defs.check_inner
    ssrfguard.Address.Defs.classify_from ssrfguard.Address.Defs.classify_step
    ssrfguard.Address.Defs.classify_translated ssrfguard.Address.Defs.embedded_v4
    ssrfguard.Address.Defs.first_containing ssrfguard.Address.Defs.match
    ssrfguard.Address.Defs.reason ssrfguard.Base.after_prefix ssrfguard.Base.ends_with
    ssrfguard.Base.partition ssrfguard.Base.remove_prefix ssrfguard.Base.rstrip
    ssrfguard.Base.split_on ssrfguard.Base.starts_with ssrfguard.Client.Failover.first_reachable
    ssrfguard.Client.Failover.prepare_stream ssrfguard.Client.Failover.reach_each reach_found
    ssrfguard.Client.Failover.verify_stream origin_target ssrfguard.Client.Requests.digits
    ssrfguard.Connect.Defs.check_all ssrfguard.Connect.Defs.exhausted
    ssrfguard.Net.Parse.parse_octet ssrfguard.Net.Parse.parse_v4 ssrfguard.Net.Parse.parse_v6
    ssrfguard.Net.Parse.parse_v6_number ssrfguard.Net.Parse.quad ssrfguard.Net.contains
    ssrfguard.Net.ip_eq ssrfguard.Net.net_eq ssrfguard.Policy.Addresses.check_host_is_listed
    ssrfguard.Policy.Hosts.host_is_allowed ssrfguard.Policy.Hosts.matches
    ssrfguard.Policy.Hosts.nearest_pattern ssrfguard.Resolve.Defs.address_decision
    ssrfguard.Resolve.Defs.refuse_all_denied ssrfguard.Resolve.Defs.refuse_partial
reaches = refl

async_connect_tcp-IsReachedFor_example :
    IsOrigin policy (codes "a.example") 443
    × IsReachedFor async_backend dial (origin_target (codes "a.example") 443) 4
async_connect_tcp-IsReachedFor_example =
    async_connect_tcp-IsReachedFor async_backend (codes "a.example") 443 dial async_start 4 reaches

-- Networks on which every attempt times out.
abbrev dead_backend : Backend
dead_backend = record backend { kernel = slow_kernel }

abbrev dead_async : AsyncBackend
dead_async = record async_backend {
  net = record { reach = λ _ _. raise timeout_error; act = λ _ _. ok tt; remote = λ _ _. none };
}
