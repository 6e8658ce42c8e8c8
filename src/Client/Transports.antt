-- ===== src/Client/Transports.antt =====
-- What the transports of src/ssrfguard/httpx.py send, and where their pools take sockets from.
use ssrfguard.Base.{
  ℕ, ◌≤◌, ◌≡◌, refl, sym, ap, subst, ◌⊎◌, inl, inr, true, Option, none, some, Text, ℤ, pos, negsuc,
  Result, ok, ok-injective, >>-eq-ok, >>=-eq-ok, Bool-cases, arith,
}
use ssrfguard.Errors.{Exception}
use ssrfguard.Observer.Report.{Log}
use ssrfguard.Policy.Platform.{Platform}
use ssrfguard.Policy.Config.{Policy}
use ssrfguard.Policy.Url.{Target, check_url}
use ssrfguard.Policy.Accepted.{IsAccepted, decide-IsAccepted}
use ssrfguard.Client.Pinned.{Result-cases, check_url-ok, IsVetted}
use ssrfguard.Client.Opened.{IsOrigin, connect_tcp-IsVetted}
use ssrfguard.Client.Httpx.{Backend, BackendError, Dial, origin_target, connect_tcp}
use ssrfguard.Client.Failover.{Anyio, AsyncBackend}
use ssrfguard.Connect.Kernel.{Kernel, SocketOption, World}
use ssrfguard.Client.Pools.{
  TransportArgs, backend_of, async_backend_of, Limits, limits_or_default, Pool, proxy_pool,
  pinning_pool, async_pinning_pool, Transport, refuse_route, new_transport, new_async_backend,
  resolver_slots_for, async_pool, new_async_transport, handle_request,
}

-- A pool that takes its sockets from a backend of the package under the policy, the resolver and the
-- observer of the transport, on which at least one lookup can run.
pub data IsPinning (a : TransportArgs) : Pool → Type 0 where
  pins :
      (b : Backend) (limits : Limits)
      → b.policy ≡ a.policy
      → b.resolver ≡ a.resolver
      → b.observer ≡ a.observer
      → IsPinning a (pinning_pool b limits)
  pins_async :
      (b : AsyncBackend) (limits : Limits) (slots : ℕ)
      → b.policy ≡ a.policy
      → b.resolver ≡ a.resolver
      → b.observer ≡ a.observer
      → 1 ≤ slots
      → IsPinning a (async_pinning_pool b limits slots)

-- A transport under the policy it was given, whose sockets come from the backend of the package; or
-- from a proxy, if the policy allows one.
pub record IsGuarded (a : TransportArgs) (t : Transport) : Type 0 where
  pub same_policy : t.policy ≡ a.policy
  pub no_unix_socket : a.uds ≡ none
  pub route :
      ((a.proxy ≡ none) × IsPinning a t.pool)
      ⊎ ((a.policy.allow_proxy ≡ true)
          × ((url : Text) × (a.proxy ≡ some url) × (t.pool ≡ proxy_pool url)))

refuse_route-ok :
    (p : Policy) (uds proxy : Option Text) {u : Unit {0}}
    → refuse_route p uds proxy ≡ ok u
    → (uds ≡ none)
      × ((proxy ≡ none) ⊎ ((p.allow_proxy ≡ true) × ((url : Text) × (proxy ≡ some url))))
refuse_route-ok p (some path) proxy h = absurd (cc)
refuse_route-ok p none none h = (refl, inl refl)
refuse_route-ok p none (some url) h = elim (Bool-cases p.allow_proxy) [
  | inl allowed ↦ (refl, inr (allowed, (url, refl)))
  | inr refused_all ↦ absurd (cc (rw refused_all at h))
]

new_async_backend-ok : (slots : ℤ) (n : ℕ) → new_async_backend slots ≡ ok n → 1 ≤ n
unfolding new_async_backend
new_async_backend-ok (negsuc m) n h = absurd (cc)
new_async_backend-ok (pos m) n h = ground arith

module _ (a : TransportArgs) where
  IsGuarded-of_route :
      (pool : Pool) {u : Unit {0}}
      → refuse_route a.policy a.uds a.proxy ≡ ok u
      → (a.proxy ≡ none → IsPinning a pool)
      → ((url : Text) → a.proxy ≡ some url → pool ≡ proxy_pool url)
      → IsGuarded a (record { policy = a.policy; observer = a.observer; pool = pool })
  IsGuarded-of_route pool passed direct carried =
      let (no_socket, way) = refuse_route-ok a.policy a.uds a.proxy passed in
      record {
        same_policy = refl;
        no_unix_socket = no_socket;
        route = elim way [
          | inl absent ↦ inl (absent, direct absent)
          | inr (allowed, (url, given)) ↦ inr (allowed, (url, given, carried url given))
        ];
      }

  abbrev sync_pool : Kernel → SocketOption → Option Text → Pool
  sync_pool k nodelay none = pinning_pool (backend_of k nodelay a) (limits_or_default a.limits)
  sync_pool k nodelay (some url) = proxy_pool url

  new_transport-made :
      (k : Kernel) (nodelay : SocketOption) (base : Result Exception (Unit {0})) (t : Transport)
      → new_transport k nodelay a base ≡ ok t
      → (refuse_route a.policy a.uds a.proxy ≡ ok tt)
        × (record { policy = a.policy; observer = a.observer; pool = sync_pool k nodelay a.proxy }
            ≡ t)
  unfolding new_transport
  new_transport-made k nodelay base t h =
      let (passed, h1) = >>-eq-ok (refuse_route a.policy a.uds a.proxy) _ h in
      let (_, h2) = >>-eq-ok base _ h1 in (passed, ok-injective h2)

  new_transport-IsGuarded :
      (k : Kernel) (nodelay : SocketOption) (base : Result Exception (Unit {0})) (t : Transport)
      → new_transport k nodelay a base ≡ ok t
      → IsGuarded a t
  new_transport-IsGuarded k nodelay base t h =
      let (passed, made) = new_transport-made k nodelay base t h in
      subst (IsGuarded a) made
        (IsGuarded-of_route (sync_pool k nodelay a.proxy) passed (direct a.proxy) (carried a.proxy))
    where
      direct : (proxy : Option Text) → proxy ≡ none → IsPinning a (sync_pool k nodelay proxy)
      direct none absent = pins (backend_of k nodelay a) (limits_or_default a.limits) refl refl refl
      direct (some url) absent = absurd (cc)

      carried :
          (proxy : Option Text) (url : Text)
          → proxy ≡ some url
          → sync_pool k nodelay proxy ≡ proxy_pool url
      carried none url given = absurd (cc)
      carried (some other) url given = cc

  new_async_transport-IsGuarded :
      (net : Anyio) (base : Result Exception (Unit {0})) (t : Transport)
      → new_async_transport net a base ≡ ok t
      → IsGuarded a t
  unfolding new_async_transport
  new_async_transport-IsGuarded net base t h =
      let (passed, h1) = >>-eq-ok (refuse_route a.policy a.uds a.proxy) _ h in
      let (_, h2) = >>-eq-ok base _ h1 in
      let (pool, pooled, h3) = >>=-eq-ok (async_pool (async_backend_of net a) a a.proxy) _ h2 in
      subst (IsGuarded a) (ok-injective h3)
        (IsGuarded-of_route pool passed (direct a.proxy pool pooled) (carried a.proxy pool pooled))
    where
      direct :
          (proxy : Option Text) (pool : Pool)
          → async_pool (async_backend_of net a) a proxy ≡ ok pool
          → proxy ≡ none
          → IsPinning a pool
      direct (some url) pool pooled absent = absurd (cc)
      direct none pool pooled absent =
          let chosen = limits_or_default a.limits in
          let (n, enough, made) =
            >>=-eq-ok (new_async_backend (resolver_slots_for chosen a.slots)) _ pooled in
          subst (IsPinning a) (ok-injective made) (
            pins_async (async_backend_of net a) chosen n refl refl refl
              (new_async_backend-ok (resolver_slots_for chosen a.slots) n enough))

      carried :
          (proxy : Option Text) (pool : Pool)
          → async_pool (async_backend_of net a) a proxy ≡ ok pool
          → (url : Text) → proxy ≡ some url
          → pool ≡ proxy_pool url
      carried none pool pooled url given = absurd (cc)
      carried (some other) pool pooled url given = cc

-- A transport that is made, of either class, has the policy it was given and no unix socket, and takes
-- its sockets from a backend of the package with the same policy, resolver and observer, the
-- asynchronous one with a slot for at least one lookup; it uses a proxy only if one was given and the
-- policy allows it. A request on it that is answered has a URL that the policy accepts.
pub handle_request-IsGuarded {ℓ} :
    {R : Type ℓ} (py : Platform) (k : Kernel) (nodelay : SocketOption) (net : Anyio)
    (a : TransportArgs) (base : Result Exception (Unit {0})) (t : Transport) (url : Text)
    (sent : Result Exception R) (log : Log) (response : R)
    → (new_transport k nodelay a base ≡ ok t) ⊎ (new_async_transport net a base ≡ ok t)
    → (handle_request py t url sent log).0 ≡ ok response
    → IsGuarded a t × ((target : Target) × IsAccepted py a.policy url target)
unfolding handle_request
handle_request-IsGuarded py k nodelay net a base t url sent log response made answered =
    let guarded : IsGuarded a t = elim made [
      | inl h ↦ new_transport-IsGuarded a k nodelay base t h
      | inr h ↦ new_async_transport-IsGuarded a net base t h
    ] in
    elim (Result-cases (check_url py t.policy url t.observer log).0) [
      | inr (e, refuses) ↦ absurd (cc (rw (handle_request, refuses) at answered))
      | inl (target, accepts) ↦ (
        guarded,
        (
          target,
          subst (λ q. IsAccepted py q url target) guarded.same_policy
              (decide-IsAccepted py t.policy url target
                (check_url-ok py t.policy url t.observer log target accepts)),
        ),
      )
    ]

-- What a pool does to open a socket: it asks its backend.
abbrev pub pool_opens : Pool → Text → ℕ → Dial → World → Option (Result BackendError ℕ × World)
pool_opens (proxy_pool url) host port d w = none
pool_opens (pinning_pool b limits) host port d w = some (connect_tcp b host port d w)
pool_opens (async_pinning_pool b limits slots) host port d w = none

-- A socket that the pool of a transport of the synchronous class opens for a host and a port through
-- its backend is to an allowed port and a listed host, and vetted under the policy and by the resolver
-- that the transport was given.
pub new_transport-IsVetted :
    (k : Kernel) (nodelay : SocketOption) (a : TransportArgs) (base : Result Exception (Unit {0}))
    (t : Transport) (host : Text) (port : ℕ) (d : Dial) (w after : World) (sock : ℕ)
    → new_transport k nodelay a base ≡ ok t
    → pool_opens t.pool host port d w ≡ some (ok sock, after)
    → IsOrigin a.policy host port
      × IsVetted k a.policy a.resolver (origin_target host port) w.trace after.trace sock
new_transport-IsVetted k nodelay a base t host port d w after sock h opened =
    let (_, made) = new_transport-made a k nodelay base t h in
    through a.proxy
      (subst (λ x. pool_opens x.pool host port d w ≡ some (ok sock, after)) (sym made) opened)
  where
    through :
        (proxy : Option Text)
        → pool_opens (sync_pool a k nodelay proxy) host port d w ≡ some (ok sock, after)
        → IsOrigin a.policy host port
          × IsVetted k a.policy a.resolver (origin_target host port) w.trace after.trace sock
    through (some url) h = absurd (cc)
    through none h =
        let b = backend_of k nodelay a in
        let same : connect_tcp b host port d w ≡ (ok sock, after) = cc in
        subst
          (λ x.
            IsOrigin a.policy host port
            × IsVetted k a.policy a.resolver (origin_target host port) w.trace x.1.trace sock)
          same (connect_tcp-IsVetted b host port d w sock (ap (λ x. x.0) same))
