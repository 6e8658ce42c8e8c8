-- ===== src/Client/Reached.antt =====
-- The streams of `AsyncSafeBackend` in src/ssrfguard/httpx.py.
use ssrfguard.Base.{
  ℕ, ◌≡◌, refl, sym, subst, ◌∙◌, ◌⊎◌, inl, inr, Bool, true, false, ◌&&◌, List, [], ◌∷◌, ◌++◌,
  Option, none, some, Text, Among, All, take, Result, ok, raise, Bool-cases, Option-cases,
}
use ssrfguard.Net.{IpAddress, ip_eq}
use ssrfguard.Net.Parse.{ip_address}
use ssrfguard.Errors.{Exception, refused, blocked_address, an_ip, peer_moved}
use ssrfguard.Observer.Report.{Observer, report}
use ssrfguard.Observer.Decision.{Decision}
use ssrfguard.Policy.Config.{Policy, rejects_partial}
use ssrfguard.Policy.Addresses.{permits_address}
use ssrfguard.Policy.Url.{Target}
use ssrfguard.Resolve.Defs.{Address, resolve}
use ssrfguard.Resolve.Sifting.{permitted_of}
use ssrfguard.Resolve.Validated.{IsAnswered, resolve-permitted}
use ssrfguard.Connect.Kernel.{SocketOption}
use ssrfguard.Connect.Defs.{
  options_of, peer_decision, Ending, connected, passed_on, all_failed, is_os_error, is_timeout,
  check_all,
}
use ssrfguard.Client.Httpx.{origin_target, check_origin, Dial}
use ssrfguard.Client.Failover.{
  Step, reaching, option_set, remote_asked, stream_closed, Anyio, AsyncWorld, stepped, tell_peer,
  judge_remote, verify_stream, prepare_stream, or_aclose, reach_each, concluded, first_reachable,
  AsyncBackend, reach_found, async_resolve_found, async_connect_tcp,
}
use ssrfguard.Client.Pinned.{Result-cases}
use ssrfguard.Client.Opened.{IsOrigin, check_origin-IsOrigin}

-- anyio gave the stream for the address and its port, and names no other address as its remote end.
pub record IsReached (net : Anyio) (d : Dial) (s : ℕ) (a : Address) : Type 0 where
  pub before : List Step
  pub later : List Step
  pub given : net.reach before (reaching a.ip a.sockaddr.port d.local_address d.timeout) ≡ ok s
  pub remote :
      (net.remote later s ≡ none)
      ⊎ ((text : Text) × (peer : IpAddress) × (net.remote later s ≡ some text)
          × (ip_address text ≡ some peer)
          × (ip_eq peer a.ip ≡ true))

-- What is known of the remote end of a stream that was not refused.
abbrev IsRemote : Anyio → ℕ → Address → Type 0
IsRemote net s a =
    (later : List Step) × ((net.remote later s ≡ none)
      ⊎ ((text : Text) × (peer : IpAddress) × (net.remote later s ≡ some text)
          × (ip_address text ≡ some peer)
          × (ip_eq peer a.ip ≡ true)))

tell_peer-ok :
    (observer : Option Observer) (d : Decision) (verdict : Result Exception (Unit {0}))
    (w : AsyncWorld) {u : Unit {0}}
    → (tell_peer observer d verdict w).0 ≡ ok u
    → verdict ≡ ok u
tell_peer-ok observer d verdict w h = elim (Result-cases (report observer d w.log).0) [
  | inl (v, told) ↦ rw (tell_peer, told) at h
  | inr (e, torn) ↦ absurd (cc (rw (tell_peer, torn) at h))
]

module _ (net : Anyio) (s : ℕ) (a : Address) (observer : Option Observer) where
  verify_stream-IsRemote :
      (w : AsyncWorld) {u : Unit {0}}
      → (verify_stream net s a observer w).0 ≡ ok u
      → IsRemote net s a
  unfolding verify_stream
  verify_stream-IsRemote w h = elim (Option-cases (net.remote w.steps s)) [
    | inl unknown ↦ (w.steps, inl unknown)
    | inr (text, named) ↦ elim (Option-cases (ip_address text)) [
      | inl no_address ↦ absurd (cc (rw (verify_stream, named, judge_remote, no_address) at h))
      | inr (peer, parsed) ↦ elim (Bool-cases (ip_eq peer a.ip)) [
        | inl same ↦ (w.steps, inr (text, peer, named, parsed, same))
        | inr moved ↦
            let done = rw (verify_stream, named, judge_remote, parsed, moved) at h in
            absurd (
              cc (
                tell_peer-ok observer (peer_decision a peer (some (peer_moved peer a.ip)))
                  (raise (refused (blocked_address (an_ip peer) (peer_moved peer a.ip))))
                  (stepped w (remote_asked s)) done))
      ]
    ]
  ]

  prepare_stream-IsRemote :
      (options : List SocketOption) (w : AsyncWorld) {u : Unit {0}}
      → (prepare_stream net s a observer options w).0 ≡ ok u
      → IsRemote net s a
  unfolding prepare_stream
  prepare_stream-IsRemote [] w h = verify_stream-IsRemote w h
  prepare_stream-IsRemote (o ∷ more) w h = elim (Result-cases (net.act w.steps (option_set s o))) [
    | inr (e, failed) ↦ absurd (cc (rw (prepare_stream, failed) at h))
    | inl (v, done) ↦
        prepare_stream-IsRemote more (stepped w (option_set s o)) (rw (prepare_stream, done) at h)
  ]

  or_aclose-connected :
      (x : Result Exception (Unit {0}) × AsyncWorld) {n : ℕ}
      → (or_aclose net s x).0 ≡ connected n
      → (n ≡ s) × (x.0 ≡ ok tt)
  or_aclose-connected (ok tt, w) h = (cc, refl)
  or_aclose-connected (raise e, w) h = elim (Result-cases (net.act w.steps (stream_closed s))) [
    | inl (v, shut) ↦ absurd (cc (rw (or_aclose, shut) at h))
    | inr (f, failed) ↦ absurd (cc (rw (or_aclose, failed) at h))
  ]

module _ (net : Anyio) (observer : Option Observer) (d : Dial) where
  reach_each-IsReached :
      (addresses : List Address) (failures : List (Address × Exception)) (only : Bool)
      (w : AsyncWorld) (s : ℕ)
      → (reach_each net observer d addresses failures only w).0 ≡ connected s
      → (a : Address) × Among a addresses × IsReached net d s a
  unfolding reach_each
  reach_each-IsReached [] failures only w s h = absurd (cc)
  reach_each-IsReached (a ∷ more) failures only w s h =
      let step = reaching a.ip a.sockaddr.port d.local_address d.timeout in
      let w' = stepped w step in
      elim (Result-cases (net.reach w.steps step)) [
        | inl (n, given) ↦
            let ready = prepare_stream net n a observer (options_of d.socket_options) w' in
            let (same, good) =
              or_aclose-connected net n a observer ready (rw (reach_each, given) at h) in
            let (later, remote) =
              prepare_stream-IsRemote net n a observer (options_of d.socket_options) w' good in
            (
              a,
              inl refl,
              subst (λ m. IsReached net d m a) (sym same)
                  (record { before = w.steps; later = later; given = given; remote = remote }),
            )
        | inr (e, failed) ↦ elim (Bool-cases (is_os_error e)) [
          | inl over ↦
              let (b, among, reached) =
                reach_each-IsReached more (failures ++ (a, e) ∷ []) (only && is_timeout e) w' s
                  (rw (reach_each, failed, over) at h) in
              (b, inr among, reached)
          | inr other ↦ absurd (cc (rw (reach_each, failed, other) at h))
        ]
      ]

concluded-ok :
    (p : Policy) (addresses : List Address) (ending : Ending) (s : ℕ)
    → concluded p addresses ending ≡ ok s
    → ending ≡ connected s
concluded-ok p addresses (connected n) s h = cc
concluded-ok p addresses (passed_on e) s h = absurd (cc)
concluded-ok p addresses (all_failed failures only) s h = elim (Bool-cases only) [
  | inl late ↦ absurd (cc (rw late at h))
  | inr mixed ↦ absurd (cc (rw mixed at h))
]

reach_found-IsReached :
    (b : AsyncBackend) (d : Dial) (found : List Address) (w : AsyncWorld) (s : ℕ)
    → (reach_found b d found w).0 ≡ ok s
    → (a : Address) × Among a (take b.policy.max_connection_attempts found) × IsReached b.net d s a
unfolding reach_found first_reachable
reach_found-IsReached b d found w s h = elim (Result-cases (check_all b.policy found)) [
  | inr (e, refuses) ↦ absurd (cc (rw (reach_found, refuses) at h))
  | inl (u, passes) ↦
      let tried = take b.policy.max_connection_attempts found in
      reach_each-IsReached b.net b.observer d tried [] true w s (
        concluded-ok b.policy found (reach_each b.net b.observer d tried [] true w).0 s
          (rw (reach_found, passes) at h))
]

-- A stream to a target, by the same promise as a socket.
pub record IsReachedFor (b : AsyncBackend) (d : Dial) (t : Target) (s : ℕ) : Type 0 where
  pub answers : List Address
  pub answered : IsAnswered b.resolver t answers
  pub whole : (rejects_partial b.policy ≡ false) ⊎ (permitted_of b.policy answers ≡ answers)
  pub permitted : All (λ a. permits_address b.policy a.ip ≡ true) (permitted_of b.policy answers)
  pub reached : Address
  pub among : Among reached (take b.policy.max_connection_attempts (permitted_of b.policy answers))
  pub stream : IsReached b.net d s reached

async_resolve_found-IsReachedFor :
    (b : AsyncBackend) (d : Dial) (t : Target) (w : AsyncWorld) (s : ℕ)
    → (async_resolve_found b d t w).0 ≡ ok s
    → IsReachedFor b d t s
unfolding async_resolve_found
async_resolve_found-IsReachedFor b d t w s h =
    let looked = resolve b.resolver b.policy t b.observer w.log in
    elim (Result-cases looked.0) [
      | inr (e, failed) ↦ absurd (cc (rw (async_resolve_found, failed) at h))
      | inl (found, resolved) ↦
          let (answers, answered, _, permitted, same, whole) =
            resolve-permitted b.resolver b.policy t b.observer w.log found resolved in
          let (reached, among, stream) =
            reach_found-IsReached b d found (record w { log = looked.1 }) s
              (rw (async_resolve_found, resolved) at h) in
          record {
            answers = answers;
            answered = answered;
            whole = elim whole [ inl e ↦ inl e | inr e ↦ inr (sym same ∙ e) ];
            permitted = subst (All (λ a. permits_address b.policy a.ip ≡ true)) same permitted;
            reached = reached;
            among = subst (λ l. Among reached (take b.policy.max_connection_attempts l)) same among;
            stream = stream;
          }
    ]

-- A stream that `AsyncSafeBackend.connect_tcp` opens is to an origin whose port is allowed and whose
-- host is listed, if any is; anyio gave it for one of the first `max_connection_attempts` addresses
-- that the one lookup gave and the policy permits; and no remote address that it names is another.
pub async_connect_tcp-IsReachedFor :
    (b : AsyncBackend) (host : Text) (port : ℕ) (d : Dial) (w : AsyncWorld) (s : ℕ)
    → (async_connect_tcp b host port d w).0 ≡ ok s
    → IsOrigin b.policy host port × IsReachedFor b d (origin_target host port) s
unfolding async_connect_tcp
async_connect_tcp-IsReachedFor b host port d w s h =
    elim (Result-cases (check_origin b.policy host port)) [
      | inr (r, refuses) ↦ absurd (cc (rw (async_connect_tcp, refuses) at h))
      | inl (u, accepts) ↦ (
        check_origin-IsOrigin b.policy host port accepts,
        async_resolve_found-IsReachedFor b d (origin_target host port) w s
            (rw (async_connect_tcp, accepts) at h),
      )
    ]
