-- ===== src/Client/Failover.antt =====
-- `AsyncSafeBackend` of src/ssrfguard/httpx.py. The network of anyio is a parameter that answers each
-- call from the calls made so far.
use ssrfguard.Base.{
  ℕ, ◌-◌, Bool, true, ◌&&◌, List, [], ◌∷◌, ◌++◌, Option, none, some, Text, length, take, Result, ok,
  raise, if◌then◌else◌,
}
use ssrfguard.Net.{IpAddress, ip_eq}
use ssrfguard.Net.Parse.{ip_address}
use ssrfguard.Errors.{
  Exception, refused, value_error, gaierror, timeout_error, os_error, type_error, torn_down,
  blocked_address, an_ip, peer_moved,
}
use ssrfguard.Observer.Decision.{Decision}
use ssrfguard.Observer.Report.{Observer, Log, report}
use ssrfguard.Policy.Config.{Policy}
use ssrfguard.Policy.Url.{Target}
use ssrfguard.Resolve.Defs.{Address, Resolver, resolve}
use ssrfguard.Connect.Kernel.{SocketOption}
use ssrfguard.Connect.Defs.{
  exhausted, peer_decision, options_of, is_os_error, is_timeout, Ending, connected, passed_on,
  all_failed, check_all,
}
use ssrfguard.Client.Httpx.{
  BackendError, passed, connect_timeout, connect_error, Dial, check_origin, origin_target,
}

-- A call of anyio; a stream is a number.
pub data Step : Type 0 where
  reaching : IpAddress → ℕ → Option Text → Option ℕ → Step
  option_set : ℕ → SocketOption → Step
  remote_asked : ℕ → Step
  stream_closed : ℕ → Step

-- `connect_tcp` under `fail_after`, `setsockopt` of the raw socket, the remote address if the
-- stream has one, and `aclose`.
pub record Anyio : Type 0 where
  pub reach : List Step → Step → Result Exception ℕ
  pub act : List Step → Step → Result Exception (Unit {0})
  pub remote : List Step → ℕ → Option Text

-- The calls made and the records reported.
pub record AsyncWorld : Type 0 where
  pub steps : List Step
  pub log : Log

abbrev pub stepped : AsyncWorld → Step → AsyncWorld
stepped w e = record w { steps = w.steps ++ e ∷ [] }

abbrev pub tell_peer :
    Option Observer
    → Decision
    → Result Exception (Unit {0})
    → AsyncWorld
    → Result Exception (Unit {0}) × AsyncWorld
tell_peer observer d verdict w =
    let (reported, log) = report observer d w.log in
    (elim reported [ ok _ ↦ verdict | raise e ↦ raise e ], record w { log = log })

-- `_verify_peer` from the remote address on.
abbrev pub judge_remote :
    Address → Option Observer → Option Text → AsyncWorld → Result Exception (Unit {0}) × AsyncWorld
judge_remote a observer none w = (ok tt, w)
judge_remote a observer (some text) w = elim (ip_address text) [
  | none ↦ (raise value_error, w)
  | some peer ↦
      if ip_eq peer a.ip
      then tell_peer observer (peer_decision a peer none) (ok tt) w
      else tell_peer observer (peer_decision a peer (some (peer_moved peer a.ip)))
          (raise (refused (blocked_address (an_ip peer) (peer_moved peer a.ip)))) w
]

-- `_verify_peer`
unfoldable pub verify_stream :
    Anyio → ℕ → Address → Option Observer → AsyncWorld → Result Exception (Unit {0}) × AsyncWorld
verify_stream net s a observer w =
    judge_remote a observer (net.remote w.steps s) (stepped w (remote_asked s))

-- The loop over the options, and the check of the peer after it.
unfoldable pub prepare_stream :
    Anyio
    → ℕ
    → Address
    → Option Observer
    → List SocketOption
    → AsyncWorld
    → Result Exception (Unit {0}) × AsyncWorld
prepare_stream net s a observer [] w = verify_stream net s a observer w
prepare_stream net s a observer (o ∷ more) w =
    let rest = prepare_stream net s a observer more (stepped w (option_set s o)) in
    elim (net.act w.steps (option_set s o)) [
      | raise e ↦ (raise e, stepped w (option_set s o))
      | ok _ ↦ rest
    ]

-- `except BaseException: await stream.aclose(); raise`
abbrev pub or_aclose : Anyio → ℕ → Result Exception (Unit {0}) × AsyncWorld → Ending × AsyncWorld
or_aclose net s (ok _, w) = (connected s, w)
or_aclose net s (raise e, w) = (
  elim (net.act w.steps (stream_closed s)) [ ok _ ↦ passed_on e | raise f ↦ passed_on f ],
  stepped w (stream_closed s),
)

-- The loop of `_first_reachable`.
unfoldable pub reach_each :
    Anyio
    → Option Observer
    → Dial
    → List Address
    → List (Address × Exception)
    → Bool
    → AsyncWorld
    → Ending × AsyncWorld
reach_each net observer d [] failures only_timeouts w = (all_failed failures only_timeouts, w)
reach_each net observer d (a ∷ more) failures only_timeouts w =
    let step = reaching a.ip a.sockaddr.port d.local_address d.timeout in
    let w' = stepped w step in
    elim (net.reach w.steps step) [
      | ok s ↦ or_aclose net s (prepare_stream net s a observer (options_of d.socket_options) w')
      | raise e ↦
          let rest =
            reach_each net observer d more (failures ++ (a, e) ∷ []) (only_timeouts && is_timeout e)
              w' in
          if is_os_error e then rest else (passed_on e, w')
    ]

-- What `_first_reachable` makes of the loop's end.
abbrev pub concluded : Policy → List Address → Ending → Result BackendError ℕ
concluded p addresses (connected s) = ok s
concluded p addresses (passed_on e) = raise (passed e)
concluded p addresses (all_failed failures only_timeouts) =
    let message =
      exhausted failures (length addresses - length (take p.max_connection_attempts addresses))
        p.max_connection_attempts in
    if only_timeouts
    then raise (connect_timeout (some message))
    else raise (connect_error (some message))

-- `_first_reachable`
unfoldable pub first_reachable :
    Anyio
    → Policy
    → Option Observer
    → Dial
    → List Address
    → AsyncWorld
    → Result BackendError ℕ × AsyncWorld
first_reachable net p observer d addresses w =
    let (ending, w') =
      reach_each net observer d (take p.max_connection_attempts addresses) [] true w in
    (concluded p addresses ending, w')

-- The `except` clause of `connect_tcp`.
abbrev pub lookup_error : Exception → BackendError
lookup_error gaierror = connect_error none
lookup_error timeout_error = passed timeout_error
lookup_error os_error = passed os_error
lookup_error (refused r) = passed (refused r)
lookup_error value_error = passed value_error
lookup_error type_error = passed type_error
lookup_error torn_down = passed torn_down

pub record AsyncBackend : Type 0 where
  pub net : Anyio
  pub policy : Policy
  pub resolver : Resolver
  pub observer : Option Observer

-- `AsyncSafeBackend.connect_tcp` from the addresses on.
unfoldable pub reach_found :
    AsyncBackend → Dial → List Address → AsyncWorld → Result BackendError ℕ × AsyncWorld
reach_found b d addresses w = elim (check_all b.policy addresses) [
  | raise e ↦ (raise (passed e), w)
  | ok _ ↦ first_reachable b.net b.policy b.observer d addresses w
]

-- `AsyncSafeBackend.connect_tcp` from the target on.
unfoldable pub async_resolve_found :
    AsyncBackend → Dial → Target → AsyncWorld → Result BackendError ℕ × AsyncWorld
async_resolve_found b d t w =
    let (result, log) = resolve b.resolver b.policy t b.observer w.log in
    let w' = record w { log = log } in
    elim result [
      | raise e ↦ (raise (lookup_error e), w')
      | ok addresses ↦ reach_found b d addresses w'
    ]

-- `AsyncSafeBackend.connect_tcp`
unfoldable pub async_connect_tcp :
    AsyncBackend → Text → ℕ → Dial → AsyncWorld → Result BackendError ℕ × AsyncWorld
async_connect_tcp b host port d w = elim (check_origin b.policy host port) [
  | raise r ↦ (raise (passed (refused r)), w)
  | ok _ ↦ async_resolve_found b d (origin_target host port) w
]
