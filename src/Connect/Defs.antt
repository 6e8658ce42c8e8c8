-- ===== src/Connect/Defs.antt =====
-- The definitions of src/ssrfguard/_connect.py.
use ssrfguard.Base.{
  ℕ, zero, suc, ◌-◌, Bool, true, false, ◌&&◌, List, [], ◌∷◌, ◌++◌, Option, none, some, Text, length,
  take, Result, ok, raise, if◌then◌else◌,
}
use ssrfguard.Net.{IpAddress, ip_eq}
use ssrfguard.Net.Parse.{ip_address}
use ssrfguard.Errors.{
  an_ip, AddressReason, by_table, peer_moved, blocked_address, Exception, refused, value_error,
  type_error, gaierror, timeout_error, os_error, torn_down,
}
use ssrfguard.Observer.Decision.{Decision, peer_stage, permits, refuses, of_address}
use ssrfguard.Observer.Report.{Observer}
use ssrfguard.Policy.Config.{Policy}
use ssrfguard.Policy.Addresses.{check_address}
use ssrfguard.Resolve.Defs.{Address}
use ssrfguard.Connect.Kernel.{
  SocketOption, set_option, set_timeout, bound, connecting, closing, Kernel, World, Io, ◌>>=◌, ◌>>◌,
  give, act, socket, peer_name, tell,
}

-- The message of `exhausted`, as the values it is made of.
pub record Exhausted : Type 0 where
  pub failures : List (Address × Exception)
  pub skipped : Option ℕ
  pub cap : ℕ

-- `exhausted`
unfoldable pub exhausted : List (Address × Exception) → ℕ → ℕ → Exhausted
exhausted failures zero cap = record { failures = failures; skipped = none; cap = cap }
exhausted failures (suc n) cap = record { failures = failures; skipped = some (suc n); cap = cap }

-- The record of a peer.
abbrev pub peer_decision : Address → IpAddress → Option AddressReason → Decision
peer_decision a peer refusal = record {
  stage = peer_stage;
  outcome = elim refusal [ none ↦ permits | some _ ↦ refuses ];
  reason = elim refusal [ none ↦ none | some why ↦ some (of_address why) ];
  url = none;
  host = some a.hostname;
  port = some a.sockaddr.port;
  address = some peer;
  chain = [];
  also_seen = [];
}

-- `_verify_peer` from the peer's address on.
abbrev pub judge_peer : Address → Option Observer → Option IpAddress → Io (Unit {0})
judge_peer a observer none = give (raise value_error)
judge_peer a observer (some peer) =
    if ip_eq peer a.ip then tell observer (peer_decision a peer none) else (do
      tell observer (peer_decision a peer (some (peer_moved peer a.ip)))
      give (raise (refused (blocked_address (an_ip peer) (peer_moved peer a.ip)))))

-- `_verify_peer`
abbrev pub verify_peer : Kernel → ℕ → Address → Option Observer → Io (Unit {0})
verify_peer k sock a observer = do text ← peer_name k sock; judge_peer a observer (ip_address text)

-- The keyword arguments of `connect` that reach every attempt.
pub record Settings : Type 0 where
  pub timeout : Option ℕ
  pub source_address : Option (Text × ℕ)
  pub socket_options : Option (List SocketOption)
  pub observer : Option Observer

abbrev pub set_options : Kernel → ℕ → List SocketOption → Io (Unit {0})
set_options k sock [] = give (ok tt)
set_options k sock (o ∷ more) = do act k (set_option sock o); set_options k sock more

abbrev pub set_timeout_if : Kernel → ℕ → Option ℕ → Io (Unit {0})
set_timeout_if k sock none = give (ok tt)
set_timeout_if k sock (some t) = act k (set_timeout sock t)

abbrev pub bind_if : Kernel → ℕ → Option (Text × ℕ) → Io (Unit {0})
bind_if k sock none = give (ok tt)
bind_if k sock (some source) = act k (bound sock source)

abbrev pub options_of : Option (List SocketOption) → List SocketOption
options_of none = []
options_of (some options) = options

-- The `try` block of `_open`.
unfoldable pub prepare : Kernel → Settings → ℕ → Address → Io (Unit {0})
prepare k s sock a = do
  set_options k sock (options_of s.socket_options)
  set_timeout_if k sock s.timeout
  bind_if k sock s.source_address
  act k (connecting sock a.sockaddr)
  verify_peer k sock a s.observer

-- The `except` block of `_open`: close, and raise what was raised.
abbrev pub or_close : Kernel → ℕ → Result Exception (Unit {0}) × World → Result Exception ℕ × World
or_close k sock (ok _, w) = (ok sock, w)
or_close k sock (raise e, w) = (act k (closing sock) >> give (raise e)) w

-- `_open`
unfoldable pub open_to : Kernel → Settings → Address → Io ℕ
open_to k s a = do sock ← socket k a.family; λ w. or_close k sock (prepare k s sock a w)

-- `isinstance(failed, OSError)` and `isinstance(failed, TimeoutError)`
abbrev pub is_os_error : Exception → Bool
is_os_error gaierror = true
is_os_error timeout_error = true
is_os_error os_error = true
is_os_error (refused _) = false
is_os_error value_error = false
is_os_error type_error = false
is_os_error torn_down = false

abbrev pub is_timeout : Exception → Bool
is_timeout timeout_error = true
is_timeout _ = false

-- How the failover loop ends.
pub data Ending : Type 0 where
  connected : ℕ → Ending
  passed_on : Exception → Ending
  all_failed : List (Address × Exception) → Bool → Ending

-- The loop of `connect`.
unfoldable pub try_each :
    Kernel → Settings → List Address → List (Address × Exception) → Bool → World → Ending × World
try_each k s [] failures only_timeouts w = (all_failed failures only_timeouts, w)
try_each k s (a ∷ more) failures only_timeouts w =
    let (r, w') = open_to k s a w in
    elim r [
      | ok sock ↦ (connected sock, w')
      | raise e ↦
          let rest =
            try_each k s more (failures ++ (a, e) ∷ []) (only_timeouts && is_timeout e) w' in
          if is_os_error e then rest else (passed_on e, w')
    ]

-- What `connect` raises: an exception, or `TimeoutError` or `OSError` with its message.
pub data Failure : Type 0 where
  raised : Exception → Failure
  timed_out : Exhausted → Failure
  unreachable : Exhausted → Failure

-- The loop of `connect` that checks every address again.
unfoldable pub check_all : Policy → List Address → Result Exception (Unit {0})
check_all p [] = ok tt
check_all p (a ∷ more) =
    let rest = check_all p more in
    elim (check_address p a.ip) [
      | ok _ ↦ rest
      | raise (ip, why) ↦ raise (refused (blocked_address (an_ip ip) (by_table why)))
    ]

-- What `connect` makes of the loop's end.
abbrev pub conclude : Policy → List Address → Ending → Result Failure ℕ
conclude p addresses (connected sock) = ok sock
conclude p addresses (passed_on e) = raise (raised e)
conclude p addresses (all_failed failures only_timeouts) =
    let message =
      exhausted failures (length addresses - length (take p.max_connection_attempts addresses))
        p.max_connection_attempts in
    if only_timeouts then raise (timed_out message) else raise (unreachable message)

-- `connect` of at least one address, once they are checked
unfoldable pub connect_checked :
    Kernel → Policy → Settings → List Address → World → Result Failure ℕ × World
connect_checked k p s addresses w =
    let (ending, w') = try_each k s (take p.max_connection_attempts addresses) [] true w in
    (conclude p addresses ending, w')

-- `connect`
unfoldable pub connect :
    Kernel → Policy → Settings → List Address → World → Result Failure ℕ × World
connect k p s [] w = (raise (raised value_error), w)
connect k p s (a ∷ more) w = elim (check_all p (a ∷ more)) [
  | raise e ↦ (raise (raised e), w)
  | ok _ ↦ connect_checked k p s (a ∷ more) w
]
