-- ===== src/Policy/Url.antt =====
-- `Target`, `check_url` and its steps, of src/ssrfguard/_policy.py.
use ssrfguard.Base.{
  ℕ, ◌+◌, Bool, not, ◌&&◌, ◌||◌, ◌==◌, leb, ltb, [], ◌∷◌, Option, none, some, Text, codes, text_eq,
  lower, has_char, any, length, Result, ok, raise, ◌>>=◌, ◌>>◌, if◌then◌else◌,
}
use ssrfguard.Net.{IpAddress}
use ssrfguard.Errors.{
  verbatim, url_of_length, UrlReason, longer_than, control_character, not_parsed, no_scheme,
  scheme_not_allowed, carries_credentials, host_not_parsed, no_host, percent_in_host,
  encoded_address, malformed_host, unusable_port, no_default_port, not_a_port, port_not_allowed,
  address_refused, blocked_address, Refusal, blocked_url, blocked_address, Exception, refused,
}
use ssrfguard.Observer.Decision.{
  Decision, url_stage, Outcome, permits, refuses, Reason, of_url, of_refusal, of_address,
}
use ssrfguard.Observer.Redact.{redacted}
use ssrfguard.Observer.Report.{Observer, Log, report}
use ssrfguard.Policy.Platform.{Platform, SplitResult}
use ssrfguard.Policy.Config.{Policy, is_nil, is_port}
use ssrfguard.Policy.Hosts.{
  reject_overlong_host, normalise, numeric_shaped, well_formed_hostname, literal_address,
}
use ssrfguard.Policy.Addresses.{check_address, check_host_is_listed, is_some}

pub record Target : Type 0 where
  pub scheme : Text
  pub host : Text
  pub port : ℕ
  pub host_as_written : Text
  pub address : Option IpAddress

-- `is_literal_address`
abbrev pub is_literal_address : Target → Bool
is_literal_address t = is_some t.address

abbrev refuse {ℓ} : {A : Type ℓ} → Text → UrlReason → Result Refusal A
refuse url reason = raise (blocked_url (verbatim url) reason)

-- `_reject_overlong`
unfoldable pub reject_overlong : Policy → Text → Result Refusal (Unit {0})
reject_overlong p url =
    if ltb p.max_url_length (length url)
    then raise (blocked_url (url_of_length (length url)) (longer_than p.max_url_length))
    else ok tt

-- `[\x00-\x20\x7f]`
abbrev pub is_control : ℕ → Bool
is_control c = leb c 0x20 || c == 0x7f

-- `_CONTROL_CHARACTERS.search`: the first one and its offset, from `i`
unfoldable pub find_control : ℕ → Text → Option (ℕ × ℕ)
find_control i [] = none
find_control i (c ∷ cs) =
    let rest = find_control (i + 1) cs in if is_control c then some (c, i) else rest

-- `_reject_control_characters`
unfoldable pub reject_control_characters : Text → Result Refusal (Unit {0})
unfolding find_control
reject_control_characters url = elim (find_control 0 url) [
  | none ↦ ok tt
  | some (c, i) ↦ refuse url (control_character c i)
]

-- `_split`
unfoldable pub split : Platform → Text → Result Refusal SplitResult
split py url = elim (py.urlsplit url) [ some s ↦ ok s | none ↦ refuse url not_parsed ]

-- `_check_scheme`
unfoldable pub check_scheme : Policy → Text → SplitResult → Result Refusal Text
unfolding lower text_eq
check_scheme p url s =
    let scheme = lower s.scheme in
    if is_nil scheme
    then refuse url no_scheme
    else if any (text_eq scheme) p.allowed_schemes
    then ok scheme
    else refuse url (scheme_not_allowed scheme)

-- `_check_userinfo`
unfoldable pub check_userinfo : Policy → Text → SplitResult → Result Refusal (Unit {0})
check_userinfo p url s =
    if p.allow_userinfo
    then ok tt
    else if not (is_some s.username) && not (is_some s.password)
    then ok tt
    else refuse url carries_credentials

-- The end of `_check_host`, on the normalised host.
unfoldable pub check_host_shape :
    Text → Text → Text → Result Refusal (Text × Text × Option IpAddress)
check_host_shape url raw host =
    let numeric = numeric_shaped host in
    let named =
      if numeric
      then refuse url (encoded_address host)
      else if well_formed_hostname host
      then ok (host, raw, none)
      else refuse url (malformed_host host) in
    if numeric || has_char b':' host
    then elim (literal_address host) [ some a ↦ ok (host, raw, some a) | none ↦ named ]
    else named

-- `_check_host`
unfoldable pub check_host_of :
    Platform → Text → SplitResult → Result Refusal (Text × Text × Option IpAddress)
check_host_of py url s = elim s.hostname [
  | none ↦ refuse url host_not_parsed
  | some none ↦ refuse url no_host
  | some (some raw) ↦
      if is_nil raw
      then refuse url no_host
      else if has_char b'%' raw
      then refuse url percent_in_host
      else (do reject_overlong_host raw; host ← normalise py url raw; check_host_shape url raw host)
]

-- `_DEFAULT_PORTS.get`
unfoldable pub default_port : Text → Option ℕ
unfolding text_eq
default_port scheme =
    if text_eq scheme (codes "http") || text_eq scheme (codes "ws")
    then some 80
    else if text_eq scheme (codes "https") || text_eq scheme (codes "wss")
    then some 443
    else none

-- `_check_port`, once the port is known
unfoldable pub check_known_port : Policy → Text → ℕ → Result Refusal ℕ
check_known_port p url port =
    if not (is_port port)
    then refuse url (not_a_port port)
    else if any (λ q. q == port) p.allowed_ports
    then ok port
    else refuse url (port_not_allowed port)

-- `_check_port`
unfoldable pub check_port : Policy → Text → SplitResult → Text → Result Refusal ℕ
unfolding check_known_port default_port
check_port p url s scheme = elim s.port [
  | none ↦ refuse url unusable_port
  | some (some port) ↦ check_known_port p url port
  | some none ↦ elim (default_port scheme) [
    | none ↦ refuse url (no_default_port scheme)
    | some port ↦ check_known_port p url port
  ]
]

-- The two tests that `_decide` makes last.
unfoldable pub check_listed : Policy → Text → Text → Option IpAddress → Result Refusal (Unit {0})
check_listed p url host address =
    if is_nil p.allowed_hosts then ok tt else check_host_is_listed p url host (is_some address)

unfoldable pub check_literal : Policy → Text → Option IpAddress → Result Refusal (Unit {0})
check_literal p url none = ok tt
check_literal p url (some a) = elim (check_address p a) [
  | ok _ ↦ ok tt
  | raise (_, reason) ↦ refuse url (address_refused reason)
]

-- `_decide`
unfoldable pub decide : Platform → Policy → Text → Result Refusal Target
decide py p url = do
  reject_overlong p url
  reject_control_characters url
  s ← split py url
  scheme ← check_scheme p url s
  check_userinfo p url s
  (host, as_written, address) ← check_host_of py url s
  port ← check_port p url s scheme
  check_listed p url host address
  check_literal p url address
  ok (record {
    scheme = scheme;
    host = host;
    port = port;
    host_as_written = as_written;
    address = address;
  })

abbrev reason_of : Refusal → Reason
reason_of (blocked_url _ reason) = of_url reason
reason_of (blocked_address _ reason) = of_address reason
reason_of other = of_refusal other

abbrev url_record : Text → Outcome → Option Reason → Decision
url_record url outcome reason = record {
  stage = url_stage;
  outcome = outcome;
  reason = reason;
  url = some (redacted url);
  host = none;
  port = none;
  address = none;
  chain = [];
  also_seen = [];
}

-- The record that `check_url` reports.
unfoldable pub url_decision : Text → Result Refusal Target → Decision
url_decision url (raise r) = url_record url refuses (some (reason_of r))
url_decision url (ok t) = record (url_record url permits none) {
  host = some t.host;
  port = some t.port;
  address = t.address;
}

abbrev pub lift {ℓ} : {A : Type ℓ} → Result Refusal A → Result Exception A
lift (ok a) = ok a
lift (raise r) = raise (refused r)

-- `check_url`: what it returns or raises, and the log of what it reported
unfoldable pub check_url :
    Platform → Policy → Text → Option Observer → Log → Result Exception Target × Log
unfolding report
check_url py p url observer log =
    let verdict = decide py p url in
    let (reported, log') = report observer (url_decision url verdict) log in
    (reported >> lift verdict, log')
