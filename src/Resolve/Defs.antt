-- ===== src/Resolve/Defs.antt =====
-- The definitions of src/ssrfguard/_resolve.py.
use ssrfguard.Base.{
  ℕ, Bool, true, false, not, ◌&&◌, ◌==◌, List, [], ◌∷◌, ◌++◌, Option, none, some, Text, text_eq,
  any, map, Result, ok, raise, ◌>>=◌, if◌then◌else◌,
}
use ssrfguard.Net.{IpAddress}
use ssrfguard.Net.Parse.{ip_address}
use ssrfguard.Address.Defs.{BlockReason}
use ssrfguard.Errors.{
  an_ip, a_host, by_table, all_refused, resolves_both, Refusal, blocked_address, Exception, refused,
  value_error, gaierror,
}
use ssrfguard.Observer.Decision.{Decision, address_stage, permits, refuses, of_address}
use ssrfguard.Observer.Report.{Observer, Log, report}
use ssrfguard.Policy.Config.{Policy, rejects_partial}
use ssrfguard.Policy.Addresses.{check_address}
use ssrfguard.Policy.Url.{Target, is_literal_address}

-- A socket address: two elements for IPv4, and for IPv6 also the flow label and the scope.
pub record SockAddr : Type 0 where
  pub host : Text
  pub port : ℕ
  pub rest : List ℕ

-- One row of a resolver's answer.
pub record ResolverAnswer : Type 0 where
  pub family : ℕ
  pub socktype : ℕ
  pub proto : ℕ
  pub canonname : Text
  pub sockaddr : SockAddr

-- `socket.getaddrinfo` or the caller's stand-in: host, port, and whether `AI_NUMERICHOST` is set.
-- `is_family` says which numbers `socket.AddressFamily` knows.
pub record Resolver : Type 0 where
  pub lookup : Text → ℕ → Bool → Result Exception (List ResolverAnswer)
  pub is_family : ℕ → Bool

-- One validated answer.
pub record Address : Type 0 where
  pub family : ℕ
  pub sockaddr : SockAddr
  pub ip : IpAddress
  pub hostname : Text

-- The key by which an answer counts as seen.
pub record Key : Type 0 where
  pub family : ℕ
  pub sockaddr : SockAddr

abbrev pub key_of : ResolverAnswer → Key
key_of r = record { family = r.family; sockaddr = r.sockaddr }

abbrev pub key_of_address : Address → Key
key_of_address a = record { family = a.family; sockaddr = a.sockaddr }

abbrev pub numbers_eq : List ℕ → List ℕ → Bool
numbers_eq xs ys = text_eq xs ys

-- `key == key`
unfoldable pub key_eq : Key → Key → Bool
key_eq j k =
    j.family == k.family
    && (text_eq j.sockaddr.host k.sockaddr.host
        && (j.sockaddr.port == k.sockaddr.port && numbers_eq j.sockaddr.rest k.sockaddr.rest))

-- The loop of `_addresses_from`.
unfoldable pub addresses_after :
    Resolver → Text → List Key → List ResolverAnswer → Result Exception (List Address)
addresses_after r hostname seen [] = ok []
addresses_after r hostname seen (info ∷ infos) =
    let skip = addresses_after r hostname seen infos in
    let later = addresses_after r hostname (key_of info ∷ seen) infos in
    if any (key_eq (key_of info)) seen
    then skip
    else if not (r.is_family info.family)
    then raise value_error
    else elim (ip_address info.sockaddr.host) [
      | none ↦ raise value_error
      | some ip ↦ do
        rest ← later
        ok (
            record { family = info.family; sockaddr = info.sockaddr; ip = ip; hostname = hostname }
            ∷ rest)
    ]

-- `_addresses_from`
abbrev pub addresses_from : Resolver → List ResolverAnswer → Text → Result Exception (List Address)
addresses_from r infos hostname = addresses_after r hostname [] infos

abbrev pub Denied : Type 0
Denied = List (Address × BlockReason)

-- The two lists that the loop of `resolve` fills.
pub record Sifted : Type 0 where
  pub permitted : List Address
  pub denied : Denied

abbrev ip_and_reason : Address × BlockReason → IpAddress × BlockReason
ip_and_reason (a, why) = (a.ip, why)

-- `_refuse_all_denied`; the loop has denied every answer, and there is one at least, so the first
-- case is not met
unfoldable pub refuse_all_denied : Target → Denied → Refusal
refuse_all_denied t [] = blocked_address (a_host t.host) (all_refused [])
refuse_all_denied t ((a, why) ∷ []) = blocked_address (an_ip a.ip) (by_table why)
refuse_all_denied t (d ∷ (e ∷ es)) =
    blocked_address (a_host t.host) (all_refused (map ip_and_reason (d ∷ (e ∷ es))))

-- `_refuse_partial`
unfoldable pub refuse_partial : Target → List Address → Denied → Refusal
refuse_partial t permitted denied =
    blocked_address (a_host t.host)
      (resolves_both (map (λ a. a.ip) permitted) (map ip_and_reason denied))

-- What `check_address` said of an answer, as the record that is reported.
unfoldable pub address_decision :
    Target → Address → Result (IpAddress × BlockReason) (Unit {0}) → Decision
address_decision t a verdict = record {
  stage = address_stage;
  outcome = elim verdict [ ok _ ↦ permits | raise _ ↦ refuses ];
  reason = elim verdict [ ok _ ↦ none | raise (_, why) ↦ some (of_address (by_table why)) ];
  url = none;
  host = some t.host;
  port = some t.port;
  address = some a.ip;
  chain = [];
  also_seen = [];
}

abbrev pub sort_answer : Sifted → Address → Result (IpAddress × BlockReason) (Unit {0}) → Sifted
sort_answer s a (ok _) = record s { permitted = s.permitted ++ a ∷ [] }
sort_answer s a (raise (_, why)) = record s { denied = s.denied ++ (a, why) ∷ [] }

-- The loop of `resolve` over the answers.
unfoldable pub sift :
    Policy → Target → Option Observer → List Address → Sifted → Log → Result Exception Sifted × Log
sift p t observer [] s log = (ok s, log)
sift p t observer (a ∷ more) s log =
    let verdict = check_address p a.ip in
    let (reported, log') = report observer (address_decision t a verdict) log in
    let rest = sift p t observer more (sort_answer s a verdict) log' in
    elim reported [ ok _ ↦ rest | raise e ↦ (raise e, log') ]

abbrev pub is_nil {ℓ} : {A : Type ℓ} → List A → Bool
is_nil [] = true
is_nil (_ ∷ _) = false

-- What `resolve` makes of the two lists.
unfoldable pub settle : Policy → Target → Sifted → Result Exception (List Address)
settle p t s =
    if is_nil s.permitted
    then raise (refused (refuse_all_denied t s.denied))
    else if not (is_nil s.denied) && rejects_partial p
    then raise (refused (refuse_partial t s.permitted s.denied))
    else ok s.permitted

abbrev pub nothing_sifted : Sifted
nothing_sifted = record { permitted = []; denied = [] }

-- `resolve` from the distinct answers on.
unfoldable pub resolve_answers :
    Policy → Target → Option Observer → List Address → Log → Result Exception (List Address) × Log
resolve_answers p t observer answers log =
    let (sifted, log') = sift p t observer answers nothing_sifted log in
    (sifted >>= settle p t, log')

-- `resolve`: what it returns or raises, and the log of what it reported
unfoldable pub resolve :
    Resolver → Policy → Target → Option Observer → Log → Result Exception (List Address) × Log
resolve r p t observer log =
    elim (r.lookup t.host t.port (is_literal_address t) >>= λ infos.
    addresses_from r infos t.host) [
      | raise e ↦ (raise e, log)
      | ok answers ↦
          if is_nil answers then (raise gaierror, log) else resolve_answers p t observer answers log
    ]
