-- ===== src/Stub/Config.antt =====
-- `UdpResolver` of src/ssrfguard/resolvers.py as it is configured: its fields, `__post_init__`,
-- `nameservers_from_resolv_conf`, and what it reads of a host.
use ssrfguard.Base.{
  ℕ, Bool, true, false, not, ◌||◌, ◌==◌, List, [], ◌∷◌, Option, none, some, codes, Text, text_eq, ℤ,
  is_below, to_ℕ, Result, ok, raise, if◌then◌else◌,
}
use ssrfguard.Net.{IpAddress, v4, v6}
use ssrfguard.Net.Parse.{ip_address}
use ssrfguard.Stub.Network.{Names}

-- The fields as a caller gives them.
pub record ResolverArgs : Type 0 where
  pub nameservers : List Text
  pub timeout : ℤ
  pub attempt_timeout : ℤ
  pub attempts : ℤ
  pub families : List ℕ
  pub nameserver_port : ℕ

-- `UdpResolver`
pub record UdpResolver : Type 0 where
  pub nameservers : List Text
  pub timeout : ℕ
  pub attempt_timeout : ℕ
  pub attempts : ℕ
  pub families : List ℕ
  pub nameserver_port : ℕ

-- The `ValueError`s of `__post_init__`.
pub data Misfit : Type 0 where
  no_nameservers : Misfit
  not_an_address : Text → Misfit
  timeout_not_positive attempt_timeout_not_positive : Misfit
  too_few_attempts no_families : Misfit
  not_a_family : ℕ → Misfit

abbrev pub is_none {ℓ} : {A : Type ℓ} → Option A → Bool
is_none none = true
is_none (some _) = false

-- The first element that fails a test.
abbrev pub first_bad {ℓ} : {A : Type ℓ} → (A → Bool) → List A → Option A
first_bad good [] = none
first_bad good (a ∷ more) = let later = first_bad good more in if good a then later else some a

abbrev pub is_address : Text → Bool
is_address server = not (is_none (ip_address server))

abbrev pub is_family_of : Names → ℕ → Bool
is_family_of names family = family == names.af_inet || family == names.af_inet6

abbrev pub is_no {ℓ} : {A : Type ℓ} → List A → Bool
is_no [] = true
is_no (_ ∷ _) = false

abbrev pub check_families : Names → List ℕ → Result Misfit (Unit {0})
check_families names families =
    if is_no families then raise no_families else elim (first_bad (is_family_of names) families) [
      | some family ↦ raise (not_a_family family)
      | none ↦ ok tt
    ]

abbrev pub check_numbers : Names → ResolverArgs → Result Misfit (Unit {0})
check_numbers names args =
    if is_below args.timeout 1
    then raise timeout_not_positive
    else if is_below args.attempt_timeout 1
    then raise attempt_timeout_not_positive
    else if is_below args.attempts 1
    then raise too_few_attempts
    else check_families names args.families

-- `UdpResolver.__post_init__`
unfoldable pub check_fields : Names → ResolverArgs → Result Misfit (Unit {0})
check_fields names args =
    if is_no args.nameservers
    then raise no_nameservers
    else elim (first_bad is_address args.nameservers) [
      | some server ↦ raise (not_an_address server)
      | none ↦ check_numbers names args
    ]

abbrev pub resolver_of : ResolverArgs → UdpResolver
resolver_of args = record {
  nameservers = args.nameservers;
  timeout = to_ℕ args.timeout;
  attempt_timeout = to_ℕ args.attempt_timeout;
  attempts = to_ℕ args.attempts;
  families = args.families;
  nameserver_port = args.nameserver_port;
}

-- `UdpResolver(...)`
unfoldable pub new_resolver : Names → ResolverArgs → Result Misfit UdpResolver
new_resolver names args = elim (check_fields names args) [
  | raise e ↦ raise e
  | ok _ ↦ ok (resolver_of args)
]

-- What `nameservers_from_resolv_conf` takes of the fields of one line, in front of the later ones.
unfoldable pub servers_of_line : List Text → List Text → List Text
servers_of_line (keyword ∷ (server ∷ more)) later =
    if not (text_eq keyword (codes "nameserver"))
    then later
    else if is_address server
    then server ∷ later
    else later
servers_of_line (keyword ∷ []) later = later
servers_of_line [] later = later

unfoldable pub servers_of_lines : List (List Text) → List Text
servers_of_lines [] = []
servers_of_lines (line ∷ more) = servers_of_line line (servers_of_lines more)

-- `nameservers_from_resolv_conf` of the fields of each line; `none` is its `ValueError`.
unfoldable pub nameservers_from_resolv_conf : List (List Text) → Option (List Text)
nameservers_from_resolv_conf lines =
    let servers = servers_of_lines lines in if is_no servers then none else some servers

abbrev pub is_bracket : ℕ → Bool
is_bracket c = c == b'[' || c == b']'

-- `host.strip("[]")`
unfoldable pub lstrip_brackets : Text → Text
lstrip_brackets [] = []
lstrip_brackets (c ∷ cs) = let rest = lstrip_brackets cs in if is_bracket c then rest else c ∷ cs

unfoldable pub rstrip_brackets : Text → Text
rstrip_brackets [] = []
rstrip_brackets (c ∷ cs) = elim (rstrip_brackets cs) [
  | [] ↦ if is_bracket c then [] else c ∷ []
  | d ∷ ds ↦ c ∷ (d ∷ ds)
]

-- How `_literal` ends: an address, a name, or `gaierror` because `AI_NUMERICHOST` was given.
pub data HostKind : Type 0 where
  an_address : IpAddress → HostKind
  a_name not_numeric : HostKind

-- `_literal`
unfoldable pub literal : Text → Bool → HostKind
literal host numeric_only = elim (ip_address (rstrip_brackets (lstrip_brackets host))) [
  | some ip ↦ an_address ip
  | none ↦ if numeric_only then not_numeric else a_name
]

-- `_family_of`; `none` is the `ValueError` of a server that is no address.
unfoldable pub family_of : Names → Text → Option ℕ
family_of names server = elim (ip_address server) [
  | none ↦ none
  | some (v4 _) ↦ some names.af_inet
  | some (v6 _ _) ↦ some names.af_inet6
]
