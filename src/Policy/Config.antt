-- ===== src/Policy/Config.antt =====
-- `Policy` of src/ssrfguard/_policy.py and its `__post_init__`.
use ssrfguard.Base.{
  ℕ, Bool, true, false, not, ◌&&◌, ◌||◌, leb, ltb, List, [], ◌∷◌, Option, none, some, Text, codes,
  text_eq, lower, map, any, keep, Result, ok, raise, ◌>>◌, raise_if, ℤ, is_below, to_ℕ,
  if◌then◌else◌,
}
use ssrfguard.Net.{version_eq, IpNetwork, subnet_of}
use ssrfguard.Registry.Defs.{Block, is_translated}
use ssrfguard.Address.Defs.{AddressTable}
use ssrfguard.Policy.Platform.{Platform}
use ssrfguard.Policy.Hosts.{as_host_patterns}

-- The fields as the caller gives them.
pub record PolicyArgs : Type 0 where
  pub allowed_schemes : List Text
  pub denied_networks : AddressTable
  pub allowed_networks : List IpNetwork
  pub allowed_ports : List ℤ
  pub allowed_hosts : List Text
  pub allow_userinfo : Bool
  pub on_partial_block : Text
  pub max_redirects : ℤ
  pub max_connection_attempts : ℤ
  pub sensitive_headers : List Text
  pub allow_proxy : Bool
  pub max_url_length : ℤ

-- The fields after `__post_init__`, which has refused every negative number.
pub record Policy : Type 0 where
  pub allowed_schemes : List Text
  pub denied_networks : AddressTable
  pub allowed_networks : List IpNetwork
  pub allowed_ports : List ℕ
  pub allowed_hosts : List Text
  pub allow_userinfo : Bool
  pub on_partial_block : Text
  pub max_redirects : ℕ
  pub max_connection_attempts : ℕ
  pub sensitive_headers : List Text
  pub allow_proxy : Bool
  pub max_url_length : ℕ

-- Which check of `__post_init__` raised `ValueError`.
pub data ConfigError : Type 0 where
  bad_host_pattern empty_schemes empty_ports bad_port bad_partial_block : ConfigError
  bad_max_redirects bad_max_attempts bad_max_length : ConfigError
  allows_translation : IpNetwork → Block → ConfigError

abbrev pub is_nil {ℓ} : {A : Type ℓ} → List A → Bool
is_nil [] = true
is_nil (_ ∷ _) = false

-- `_LOWEST_PORT <= port <= _HIGHEST_PORT`
abbrev pub is_port : ℕ → Bool
is_port port = leb 1 port && leb port 65535

abbrev pub is_port_arg : ℤ → Bool
is_port_arg port = not (is_below port 1) && leb (to_ℕ port) 65535

-- `_wholly_inside`
unfoldable pub wholly_inside : IpNetwork → IpNetwork → Bool
unfolding subnet_of
wholly_inside inner outer = version_eq inner.version outer.version && subnet_of inner outer

-- `max(blocks, key=prefixlen)`: the first of the longest
unfoldable pub longest_from : Block → List Block → Block
longest_from best [] = best
longest_from best (b ∷ bs) =
    longest_from (if ltb best.network.prefixlen b.network.prefixlen then b else best) bs

-- `_deciding_block`
unfoldable pub deciding_block : AddressTable → IpNetwork → Option Block
unfolding wholly_inside longest_from
deciding_block t network = elim (keep (λ b. wholly_inside network b.network) t.blocks) [
  | [] ↦ none
  | b ∷ bs ↦ some (longest_from b bs)
]

-- `_reject_allowing_a_translation_prefix`
unfoldable pub reject_translation : AddressTable → List IpNetwork → Result ConfigError (Unit {0})
unfolding deciding_block
reject_translation t [] = ok tt
reject_translation t (n ∷ ns) =
    let rest = reject_translation t ns in
    elim (deciding_block t n) [
      | none ↦ rest
      | some b ↦ if is_translated b.reach then raise (allows_translation n b) else rest
    ]

abbrev pub reject_text : Text
reject_text = codes "reject"

abbrev pub drop_text : Text
drop_text = codes "drop"

-- The fields that `__post_init__` leaves, with the normalised hosts.
abbrev pub accepted_policy : PolicyArgs → List Text → Policy
accepted_policy a hosts = record {
  allowed_schemes = map lower a.allowed_schemes;
  denied_networks = a.denied_networks;
  allowed_networks = a.allowed_networks;
  allowed_ports = map to_ℕ a.allowed_ports;
  allowed_hosts = hosts;
  allow_userinfo = a.allow_userinfo;
  on_partial_block = a.on_partial_block;
  max_redirects = to_ℕ a.max_redirects;
  max_connection_attempts = to_ℕ a.max_connection_attempts;
  sensitive_headers = map lower a.sensitive_headers;
  allow_proxy = a.allow_proxy;
  max_url_length = to_ℕ a.max_url_length;
}

-- The checks of `__post_init__` that follow the normalisation of the hosts.
unfoldable pub check_args : PolicyArgs → List Text → Result ConfigError Policy
check_args a hosts = do
  raise_if (is_nil a.allowed_schemes) empty_schemes
  raise_if (is_nil a.allowed_ports) empty_ports
  raise_if (any (λ p. not (is_port_arg p)) a.allowed_ports) bad_port
  raise_if (not (text_eq a.on_partial_block reject_text || text_eq a.on_partial_block drop_text))
      bad_partial_block
  raise_if (is_below a.max_redirects 0) bad_max_redirects
  raise_if (is_below a.max_connection_attempts 1) bad_max_attempts
  raise_if (is_below a.max_url_length 1) bad_max_length
  reject_translation a.denied_networks a.allowed_networks
  ok (accepted_policy a hosts)

-- `Policy(…)`, that is `__post_init__`; `_as_networks` has already parsed the networks
unfoldable pub new_policy : Platform → PolicyArgs → Result ConfigError Policy
new_policy py a = elim (as_host_patterns py a.allowed_hosts) [
  | none ↦ raise bad_host_pattern
  | some hosts ↦ check_args a hosts
]

-- Whether `on_partial_block` asks to refuse a name whole.
abbrev pub rejects_partial : Policy → Bool
rejects_partial p = text_eq p.on_partial_block reject_text
