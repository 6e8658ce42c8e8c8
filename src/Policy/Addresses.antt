-- ===== src/Policy/Addresses.antt =====
-- `check_address`, `permits_address` and `check_host` of src/ssrfguard/_policy.py.
use ssrfguard.Base.{
  ◌≡◌, refl, ◌↔◌, ◌⊎◌, inl, inr, Bool, true, false, ◌&&◌, List, Option, none, some, Text, any,
  Among, any-Among, Among-any, Result, ok, raise, if◌then◌else◌, arith,
}
use ssrfguard.Net.{IpAddress, IpNetwork, version_eq, version_of, contains}
use ssrfguard.Net.Laws.{contains-version, version_eq_iff}
use ssrfguard.Address.Defs.{classify, raise_if_blocked, BlockReason}
use ssrfguard.Address.Classify.{raise_if_blocked-ok_iff}
use ssrfguard.Errors.{verbatim, host_not_listed, Refusal, blocked_url}
use ssrfguard.Policy.Config.{Policy, is_nil}
use ssrfguard.Policy.Hosts.{host_is_allowed, nearest_pattern, literal_address}

abbrev pub holds : IpAddress → IpNetwork → Bool
holds a n = version_eq (version_of a) n.version && contains n a

-- `check_address`, of an address that is already parsed
unfoldable pub check_address : Policy → IpAddress → Result (IpAddress × BlockReason) (Unit {0})
check_address p a =
    if any (holds a) p.allowed_networks
    then ok tt
    else raise_if_blocked (classify p.denied_networks a)

-- `permits_address`
unfoldable pub permits_address : Policy → IpAddress → Bool
unfolding check_address
permits_address p a = elim (check_address p a) [ ok _ ↦ true | raise _ ↦ false ]

-- `_check_host_is_listed`
unfoldable pub check_host_is_listed : Policy → Text → Text → Bool → Result Refusal (Unit {0})
check_host_is_listed p url host literal =
    if host_is_allowed host p.allowed_hosts literal
    then ok tt
    else raise (
        blocked_url (verbatim url)
          (host_not_listed host p.allowed_hosts (nearest_pattern host p.allowed_hosts)))

abbrev pub is_some {ℓ} : {A : Type ℓ} → Option A → Bool
is_some none = false
is_some (some a) = true

-- `check_host`
unfoldable pub check_host : Policy → Text → Result Refusal (Unit {0})
unfolding check_host_is_listed
check_host p host =
    if is_nil p.allowed_hosts
    then ok tt
    else check_host_is_listed p host host (is_some (literal_address host))

-- The two ways in: an allowed network, or a table that does not block.
pub check_address-ok_iff :
    (p : Policy) (a : IpAddress)
    → (check_address p a ≡ ok tt) ↔ (
        (any (holds a) p.allowed_networks ≡ true)
        ⊎ ((classify p.denied_networks a).blocked ≡ false))
unfolding check_address
check_address-ok_iff p a = ground (arith, raise_if_blocked-ok_iff (classify p.denied_networks a))

pub permits_address-check_address :
    (p : Policy) (a : IpAddress) → (permits_address p a ≡ true) ↔ (check_address p a ≡ ok tt)
unfolding permits_address
permits_address-check_address p a = verdict (check_address p a)
  where
    verdict :
        (r : Result (IpAddress × BlockReason) (Unit {0}))
        → ((elim r as (λ _. Bool) [ ok _ ↦ true | raise _ ↦ false ]) ≡ true) ↔ (r ≡ ok tt)
    verdict (ok tt) = (λ _. refl, λ _. refl)
    verdict (raise e) = (λ h. cc, λ h. cc)

any_holds-contains :
    (a : IpAddress) (ns : List IpNetwork)
    → (any (holds a) ns ≡ true) ↔ ((n : IpNetwork) × Among n ns × (contains n a ≡ true))
any_holds-contains a ns = (to, λ (n, m, k). Among-any (holds a) ns n m (from n k))
  where
    to : any (holds a) ns ≡ true → (n : IpNetwork) × Among n ns × (contains n a ≡ true)
    to h = let (n, m, k) = any-Among (holds a) ns h in (n, m, ground arith)

    from : (n : IpNetwork) → contains n a ≡ true → holds a n ≡ true
    from n k =
        rw k (ground (arith, contains-version n a k, version_eq_iff (version_of a) n.version))

-- An address is permitted exactly when an allowed network holds it or the table does not block
-- it: an explicit allow beats a deny, and nothing else does.
pub permits_address_iff :
    (p : Policy) (a : IpAddress)
    → (permits_address p a ≡ true) ↔ (
        ((n : IpNetwork) × Among n p.allowed_networks × (contains n a ≡ true))
        ⊎ ((classify p.denied_networks a).blocked ≡ false))
permits_address_iff p a =
    let (there, back) = permits_address-check_address p a in
    let (to, from) = check_address-ok_iff p a in
    let (named, listed) = any_holds-contains a p.allowed_networks in
    (
      λ h. elim (to (there h)) [ inl e ↦ inl (named e) | inr e ↦ inr e ],
      λ m. elim m [ inl e ↦ back (from (inl (listed e))) | inr e ↦ back (from (inr e)) ],
    )
