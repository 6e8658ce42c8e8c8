-- ===== src/Policy/Valid.antt =====
-- What a policy that `Policy.__post_init__` of src/ssrfguard/_policy.py accepts guarantees.
use ssrfguard.Base.{
  sym, ◌↔◌, ltb, leb, keep, Among, Among-keep, List-cases, split_and, ℕ, ◌≤◌, ◌≡◌, ◌≢◌, refl, ap,
  ◌∙◌, subst, ◌⊎◌, inl, inr, true, false, not, ◌||◌, List, [], ◌∷◌, some, none, if◌then◌else◌, Text,
  text_eq, text_eq_iff, lower, map, any, All, Bool-cases, Option-cases, ℤ, pos, negsuc, is_below,
  to_ℕ, ok, raise_if, raise_if-eq-ok, >>-eq-ok, ok-injective, arith,
}
use ssrfguard.Net.{Version, ipv4, ipv6, version_eq, IpNetwork, last_address, subnet_of}
use ssrfguard.Registry.Defs.{Block, translated, is_translated}
use ssrfguard.Address.Defs.{AddressTable}
use ssrfguard.Policy.Platform.{Platform}
use ssrfguard.Policy.Hosts.{as_host_patterns}
use ssrfguard.Policy.Config.{
  PolicyArgs, Policy, empty_schemes, empty_ports, bad_port, bad_partial_block, bad_max_redirects,
  bad_max_attempts, bad_max_length, is_nil, is_port_arg, wholly_inside, longest_from,
  deciding_block, reject_translation, reject_text, drop_text, check_args, new_policy,
}

-- A row around a whole network.
pub record IsAround (n : IpNetwork) (b : Block) : Type 0 where
  pub same_version : b.network.version ≡ n.version
  pub starts : b.network.base ≤ n.base
  pub ends : last_address n ≤ last_address b.network

-- The most specific row around a whole network.
pub record IsDeciding (blocks : List Block) (n : IpNetwork) (b : Block) : Type 0 where
  pub listed : Among b blocks
  pub around : IsAround n b
  pub longest :
      (c : Block) → Among c blocks → IsAround n c → c.network.prefixlen ≤ b.network.prefixlen

-- A network that no row is around, or around which a most specific row is no translation prefix.
abbrev pub IsPlain : List Block → IpNetwork → Type 0
IsPlain blocks n =
    ((b : Block) → Among b blocks → ¬ (IsAround n b))
    ⊎ ((b : Block) × IsDeciding blocks n b × (b.reach ≢ translated))

-- What holds of an accepted policy, and of the arguments it is made from.
pub record IsValid (a : PolicyArgs) (p : Policy) : Type 0 where
  pub some_schemes : p.allowed_schemes ≢ []
  pub some_ports : p.allowed_ports ≢ []
  pub ports : All (λ q. (1 ≤ q) × (q ≤ 65535)) p.allowed_ports
  pub partial : (p.on_partial_block ≡ reject_text) ⊎ (p.on_partial_block ≡ drop_text)
  pub redirects : a.max_redirects ≡ pos p.max_redirects
  pub attempts :
      (a.max_connection_attempts ≡ pos p.max_connection_attempts) × (1 ≤ p.max_connection_attempts)
  pub url_length : (a.max_url_length ≡ pos p.max_url_length) × (1 ≤ p.max_url_length)
  pub no_translation : All (IsPlain a.denied_networks.blocks) p.allowed_networks

not_below : (i : ℤ) (n : ℕ) → is_below i n ≡ false → (i ≡ pos (to_ℕ i)) × (n ≤ to_ℕ i)
not_below (pos m) n h = (refl, ground arith)
not_below (negsuc m) n h = absurd (cc)

map_nonempty : {A B : Type 0} (f : A → B) (xs : List A) → is_nil xs ≡ false → map f xs ≢ []
map_nonempty f [] h e = absurd (cc)
map_nonempty f (x ∷ xs) h e = absurd (cc)

ports_in_range :
    (ports : List ℤ)
    → any (λ p. not (is_port_arg p)) ports ≡ false
    → All (λ q. (1 ≤ q) × (q ≤ 65535)) (map to_ℕ ports)
ports_in_range [] h = tt
ports_in_range (pos m ∷ ports) h =
    ((ground arith, ground arith), ports_in_range ports (ground arith))
ports_in_range (negsuc m ∷ ports) h = absurd (cc)

version_eq_iff : (v w : Version) → (version_eq v w ≡ true) ↔ (v ≡ w)
version_eq_iff ipv4 ipv4 = (λ h. refl, λ h. refl)
version_eq_iff ipv6 ipv6 = (λ h. refl, λ h. refl)
version_eq_iff ipv4 ipv6 = (λ h. cc, λ h. cc)
version_eq_iff ipv6 ipv4 = (λ h. cc, λ h. cc)

wholly_inside_iff : (n : IpNetwork) (b : Block) → (wholly_inside n b.network ≡ true) ↔ IsAround n b
unfolding wholly_inside subnet_of
wholly_inside_iff n b = (to, from)
  where
    to : wholly_inside n b.network ≡ true → IsAround n b
    to h =
        let (version, rest) = split_and (version_eq n.version b.network.version) _ h in
        let (starts, ends) = split_and (leb b.network.base n.base) _ rest in
        record {
          same_version = sym ((version_eq_iff n.version b.network.version).0 version);
          starts = ground arith;
          ends = ground arith;
        }

    from : IsAround n b → wholly_inside n b.network ≡ true
    from p =
        let version = (version_eq_iff n.version b.network.version).1 (sym p.same_version) in
        let starts : leb b.network.base n.base ≡ true = ground (arith, p.starts) in
        let ends : leb (last_address n) (last_address b.network) ≡ true = ground (arith, p.ends) in
        rw (version, starts) ends

-- A longest one of the blocks.
abbrev IsLongest : List Block → Block → Type 0
IsLongest bs best =
    Among best bs × ((c : Block) → Among c bs → c.network.prefixlen ≤ best.network.prefixlen)

longest_from-IsLongest :
    (best : Block) (bs : List Block) → IsLongest (best ∷ bs) (longest_from best bs)
unfolding longest_from
longest_from-IsLongest best [] =
    (inl refl, λ c m. elim m [ inl e ↦ rw e (omega arith) | inr n ↦ absurd (n tt) ])
longest_from-IsLongest best (b ∷ bs) =
    elim (Bool-cases (ltb best.network.prefixlen b.network.prefixlen)) [
      | inl longer ↦
          let (listed, longest) = longest_from-IsLongest b bs in
          let most = longest b (inl refl) in
          let same : longest_from best (b ∷ bs) ≡ longest_from b bs =
            ap (λ t. longest_from (if t then b else best) bs) longer in
          subst (IsLongest (best ∷ (b ∷ bs))) (sym same) (
            inr listed,
            λ c m. elim m [ inl e ↦ rw e (ground (arith, most)) | inr later ↦ longest c later ],
          )
      | inr shorter ↦
          let (listed, longest) = longest_from-IsLongest best bs in
          let most = longest best (inl refl) in
          let same : longest_from best (b ∷ bs) ≡ longest_from best bs =
            ap (λ t. longest_from (if t then b else best) bs) shorter in
          subst (IsLongest (best ∷ (b ∷ bs))) (sym same) (
            elim listed [ inl e ↦ inl e | inr m ↦ inr (inr m) ],
            λ c m. elim m [
              | inl e ↦ longest c (inl e)
              | inr (inl e) ↦ rw e (ground (arith, most))
              | inr (inr later) ↦ longest c (inr later)
            ],
          )
    ]

deciding_block-cases :
    (t : AddressTable) (n : IpNetwork)
    → ((deciding_block t n ≡ none) × ((b : Block) → Among b t.blocks → ¬ (IsAround n b)))
      ⊎ ((b : Block) × (deciding_block t n ≡ some b) × IsDeciding t.blocks n b)
unfolding deciding_block
deciding_block-cases t n =
    let test = λ (b : Block). wholly_inside n b.network in
    elim (List-cases (keep test t.blocks)) [
      | inl empty ↦ inl (
        rw (deciding_block, empty) refl,
        λ b m around.
            let kept = (Among-keep test b t.blocks).1 (m, (wholly_inside_iff n b).1 around) in
            absurd ((subst (Among b) empty kept) tt),
      )
      | inr (b, bs, e) ↦
          let (first, longest) = longest_from-IsLongest b bs in
          let best = longest_from b bs in
          let (listed, inside) =
            (Among-keep test best t.blocks).0 (subst (Among best) (sym e) first) in
          inr (
            best,
            rw (deciding_block, e) refl,
            record {
              listed = listed;
              around = (wholly_inside_iff n best).0 inside;
              longest = λ c m around. longest c (
                  subst (Among c) e
                    ((Among-keep test c t.blocks).1 (m, (wholly_inside_iff n c).1 around)));
            },
          )
    ]

reject_translation-ok :
    (t : AddressTable) (ns : List IpNetwork)
    → reject_translation t ns ≡ ok tt
    → All (IsPlain t.blocks) ns
unfolding reject_translation
reject_translation-ok t [] h = tt
reject_translation-ok t (n ∷ ns) h = elim (deciding_block-cases t n) [
  | inl (e, none_around) ↦
      (inl none_around, reject_translation-ok t ns (rw (reject_translation, e) at h))
  | inr (b, e, deciding) ↦ elim (Bool-cases (is_translated b.reach)) [
    | inl y ↦ absurd (cc (rw (reject_translation, e, y) at h))
    | inr plain ↦ (
      inr (b, deciding, λ r. absurd (cc (sym plain ∙ ap is_translated r))),
      reject_translation-ok t ns (rw (reject_translation, e, plain) at h),
    )
  ]
]

partial_text :
    (t : Text)
    → not (text_eq t reject_text || text_eq t drop_text) ≡ false
    → (t ≡ reject_text) ⊎ (t ≡ drop_text)
partial_text t h = elim (Bool-cases (text_eq t reject_text)) [
  | inl y ↦ inl ((text_eq_iff t reject_text).0 y)
  | inr n ↦ inr ((text_eq_iff t drop_text).0 (ground arith))
]

check_args-IsValid :
    (a : PolicyArgs) (hosts : List Text) (p : Policy) → check_args a hosts ≡ ok p → IsValid a p
unfolding check_args
check_args-IsValid a hosts p h =
    let (schemes, h1) = >>-eq-ok (raise_if (is_nil a.allowed_schemes) empty_schemes) _ h in
    let (ports, h2) = >>-eq-ok (raise_if (is_nil a.allowed_ports) empty_ports) _ h1 in
    let (range, h3) =
      >>-eq-ok (raise_if (any (λ p. not (is_port_arg p)) a.allowed_ports) bad_port) _ h2 in
    let (partial, h4) =
      >>-eq-ok
        (raise_if
          (not (text_eq a.on_partial_block reject_text || text_eq a.on_partial_block drop_text))
          bad_partial_block)
        _ h3 in
    let (redirects, h5) = >>-eq-ok (raise_if (is_below a.max_redirects 0) bad_max_redirects) _ h4 in
    let (attempts, h6) =
      >>-eq-ok (raise_if (is_below a.max_connection_attempts 1) bad_max_attempts) _ h5 in
    let (url_length, h7) = >>-eq-ok (raise_if (is_below a.max_url_length 1) bad_max_length) _ h6 in
    let (translation, h8) =
      >>-eq-ok (reject_translation a.denied_networks a.allowed_networks) _ h7 in
    subst (IsValid a) (ok-injective h8) (record {
      some_schemes = map_nonempty lower a.allowed_schemes (raise_if-eq-ok _ _ schemes);
      some_ports = map_nonempty to_ℕ a.allowed_ports (raise_if-eq-ok _ _ ports);
      ports = ports_in_range a.allowed_ports (raise_if-eq-ok _ _ range);
      partial = partial_text a.on_partial_block (raise_if-eq-ok _ _ partial);
      redirects = (not_below a.max_redirects 0 (raise_if-eq-ok _ _ redirects)).0;
      attempts = not_below a.max_connection_attempts 1 (raise_if-eq-ok _ _ attempts);
      url_length = not_below a.max_url_length 1 (raise_if-eq-ok _ _ url_length);
      no_translation = reject_translation-ok a.denied_networks a.allowed_networks translation;
    })

-- A policy that is accepted has at least one scheme and one port, only ports from 1 to 65535, one
-- of the two words for `on_partial_block`, and the three limits as they were given, with at least
-- one connection attempt and one character of URL; and each allowed network has no row of the denied
-- table around it, or is decided by one than which no such row is longer and which is no translation
-- prefix.
pub new_policy-IsValid :
    (py : Platform) (a : PolicyArgs) (p : Policy) → new_policy py a ≡ ok p → IsValid a p
unfolding new_policy
new_policy-IsValid py a p h = elim (Option-cases (as_host_patterns py a.allowed_hosts)) [
  | inl e ↦ absurd (cc (rw (new_policy, e) at h))
  | inr (hosts, e) ↦ check_args-IsValid a hosts p (rw (new_policy, e) at h)
]
