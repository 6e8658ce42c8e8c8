-- ===== src/Stub/Ready.antt =====
-- What the checks of `UdpResolver` of src/ssrfguard/resolvers.py accept.
use ssrfguard.Base.{
  ℕ, ◌≤◌, ◌≡◌, ◌≢◌, refl, subst, ◌⊎◌, inl, inr, Bool, true, false, List, [], ◌∷◌, none, some, codes,
  Text, text_eq, All, to_ℕ, is_below, ℤ, pos, negsuc, Result, ok, raise, Bool-cases, Option-cases,
  arith,
}
use ssrfguard.Stub.Network.{Names}
use ssrfguard.Stub.Config.{
  ResolverArgs, UdpResolver, Misfit, first_bad, is_address, is_family_of, is_no, check_families,
  check_numbers, check_fields, resolver_of, new_resolver, servers_of_line, servers_of_lines,
  nameservers_from_resolv_conf,
}

-- A resolver that can be asked.
pub record IsReady (names : Names) (args : ResolverArgs) (r : UdpResolver) : Type 0 where
  pub same : r ≡ resolver_of args
  pub some_server : r.nameservers ≢ []
  pub addresses : All (λ s. is_address s ≡ true) r.nameservers
  pub some_time : 1 ≤ r.timeout
  pub some_attempt_time : 1 ≤ r.attempt_timeout
  pub some_attempt : 1 ≤ r.attempts
  pub some_family : r.families ≢ []
  pub families : All (λ f. is_family_of names f ≡ true) r.families

first_bad-none {ℓ} :
    {A : Type ℓ} (good : A → Bool) (xs : List A)
    → first_bad good xs ≡ none
    → All (λ x. good x ≡ true) xs
first_bad-none good [] h = tt
first_bad-none good (x ∷ xs) h = elim (Bool-cases (good x)) [
  | inl fine ↦ (fine, first_bad-none good xs (rw fine at h))
  | inr bad ↦ absurd (cc (rw bad at h))
]

is_no-false {ℓ} : {A : Type ℓ} (xs : List A) → is_no xs ≡ false → xs ≢ []
is_no-false [] h same = absurd (cc)
is_no-false (x ∷ xs) h same = absurd (cc)

is_below-one : (i : ℤ) → is_below i 1 ≡ false → 1 ≤ to_ℕ i
is_below-one (pos n) h = ground arith
is_below-one (negsuc n) h = absurd (cc)

check_families-ok :
    (names : Names) (families : List ℕ) {u : Unit {0}}
    → check_families names families ≡ ok u
    → (families ≢ []) × All (λ f. is_family_of names f ≡ true) families
check_families-ok names families h = elim (Bool-cases (is_no families)) [
  | inl empty ↦ absurd (cc (rw empty at h))
  | inr filled ↦ elim (Option-cases (first_bad (is_family_of names) families)) [
    | inr (f, e) ↦ absurd (cc (rw (filled, e) at h))
    | inl e ↦ (is_no-false families filled, first_bad-none (is_family_of names) families e)
  ]
]

check_numbers-ok :
    (names : Names) (args : ResolverArgs) {u : Unit {0}}
    → check_numbers names args ≡ ok u
    → (1 ≤ to_ℕ args.timeout)
      × (1 ≤ to_ℕ args.attempt_timeout)
      × (1 ≤ to_ℕ args.attempts)
      × (check_families names args.families ≡ ok u)
check_numbers-ok names args h = elim (Bool-cases (is_below args.timeout 1)) [
  | inl low ↦ absurd (cc (rw low at h))
  | inr a ↦ elim (Bool-cases (is_below args.attempt_timeout 1)) [
    | inl low ↦ absurd (cc (rw (a, low) at h))
    | inr b ↦ elim (Bool-cases (is_below args.attempts 1)) [
      | inl low ↦ absurd (cc (rw (a, b, low) at h))
      | inr c ↦ (
        is_below-one args.timeout a,
        is_below-one args.attempt_timeout b,
        is_below-one args.attempts c,
        rw (a, b, c) at h,
      )
    ]
  ]
]

Checked-cases : (x : Result Misfit (Unit {0})) → (x ≡ ok tt) ⊎ ((e : Misfit) × (x ≡ raise e))
Checked-cases (ok tt) = inl refl
Checked-cases (raise e) = inr (e, refl)

-- A `UdpResolver` that is constructed has the fields it was given, at least one nameserver, each an
-- address, a positive timeout for a call and for an attempt, at least one attempt, and at least
-- one family, each IPv4 or IPv6.
pub new_resolver-IsReady :
    (names : Names) (args : ResolverArgs) (r : UdpResolver)
    → new_resolver names args ≡ ok r
    → IsReady names args r
unfolding new_resolver check_fields
new_resolver-IsReady names args r h = elim (Checked-cases (check_fields names args)) [
  | inr (e, failed) ↦ absurd (cc (rw (new_resolver, failed) at h))
  | inl passed ↦ elim (Bool-cases (is_no args.nameservers)) [
    | inl empty ↦ absurd (cc (rw (check_fields, empty) at passed))
    | inr filled ↦ elim (Option-cases (first_bad is_address args.nameservers)) [
      | inr (s, e) ↦ absurd (cc (rw (check_fields, filled, e) at passed))
      | inl e ↦
          let (time, attempt_time, attempts, rest) =
            check_numbers-ok names args (rw (check_fields, filled, e) at passed) in
          let (some_family, families) = check_families-ok names args.families rest in
          subst (IsReady names args) (cc (rw (new_resolver, passed) at h)) (record {
            same = refl;
            some_server = is_no-false args.nameservers filled;
            addresses = first_bad-none is_address args.nameservers e;
            some_time = time;
            some_attempt_time = attempt_time;
            some_attempt = attempts;
            some_family = some_family;
            families = families;
          })
    ]
  ]
]

good_line :
    (line later : List Text)
    → first_bad is_address later ≡ none
    → first_bad is_address (servers_of_line line later) ≡ none
unfolding servers_of_line
good_line [] later h = h
good_line (keyword ∷ []) later h = h
good_line (keyword ∷ (server ∷ more)) later h =
    elim (Bool-cases (text_eq keyword (codes "nameserver"))) [
      | inr other ↦ rw other h
      | inl same ↦ elim (Bool-cases (is_address server)) [
        | inl address ↦ rw (same, address, address) h
        | inr name ↦ rw (same, name) h
      ]
    ]

good_lines : (lines : List (List Text)) → first_bad is_address (servers_of_lines lines) ≡ none
unfolding servers_of_lines
good_lines [] = refl
good_lines (line ∷ more) = good_line line (servers_of_lines more) (good_lines more)

-- The nameservers that `nameservers_from_resolv_conf` reads pass the checks of a `UdpResolver`: what
-- its construction with them does depends on the other fields alone.
nameservers-accepted :
    (names : Names) (args : ResolverArgs) (lines : List (List Text)) (servers : List Text)
    → nameservers_from_resolv_conf lines ≡ some servers
    → check_fields names (record args { nameservers = servers }) ≡ check_numbers names args
unfolding nameservers_from_resolv_conf check_fields
nameservers-accepted names args lines servers h =
    elim (Bool-cases (is_no (servers_of_lines lines))) [
      | inl empty ↦ absurd (cc (rw (nameservers_from_resolv_conf, empty) at h))
      | inr filled ↦
          let same : servers_of_lines lines ≡ servers =
            cc (rw (nameservers_from_resolv_conf, filled) at h) in
          subst
            (λ found.
              check_fields names (record args { nameservers = found }) ≡ check_numbers names args)
            same (rw (check_fields, filled, good_lines lines) refl)
    ]
