-- ===== src/Policy/Accepted.antt =====
-- What `check_url` of src/ssrfguard/_policy.py promises of a URL that it accepts, and what it
-- does with one that it refuses.
use ssrfguard.Base.{
  ℕ, ◌+◌, ◌≤◌, ◌≡◌, refl, ◌⊎◌, inl, inr, true, false, not, ◌==◌, [], ◌∷◌, Option, none, some, Text,
  has_char, any, all, length, ok, ◌>>=◌, >>=-eq-ok, >>-eq-ok, ok-injective, Option-cases, arith,
  text_eq, Among, any-Among, text_eq_iff, lower, sym, subst,
}
use ssrfguard.Net.{IpAddress}
use ssrfguard.Policy.Platform.{Platform, SplitResult}
use ssrfguard.Policy.Config.{Policy}
use ssrfguard.Policy.Hosts.{
  reject_overlong_host, normalise, well_formed_hostname, numeric_shaped, literal_address,
  host_is_allowed, longest_hostname,
}
use ssrfguard.Policy.Addresses.{check_host_is_listed, is_some, permits_address}
use ssrfguard.Policy.Literal.{check_host_shape-ok}
use ssrfguard.Policy.Url.{
  Target, reject_overlong, is_control, find_control, reject_control_characters, split, check_scheme,
  check_userinfo, check_host_shape, check_host_of, check_known_port, check_port, check_listed,
  check_literal, decide, default_port,
}

find_control-none :
    (i : ℕ) (t : Text) → find_control i t ≡ none → all (λ c. not (is_control c)) t ≡ true
unfolding find_control
find_control-none i [] h = refl
find_control-none i (c ∷ cs) h = ground (arith, find_control-none (i + 1) cs)

-- The parts of a URL that its acceptance speaks of, and what holds of them.
pub record IsAccepted (py : Platform) (p : Policy) (url : Text) (t : Target) : Type 0 where
  pub parts : SplitResult
  pub raw : Text
  pub short : length url ≤ p.max_url_length
  pub printable : all (λ c. not (is_control c)) url ≡ true
  pub parsed : py.urlsplit url ≡ some parts
  pub scheme_of : t.scheme ≡ lower parts.scheme
  pub scheme_allowed : Among t.scheme p.allowed_schemes
  pub no_credentials :
      (p.allow_userinfo ≡ true) ⊎ ((parts.username ≡ none) × (parts.password ≡ none))
  pub host_of : parts.hostname ≡ some (some raw)
  pub host_short : length raw ≤ longest_hostname
  pub no_percent : has_char b'%' raw ≡ false
  pub normalised : normalise py url raw ≡ ok t.host
  pub literal : t.address ≡ literal_address t.host
  pub named :
      (t.address ≡ none) → (well_formed_hostname t.host ≡ true) × (numeric_shaped t.host ≡ false)
  pub port_of :
      (parts.port ≡ some (some t.port))
      ⊎ ((parts.port ≡ some none) × (default_port t.scheme ≡ some t.port))
  pub port_range : (1 ≤ t.port) × (t.port ≤ 65535)
  pub port_allowed : any (λ q. q == t.port) p.allowed_ports ≡ true
  pub listed :
      (p.allowed_hosts ≡ []) ⊎ (host_is_allowed t.host p.allowed_hosts (is_some t.address) ≡ true)
  pub permitted : (a : IpAddress) → t.address ≡ some a → permits_address p a ≡ true

module _ (p : Policy) (url : Text) where
  scheme_ok :
      (s : SplitResult) (scheme : Text)
      → check_scheme p url s ≡ ok scheme
      → (scheme ≡ lower s.scheme) × Among scheme p.allowed_schemes
  unfolding check_scheme
  scheme_ok s scheme h =
      let same : scheme ≡ lower s.scheme = ground arith in
      let found' : any (text_eq (lower s.scheme)) p.allowed_schemes ≡ true = ground arith in
      let found : any (text_eq scheme) p.allowed_schemes ≡ true = rw same found' in
      let (x, m, e) = any-Among (text_eq scheme) p.allowed_schemes found in
      (same, rw ((text_eq_iff scheme x).0 e) m)

  userinfo_ok :
      (s : SplitResult)
      → check_userinfo p url s ≡ ok tt
      → (p.allow_userinfo ≡ true) ⊎ ((s.username ≡ none) × (s.password ≡ none))
  unfolding check_userinfo
  userinfo_ok s h = ground arith

  known_port_ok :
      (q port : ℕ)
      → check_known_port p url q ≡ ok port
      → (port ≡ q) × ((1 ≤ port) × (port ≤ 65535)) × (any (λ r. r == port) p.allowed_ports ≡ true)
  unfolding check_known_port
  known_port_ok q port h = ground arith

  listed_ok :
      (host : Text) (address : Option IpAddress)
      → check_listed p url host address ≡ ok tt
      → (p.allowed_hosts ≡ []) ⊎ (host_is_allowed host p.allowed_hosts (is_some address) ≡ true)
  unfolding check_listed check_host_is_listed
  listed_ok host address h = ground arith

  literal_ok :
      (address : Option IpAddress) (a : IpAddress)
      → check_literal p url address ≡ ok tt
      → address ≡ some a
      → permits_address p a ≡ true
  unfolding check_literal permits_address
  literal_ok none a h e = cc
  literal_ok (some b) a h e = ground arith

-- What `_check_host` made of the host that it read.
abbrev IsHostOf : Platform → Text → Text → Text × Text × Option IpAddress → Type 0
IsHostOf py url raw (host, written, address) =
    (length raw ≤ longest_hostname)
    × (has_char b'%' raw ≡ false)
    × (normalise py url raw ≡ ok host)
    × (check_host_shape url raw host ≡ ok (host, written, address))

host_steps :
    (py : Platform) (url raw : Text) (r : Text × Text × Option IpAddress)
    → (reject_overlong_host raw >>= λ _.
        normalise py url raw >>= λ host. check_host_shape url raw host)
      ≡ ok r
    → has_char b'%' raw ≡ false
    → IsHostOf py url raw r
unfolding reject_overlong_host
host_steps py url raw (host, written, address) h percent =
    let (u, short, h1) = >>=-eq-ok (reject_overlong_host raw) _ h in
    let (host', named, h2) = >>=-eq-ok (normalise py url raw) _ h1 in
    let (same, _, _, _) = check_host_shape-ok url raw host' host written address h2 in
    (
      ground arith,
      percent,
      subst (λ x. normalise py url raw ≡ ok x) (sym same) named,
      subst (λ x. check_host_shape url raw x ≡ ok (host, written, address)) (sym same) h2,
    )

host_ok :
    (py : Platform) (url : Text) (s : SplitResult) (r : Text × Text × Option IpAddress)
    → check_host_of py url s ≡ ok r
    → (raw : Text) × (s.hostname ≡ some (some raw)) × IsHostOf py url raw r
unfolding check_host_of
host_ok py url s r h = elim (Option-cases s.hostname) [
  | inl e ↦ absurd (ground arith)
  | inr (o, e) ↦ elim (Option-cases o) [
    | inl f ↦ absurd (ground arith)
    | inr (raw, f) ↦ (raw, rw (e, f), host_steps py url raw r (ground arith) (ground arith))
  ]
]

port_ok :
    (p : Policy) (url : Text) (s : SplitResult) (scheme : Text) (port : ℕ)
    → check_port p url s scheme ≡ ok port
    → ((s.port ≡ some (some port)) ⊎ ((s.port ≡ some none) × (default_port scheme ≡ some port)))
      × ((1 ≤ port) × (port ≤ 65535))
      × (any (λ r. r == port) p.allowed_ports ≡ true)
unfolding check_port
port_ok p url s scheme port h = elim (Option-cases s.port) [
  | inl e ↦ absurd (ground arith)
  | inr (o, e) ↦ elim (Option-cases o) [
    | inr (q, f) ↦ ground (arith, known_port_ok p url q port)
    | inl f ↦ elim (Option-cases (default_port scheme)) [
      | inl g ↦ absurd (ground arith)
      | inr (q, g) ↦ ground (arith, known_port_ok p url q port)
    ]
  ]
]

reject_overlong-short :
    (p : Policy) (url : Text) → reject_overlong p url ≡ ok tt → length url ≤ p.max_url_length
unfolding reject_overlong
reject_overlong-short p url h = ground arith

reject_control-printable :
    (url : Text) → reject_control_characters url ≡ ok tt → all (λ c. not (is_control c)) url ≡ true
unfolding reject_control_characters
reject_control-printable url h = elim (Option-cases (find_control 0 url)) [
  | inl e ↦ find_control-none 0 url e
  | inr (q, e) ↦ absurd (ground arith)
]

split-parsed :
    (py : Platform) (url : Text) (s : SplitResult) → split py url ≡ ok s → py.urlsplit url ≡ some s
unfolding split
split-parsed py url s h = ground arith

-- The acceptance from what each step returned.
IsAccepted-of_steps :
    (py : Platform) (p : Policy) (url : Text) (s : SplitResult) (scheme host written : Text)
    (address : Option IpAddress) (port : ℕ)
    → reject_overlong p url ≡ ok tt
    → reject_control_characters url ≡ ok tt
    → split py url ≡ ok s
    → check_scheme p url s ≡ ok scheme
    → check_userinfo p url s ≡ ok tt
    → check_host_of py url s ≡ ok (host, written, address)
    → check_port p url s scheme ≡ ok port
    → check_listed p url host address ≡ ok tt
    → check_literal p url address ≡ ok tt
    → IsAccepted py p url (record {
      scheme = scheme;
      host = host;
      port = port;
      host_as_written = written;
      address = address;
    })
IsAccepted-of_steps py p url s scheme host written address port h1 h2 h3 h4 h5 h6 h7 h8 h9 =
    let (schemed, allowed) = scheme_ok p url s scheme h4 in
    let (raw, hostname, (short, percent, normal, shape)) =
      host_ok py url s (host, written, address) h6 in
    let (_, _, literal, named) = check_host_shape-ok url raw host host written address shape in
    let (ported, range, listed_port) = port_ok p url s scheme port h7 in
    record {
      parts = s;
      raw = raw;
      short = reject_overlong-short p url h1;
      printable = reject_control-printable url h2;
      parsed = split-parsed py url s h3;
      scheme_of = schemed;
      scheme_allowed = allowed;
      no_credentials = userinfo_ok p url s h5;
      host_of = hostname;
      host_short = short;
      no_percent = percent;
      normalised = normal;
      literal = literal;
      named = named;
      port_of = ported;
      port_range = range;
      port_allowed = listed_port;
      listed = listed_ok p url host address h8;
      permitted = λ a. literal_ok p url address a h9;
    }

-- A URL that `check_url` accepts is short enough, holds no control character, and parses; its
-- scheme is allowed; it carries no credentials unless the policy lets it; its host, as the resolver
-- normalises it, is a literal address that the policy permits or a well-formed name that is no
-- encoded address; its port is in range and allowed; and its host is listed if any host is.
pub decide-IsAccepted :
    (py : Platform) (p : Policy) (url : Text) (t : Target)
    → decide py p url ≡ ok t
    → IsAccepted py p url t
unfolding decide
decide-IsAccepted py p url t h =
    let (short, h1) = >>-eq-ok (reject_overlong p url) _ h in
    let (plain, h2) = >>-eq-ok (reject_control_characters url) _ h1 in
    let (s, parsed, h3) = >>=-eq-ok (split py url) _ h2 in
    let (scheme, schemed, h4) = >>=-eq-ok (check_scheme p url s) _ h3 in
    let (user, h5) = >>-eq-ok (check_userinfo p url s) _ h4 in
    let (r, hosted, h6) = >>=-eq-ok (check_host_of py url s) _ h5 in
    let (port, ported, h7) = >>=-eq-ok (check_port p url s scheme) _ h6 in
    let (listed, h8) = >>-eq-ok (check_listed p url r.0 r.2) _ h7 in
    let (permitted, h9) = >>-eq-ok (check_literal p url r.2) _ h8 in
    subst (IsAccepted py p url) (ok-injective h9) (
      IsAccepted-of_steps py p url s scheme r.0 r.1 r.2 port short plain parsed schemed user hosted
        ported listed permitted)
