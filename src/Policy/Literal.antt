-- ===== src/Policy/Literal.antt =====
-- The shape test of `_check_host` in src/ssrfguard/_policy.py never hides a literal address.
use ssrfguard.Base.{
  ℕ, ◌≡◌, refl, inl, inr, true, false, ◌||◌, [], ◌∷◌, Option, none, some, Text, has_char, all, ok,
  Option-cases, arith, ap,
}
use ssrfguard.Net.{IpAddress}
use ssrfguard.Net.Parse.{ip_address}
use ssrfguard.Net.Shape.{is_digit_or_dot, ip_address-shape}
use ssrfguard.Policy.Hosts.{numeric_shaped, before_newline, well_formed_hostname, literal_address}
use ssrfguard.Policy.Url.{check_host_shape}

before_newline-digits : (t : Text) → all is_digit_or_dot t ≡ true → before_newline t ≡ t
unfolding before_newline
before_newline-digits [] h = refl
before_newline-digits (c ∷ []) h = ground arith
before_newline-digits (c ∷ (d ∷ ds)) h = ap (◌∷◌ c) (before_newline-digits (d ∷ ds) (ground arith))

-- A host of digits and dots has the numeric shape.
numeric_shaped-digits :
    (c : ℕ) (t : Text) → all is_digit_or_dot (c ∷ t) ≡ true → numeric_shaped (c ∷ t) ≡ true
unfolding numeric_shaped
numeric_shaped-digits c t h = rw (before_newline-digits (c ∷ t) h, numeric_shaped) h

no_empty_literal : ip_address [] ≡ none
unfolding ip_address
no_empty_literal = refl

-- Whatever parses as a literal passes the test that decides whether to parse.
pub shape-literal :
    (host : Text) (a : IpAddress)
    → literal_address host ≡ some a
    → (numeric_shaped host || has_char b':' host) ≡ true
shape-literal [] a h = absurd (cc no_empty_literal)
shape-literal (c ∷ cs) a h =
    ground (arith, ip_address-shape (c ∷ cs) a h, numeric_shaped-digits c cs)

-- The address that the shape test yields is the one that the parser finds, and a host without one
-- is a well-formed name that is not made of digits and dots.
pub check_host_shape-ok :
    (url raw host : Text) (got : Text) (written : Text) (address : Option IpAddress)
    → check_host_shape url raw host ≡ ok (got, written, address)
    → (got ≡ host)
      × (written ≡ raw)
      × (address ≡ literal_address host)
      × ((address ≡ none) → (well_formed_hostname host ≡ true) × (numeric_shaped host ≡ false))
unfolding check_host_shape
check_host_shape-ok url raw host got written address h =
    elim (Option-cases (literal_address host)) [
      | inl e ↦ ground arith
      | inr (a, e) ↦ ground (arith, shape-literal host a e)
    ]
