-- ===== src/Net/Shape.antt =====
-- The cheap test of `Policy._check_host` in src/ssrfguard/_policy.py: whatever `ip_address` accepts
-- holds a colon or is made only of digits and dots.
use ssrfguard.Base.{
  ℕ, ◌≡◌, refl, inl, inr, Bool, true, false, ◌||◌, ◌==◌, List, [], ◌∷◌, Option, none, some, Text,
  is_digit, has_char, all, any, split_on, all-split_on, length-split_on, partition, Bool-cases,
  Option-cases, arith,
}
use ssrfguard.Net.{IpAddress}
use ssrfguard.Net.Parse.{parse_octet, quad, parse_v4, parse_v6, parse_v6_number, ip_address, ◌>>=◌}

-- `[0-9.]`
abbrev pub is_digit_or_dot : ℕ → Bool
is_digit_or_dot c = c == b'.' || is_digit c

parse_octet-digits : (t : Text) (n : ℕ) → parse_octet t ≡ some n → all is_digit t ≡ true
unfolding parse_octet
parse_octet-digits t n h = ground arith

>>=-eq-some {ℓ κ} :
    {A : Type ℓ} {B : Type κ} (m : Option A) (f : A → Option B) {b : B}
    → (m >>= f) ≡ some b
    → (a : A) × (m ≡ some a) × (f a ≡ some b)
>>=-eq-some none f h = cc
>>=-eq-some (some a) f h = (a, refl, h)

quad-digits : (ps : List Text) (n : ℕ) → quad ps ≡ some n → all (all is_digit) ps ≡ true
unfolding quad
quad-digits (a ∷ b ∷ c ∷ d ∷ []) n h =
    let (p, ep, h1) = >>=-eq-some (parse_octet a) _ h in
    let (q, eq, h2) = >>=-eq-some (parse_octet b) _ h1 in
    let (r, er, h3) = >>=-eq-some (parse_octet c) _ h2 in
    let (s, es, h4) = >>=-eq-some (parse_octet d) _ h3 in
    rw (
      parse_octet-digits a p ep,
      parse_octet-digits b q eq,
      parse_octet-digits c r er,
      parse_octet-digits d s es,
    )
quad-digits _ n h = cc

-- A dotted quad is made only of digits and dots.
pub parse_v4-shape : (t : Text) (n : ℕ) → parse_v4 t ≡ some n → all is_digit_or_dot t ≡ true
unfolding parse_v4
parse_v4-shape t n h = all-split_on is_digit b'.' t (quad-digits (split_on b'.' t) n h)

any-before :
    (p : ℕ → Bool) (c : ℕ) (t : Text) → any p (partition c t).before ≡ true → any p t ≡ true
unfolding partition
any-before p c [] h = cc
any-before p c (x ∷ xs) h = elim (Bool-cases (x == c)) [
  | inl e ↦ absurd (ground arith)
  | inr e ↦ ground (arith, any-before p c xs)
]

parse_v6_number-colon : (t : Text) → has_char b':' t ≡ false → parse_v6_number t ≡ none
unfolding parse_v6_number
parse_v6_number-colon t h = rw (length-split_on b':' t h)

-- An IPv6 address holds a colon.
pub parse_v6-colon : (t : Text) (a : IpAddress) → parse_v6 t ≡ some a → has_char b':' t ≡ true
unfolding parse_v6
parse_v6-colon t a h = elim (Bool-cases (has_char b':' (partition b'%' t).before)) [
  | inl e ↦ any-before (λ x. x == b':') b'%' t e
  | inr e ↦ absurd (ground (arith, parse_v6_number-colon (partition b'%' t).before e))
]

-- Whatever the parser of literals accepts holds a colon, or is made only of digits and dots.
pub ip_address-shape :
    (t : Text) (a : IpAddress)
    → ip_address t ≡ some a
    → (all is_digit_or_dot t || has_char b':' t) ≡ true
unfolding ip_address
ip_address-shape t a h = elim (Option-cases (parse_v4 t)) [
  | inl e ↦ ground (arith, parse_v6-colon t a (rw (e, ip_address) at h))
  | inr (n, e) ↦ ground (arith, parse_v4-shape t n e)
]

parse_v4-nil : parse_v4 [] ≡ none
unfolding parse_v4
parse_v4-nil = refl
