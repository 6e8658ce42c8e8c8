-- ===== src/Net/Laws.antt =====
-- Networks of addresses: equality tests, and two networks that share an address are nested.
use native.Mathlib.Nat.{
  add-zero, add-suc, pow-zero, pow-suc, one-le-pow, div-div-eq-div-mul, mul-div_left,
}
use ssrfguard.Base.{
  ℕ, ◌-◌, ◌/◌, ◌≤◌, ap, sym, ◌∙◌, Bool, ◌&&◌, leb, ◌==◌, ==_iff, le→leb, ◌+◌, ◌*◌, ◌^◌, ◌<◌, zero,
  suc, ◌≡◌, ◌↔◌, true, text_eq_iff, arith,
}
use ssrfguard.Net.{
  Version, version_eq, IpAddress, v4, v6, ip_eq, IpNetwork, net_eq, IsNetwork, is_network, contains,
  version_of, to_int, width, span, masked,
}

pub version_eq_iff : (v w : Version) → (version_eq v w ≡ true) ↔ (v ≡ w)
version_eq_iff v w = ground arith

-- Two addresses compare equal exactly when they are the same.
pub ip_eq_iff : (a b : IpAddress) → (ip_eq a b ≡ true) ↔ (a ≡ b)
unfolding ip_eq
ip_eq_iff (v4 a) (v4 b) = ground arith
ip_eq_iff (v6 a s) (v6 b t) = ground (arith, text_eq_iff s t)
ip_eq_iff (v4 a) (v6 b t) = ground arith
ip_eq_iff (v6 a s) (v4 b) = ground arith

pub net_eq_iff : (m n : IpNetwork) → (net_eq m n ≡ true) ↔ (m ≡ n)
unfolding net_eq
net_eq_iff m n = ground (arith, version_eq_iff m.version n.version)

pub is_network_sound : (n : IpNetwork) → is_network n ≡ true → IsNetwork n
is_network_sound n h = ground arith

-- Clearing more bits forgets that fewer were cleared.
pow_add : (a b : ℕ) → 2 ^ (a + b) ≡ 2 ^ a * 2 ^ b
pow_add a zero = rw (add-zero, pow-zero) (omega arith)
pow_add a (suc b) =
    let ih = pow_add a b in rw (add-suc, pow-suc 2 (a + b), pow-suc 2 b, ih) (omega arith)

pow_pos : (a : ℕ) → 0 < 2 ^ a
pow_pos a = one-le-pow a 2 (omega arith)

masked-masked : (x s m : ℕ) → 0 < s → masked (masked x s) (s * m) ≡ masked x (s * m)
masked-masked x s m h =
    ap (λ q. q * (s * m))
      (sym (div-div-eq-div-mul (x / s * s) s m)
        ∙ (ap (λ q. q / m) (mul-div_left (x / s) h) ∙ div-div-eq-div-mul x s m))

pub contains-version :
    (n : IpNetwork) (a : IpAddress) → contains n a ≡ true → n.version ≡ version_of a
unfolding contains
contains-version n a h = ground (arith, version_eq_iff (version_of a) n.version)

contains-base :
    (n : IpNetwork) (a : IpAddress) → contains n a ≡ true → masked (to_int a) (span n) ≡ n.base
unfolding contains
contains-base n a h = ground arith

-- `m` lies in `n`: the same family, no shorter, and the same leading bits.
abbrev pub is_inside : IpNetwork → IpNetwork → Bool
is_inside m n =
    version_eq m.version n.version
    && (leb n.prefixlen m.prefixlen && masked m.base (span n) == n.base)

-- Of two networks that share an address, the one that is no shorter lies in the other.
pub contains-is_inside :
    (m n : IpNetwork) (a : IpAddress)
    → contains m a ≡ true
    → contains n a ≡ true
    → n.prefixlen ≤ m.prefixlen
    → is_inside m n ≡ true
contains-is_inside m n a h k le =
    let v : m.version ≡ n.version = contains-version m a h ∙ sym (contains-version n a k) in
    let w = width n.version in
    let extra = w - n.prefixlen - (w - m.prefixlen) in
    let sum : w - m.prefixlen + extra ≡ w - n.prefixlen = omega arith in
    let size : span n ≡ 2 ^ (w - m.prefixlen) * 2 ^ extra =
      ap (λ e. 2 ^ e) (sym sum) ∙ pow_add (w - m.prefixlen) extra in
    let mine : masked (to_int a) (2 ^ (w - m.prefixlen)) ≡ m.base =
      ap (λ u. masked (to_int a) (2 ^ (width u - m.prefixlen))) (sym v) ∙ contains-base m a h in
    let same : masked m.base (span n) ≡ n.base =
      rw
        (
          size,
          ← mine,
          masked-masked (to_int a) (2 ^ (w - m.prefixlen)) (2 ^ extra) (pow_pos (w - m.prefixlen)),
          ← size,
        )
        (contains-base n a k) in
    rw ((version_eq_iff m.version n.version).1 v, le→leb _ _ le, (==_iff _ n.base).1 same)
