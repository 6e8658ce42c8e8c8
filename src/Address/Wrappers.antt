-- ===== src/Address/Wrappers.antt =====
-- The translation prefixes of the shipped table: what decides is the address inside.
use ssrfguard.Base.{
  ℕ, ◌-◌, ◌/◌, ◌%◌, ◌^◌, ◌≡◌, refl, ◌↔◌, Bool, true, false, ◌&&◌, List, [], ◌∷◌, Text, All,
  any-Among, any, arith, map, some,
}
use ssrfguard.Net.{IpAddress, v4, v6, IpNetwork, contains, net_eq}
use ssrfguard.Net.Laws.{net_eq_iff}
use ssrfguard.Registry.Defs.{translated, Block, is_translated}
use ssrfguard.Registry.Table.{table}
use ssrfguard.Address.Defs.{match, classify, embedded_v4, nat64, v4_mapped, sixtofour, teredo}
use ssrfguard.Address.Classify.{
  classify_translated-IsOpen_iff, classify-translated, classify-v4, IsOpen,
}
use ssrfguard.Address.Default.{default_denied, decided, within}

-- The four prefixes, as the RFCs that define them describe their payloads.
pub data Wrapper : Type 0 where
  mapped well_known six_to_four with_teredo : Wrapper

abbrev pub prefix_of : Wrapper → IpNetwork
prefix_of mapped = v4_mapped
prefix_of well_known = nat64
prefix_of six_to_four = sixtofour
prefix_of with_teredo = teredo

-- RFC 4291 and RFC 6052: the low 32 bits. RFC 3056: bits 16 to 48. RFC 4380: the server in bits 32
-- to 64, and the client in the low 32 bits, inverted.
abbrev pub payload : Wrapper → ℕ → List ℕ
payload mapped n = n % 2 ^ 32 ∷ []
payload well_known n = n % 2 ^ 32 ∷ []
payload six_to_four n = n / 2 ^ 80 % 2 ^ 32 ∷ []
payload with_teredo n = n / 2 ^ 64 % 2 ^ 32 ∷ (2 ^ 32 - 1 - n % 2 ^ 32) ∷ []

embedded_v4-payload : (w : Wrapper) (n : ℕ) → embedded_v4 n (prefix_of w) ≡ map v4 (payload w n)
unfolding embedded_v4
embedded_v4-payload mapped n = refl
embedded_v4-payload well_known n = refl
embedded_v4-payload six_to_four n = refl
embedded_v4-payload with_teredo n = refl

abbrev is_row_of : Wrapper → Block → Bool
is_row_of w c = net_eq c.network (prefix_of w) && is_translated c.reach

-- Each prefix has a row that translates, and nothing else lies inside it.
prefix_listed : (w : Wrapper) → any (is_row_of w) table ≡ true
unfolding table net_eq
prefix_listed mapped = refl
prefix_listed well_known = refl
prefix_listed six_to_four = refl
prefix_listed with_teredo = refl

prefix_alone : (w : Wrapper) → within (prefix_of w) (is_row_of w) table ≡ true
unfolding table net_eq
prefix_alone mapped = refl
prefix_alone well_known = refl
prefix_alone six_to_four = refl
prefix_alone with_teredo = refl

row_decides :
    (w : Wrapper) (a : IpAddress)
    → contains (prefix_of w) a ≡ true
    → (c : Block) × (match default_denied a ≡ some c)
      × (c.network ≡ prefix_of w)
      × (c.reach ≡ translated)
row_decides w a h =
    let (b, m, p) = any-Among (is_row_of w) table (prefix_listed w) in
    let same : b.network ≡ prefix_of w = ground (arith, net_eq_iff b.network (prefix_of w)) in
    let (c, e, q) = decided a b (is_row_of w) m (rw same (prefix_alone w)) (rw same h) in
    (c, e, ground (arith, net_eq_iff c.network (prefix_of w)), ground arith)

-- The verdict on the addresses inside.
abbrev pub IsPermitted : ℕ → Type 0
IsPermitted n = (classify default_denied (v4 n)).blocked ≡ false

All-IsOpen : (ns : List ℕ) → All (IsOpen default_denied) (map v4 ns) ↔ All IsPermitted ns
All-IsOpen [] = (λ h. tt, λ h. tt)
All-IsOpen (n ∷ ns) =
    let (to, from) = classify-v4 default_denied n in
    let ih = All-IsOpen ns in (λ (h, k). (from h, ih.0 k), λ (h, k). (to h, ih.1 k))

-- An address inside one of four translation prefixes of the shipped table (the IPv4-mapped one, the
-- well-known one of NAT64, 6to4 and Teredo) is let through exactly when every IPv4 address that
-- the prefix's RFC says it carries is let through: none of these wrappers makes a refused address
-- reachable, and none hides a permitted one.
pub classify-payload :
    (w : Wrapper) (n : ℕ) (zone : Text)
    → contains (prefix_of w) (v6 n zone) ≡ true
    → ((classify default_denied (v6 n zone)).blocked ≡ false) ↔ All IsPermitted (payload w n)
classify-payload w n zone h =
    let (c, e, same, r) = row_decides w (v6 n zone) h in
    let (to, from) = classify_translated-IsOpen_iff 1 default_denied n zone c [] in
    let inner : embedded_v4 n c.network ≡ map v4 (payload w n) =
      rw same (embedded_v4-payload w n) in
    let (down, up) = All-IsOpen (payload w n) in
    rw (classify-translated default_denied (v6 n zone) c e r)
      (λ k. down (rw inner at ((to k).1)), λ k. from (rw inner (nonempty w, up k)))
  where
    nonempty : (u : Wrapper) → map v4 (payload u n) ≡ [] → ⊥
    nonempty mapped e = cc
    nonempty well_known e = cc
    nonempty six_to_four e = cc
    nonempty with_teredo e = cc
