-- ===== src/Address/Classify.antt =====
-- The verdicts of `classify` on any table.
use ssrfguard.Base.{
  ℕ, zero, suc, ◌+◌, ◌≤◌, ◌≡◌, refl, subst, ◌≢◌, ◌↔◌, ◌⊎◌, inl, inr, Bool, true, false, ◌||◌, List,
  [], ◌∷◌, ◌++◌, none, some, Text, All, arith, Bool-cases, Option-cases, List-cases, length,
  length-append, ok,
}
use ssrfguard.Net.{IpAddress, v4, v6, IpNetwork, net_eq}
use ssrfguard.Registry.Defs.{Reach, denied, permitted, translated, Block}
use ssrfguard.Address.Defs.{
  AddressTable, max_translation_depth, Verdict, Hop, match, verdict, embedded_v4, check_inner,
  classify_translated, classify_step, classify_from, classify, nat64, v4_mapped, v4_compatible,
  sixtofour, teredo, raise_if_blocked,
}

Reach-cases : (r : Reach) → (r ≡ permitted) ⊎ ((r ≡ denied) ⊎ (r ≡ translated))
Reach-cases r = ground arith

-- An address that the table lets through on its own: no row contains it, or its row permits it.
abbrev pub IsOpen : AddressTable → IpAddress → Type 0
IsOpen t a = (match t a ≡ none) ⊎ ((b : Block) × (match t a ≡ some b) × (b.reach ≡ permitted))

-- A translated address: its row translates, it carries at least one address, and each is open.
abbrev pub IsCarried : AddressTable → IpAddress → Type 0
IsCarried t (v4 n) = ⊥
IsCarried t (v6 n zone) =
    (b : Block) × (match t (v6 n zone) ≡ some b)
    × (b.reach ≡ translated)
    × (embedded_v4 n b.network ≢ [])
    × All (IsOpen t) (embedded_v4 n b.network)

-- The verdict on an IPv4 address does not depend on how it was reached.
classify_from-v4 :
    (left : ℕ) (t : AddressTable) (n : ℕ) (chain : List Hop)
    → ((classify_from left t (v4 n) chain).blocked ≡ false) ↔ IsOpen t (v4 n)
unfolding classify_from
classify_from-v4 zero t n chain = ground arith
classify_from-v4 (suc left) t n chain = ground arith

pub classify-v4 :
    (t : AddressTable) (n : ℕ) → ((classify t (v4 n)).blocked ≡ false) ↔ IsOpen t (v4 n)
unfolding classify
classify-v4 t n = classify_from-v4 max_translation_depth t n []

check_inner-blocked :
    (left : ℕ) (t : AddressTable) (a : IpAddress) (b : Block) (chain : List Hop)
    (ns : List IpAddress)
    → All (λ i. (k : ℕ) × (i ≡ v4 k)) ns
    → ((check_inner (classify_from left t) a b chain ns).blocked ≡ false) ↔ All (IsOpen t) ns
unfolding check_inner
check_inner-blocked left t a b chain [] h = (λ _. tt, λ _. refl)
check_inner-blocked left t a b chain (i ∷ is) ((n, e), h) =
    let next = chain ++ (b, i) ∷ [] in
    let here : ((classify_from left t i next).blocked ≡ false) ↔ IsOpen t i =
      rw e (classify_from-v4 left t n _) in
    let ih = check_inner-blocked left t a b chain is h in
    elim (Bool-cases (classify_from left t i next).blocked) [
      | inl c ↦ rw c (λ k. absurd (cc), λ k. absurd (cc (here.1 k.0)))
      | inr c ↦ rw c (λ k. (here.0 c, ih.0 k), λ k. ih.1 k.1)
    ]

abbrev IsV4 : IpAddress → Type 0
IsV4 a = (k : ℕ) × (a ≡ v4 k)

embedded_v4-IsV4 : (n : ℕ) (m : IpNetwork) → All IsV4 (embedded_v4 n m)
unfolding embedded_v4
embedded_v4-IsV4 n m = elim (Bool-cases one) [
  | inl e ↦ rw e ((_, refl), tt)
  | inr e ↦ rw e (elim (Bool-cases (net_eq m sixtofour)) [
    | inl f ↦ rw f ((_, refl), tt)
    | inr f ↦ rw f (elim (Bool-cases (net_eq m teredo)) [
      | inl g ↦ rw g ((_, refl), ((_, refl), tt))
      | inr g ↦ rw g tt
    ])
  ])
]
  where
    one : Bool
    one = (net_eq m v4_mapped || net_eq m v4_compatible) || net_eq m nat64

-- A translated row lets through what carries an address, and only open ones.
pub classify_translated-IsOpen_iff :
    (left : ℕ) (t : AddressTable) (n : ℕ) (zone : Text) (b : Block) (chain : List Hop)
    → ((classify_translated (classify_from left t) (v6 n zone) b chain).blocked ≡ false)
      ↔ ((embedded_v4 n b.network ≢ []) × All (IsOpen t) (embedded_v4 n b.network))
unfolding classify_translated
classify_translated-IsOpen_iff left t n zone b chain = elim (List-cases (embedded_v4 n b.network)) [
  | inl e ↦ rw (e, classify_translated) (λ k. absurd (cc), λ k. absurd (k.0 refl))
  | inr (i, is, e) ↦
      let all_v4 : All IsV4 (i ∷ is) = rw e at (embedded_v4-IsV4 n b.network) in
      let (to, from) = check_inner-blocked left t (v6 n zone) b chain (i ∷ is) all_v4 in
      rw (e, classify_translated) (λ k. ((λ c. cc), to k), λ k. from k.1)
]

module _ (t : AddressTable) (a : IpAddress) where
  pub classify-none : match t a ≡ none → classify t a ≡ verdict a false none []
  unfolding classify
  classify-none e = rw (e, classify_step)

  pub classify-permitted :
      (b : Block)
      → match t a ≡ some b
      → b.reach ≡ permitted
      → classify t a ≡ verdict a false (some b) []
  unfolding classify
  classify-permitted b e r = rw (e, classify_step) (simp r)

  pub classify-denied :
      (b : Block)
      → match t a ≡ some b
      → b.reach ≡ denied
      → classify t a ≡ verdict a true (some b) []
  unfolding classify
  classify-denied b e r = rw (e, classify_step) (simp r)

  pub classify-translated :
      (b : Block)
      → match t a ≡ some b
      → b.reach ≡ translated
      → classify t a ≡ classify_translated (classify_from 1 t) a b []
  unfolding classify
  classify-translated b e r = rw (e, classify_step) (simp r)

-- `classify` lets an address through exactly when the table has no row for it, its most specific
-- row permits it, or that row is a translation prefix from which at least one IPv4 address can be
-- decoded and every decoded address is let through on its own.
pub classify-IsOpen_iff :
    (t : AddressTable) (a : IpAddress)
    → ((classify t a).blocked ≡ false) ↔ (IsOpen t a ⊎ IsCarried t a)
classify-IsOpen_iff t (v4 n) =
    let (to, from) = classify-v4 t n in
    (λ h. inl (to h), λ m. elim m [ inl o ↦ from o | inr c ↦ absurd c ])
classify-IsOpen_iff t (v6 n zone) = elim (Option-cases (match t (v6 n zone))) [
  | inl e ↦ (λ h. inl (inl e), λ m. rw (classify-none t (v6 n zone) e))
  | inr (b, e) ↦ elim (Reach-cases b.reach) [
    | inl r ↦ (λ h. inl (inr (b, e, r)), λ m. rw (classify-permitted t (v6 n zone) b e r))
    | inr (inl r) ↦
        (λ h. absurd (cc (classify-denied t (v6 n zone) b e r)), λ m. absurd (denied_shut b e r m))
    | inr (inr r) ↦
        let (to, from) = classify_translated-IsOpen_iff 1 t n zone b [] in
        rw (classify-translated t (v6 n zone) b e r) (
          λ h. inr (b, e, r, (to h).0, (to h).1),
          λ m. elim m [
            | inl o ↦ absurd (elim o [ inl x ↦ cc | inr (c, x, y) ↦ cc ])
            | inr (c, x, y, some_inner, all_open) ↦
                let same : c ≡ b = cc in
                from (
                  subst
                    (λ d. (embedded_v4 n d.network ≢ []) × All (IsOpen t) (embedded_v4 n d.network))
                    same (some_inner, all_open))
          ],
        )
  ]
]
  where
    denied_shut :
        (b : Block)
        → match t (v6 n zone) ≡ some b
        → b.reach ≡ denied
        → (IsOpen t (v6 n zone) ⊎ IsCarried t (v6 n zone))
        → ⊥
    denied_shut b e r (inl (inl x)) = cc
    denied_shut b e r (inl (inr (c, x, y))) = cc
    denied_shut b e r (inr (c, x, y, _, _)) = cc

-- A verdict on an IPv4 address adds no hop, and names the row when it blocks.
flat :
    (left : ℕ) (t : AddressTable) (n : ℕ) (chain : List Hop)
    → ((classify_from left t (v4 n) chain).chain ≡ chain)
      × ((classify_from left t (v4 n) chain).blocked ≡ true
          → (classify_from left t (v4 n) chain).block ≢ none)
unfolding classify_from
flat zero t n chain = ground arith
flat (suc left) t n chain = ground arith

flat_at :
    (left : ℕ) (t : AddressTable) (i : IpAddress) (chain : List Hop)
    → IsV4 i
    → ((classify_from left t i chain).chain ≡ chain)
      × ((classify_from left t i chain).blocked ≡ true
          → (classify_from left t i chain).block ≢ none)
flat_at left t i chain (n, e) = rw e (flat left t n chain)

-- At most one hop more than the chain so far, and a row when it blocks.
abbrev IsExplained : ℕ → Verdict → Type 0
IsExplained hops v = (length v.chain ≤ hops) × (v.blocked ≡ true → v.block ≢ none)

check_inner-IsExplained :
    (left : ℕ) (t : AddressTable) (a : IpAddress) (b : Block) (chain : List Hop)
    (ns : List IpAddress)
    → All IsV4 ns
    → IsExplained (length chain + 1) (check_inner (classify_from left t) a b chain ns)
unfolding check_inner
check_inner-IsExplained left t a b chain [] h = (omega arith, λ k c. cc)
check_inner-IsExplained left t a b chain (i ∷ is) (v, h) =
    let next = chain ++ (b, i) ∷ [] in
    let f = flat_at left t i next v in
    let len = length-append {0} chain ((b, i) ∷ []) in
    elim (Bool-cases (classify_from left t i next).blocked) [
      | inl c ↦ rw c (rw f.0 (omega (arith, len)), λ k. f.1 c)
      | inr c ↦ rw c (check_inner-IsExplained left t a b chain is h)
    ]

classify_translated-IsExplained :
    (left : ℕ) (t : AddressTable) (a : IpAddress) (b : Block)
    → IsExplained 1 (classify_translated (classify_from left t) a b [])
unfolding classify_translated
classify_translated-IsExplained left t (v4 n) b = (omega arith, λ k c. cc)
classify_translated-IsExplained left t (v6 n zone) b = elim (List-cases (embedded_v4 n b.network)) [
  | inl e ↦ rw (e, classify_translated) (omega arith, λ k c. cc)
  | inr (i, is, e) ↦
      let all_v4 : All IsV4 (i ∷ is) = rw e at (embedded_v4-IsV4 n b.network) in
      let (few, named) = check_inner-IsExplained left t (v6 n zone) b [] (i ∷ is) all_v4 in
      rw (e, classify_translated) (omega arith, named)
]

-- One translation hop is the real depth, below the limit of two: no verdict walks more. And a
-- refused address always has the row that decided it, so every refusal names a block.
pub classify-explained :
    (t : AddressTable) (a : IpAddress)
    → (length (classify t a).chain ≤ 1)
      × ((classify t a).blocked ≡ true → (classify t a).block ≢ none)
classify-explained t a = elim (Option-cases (match t a)) [
  | inl e ↦ rw (classify-none t a e) (omega arith, λ k c. cc)
  | inr (b, e) ↦ elim (Reach-cases b.reach) [
    | inl r ↦ rw (classify-permitted t a b e r) (omega arith, λ k c. cc)
    | inr (inl r) ↦ rw (classify-denied t a b e r) (omega arith, λ k c. cc)
    | inr (inr r) ↦ rw (classify-translated t a b e r) (classify_translated-IsExplained 1 t a b)
  ]
]

-- `raise_if_blocked` raises exactly on a verdict that blocks.
pub raise_if_blocked-ok_iff : (v : Verdict) → (raise_if_blocked v ≡ ok tt) ↔ (v.blocked ≡ false)
unfolding raise_if_blocked
raise_if_blocked-ok_iff v = ground arith
