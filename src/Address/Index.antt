-- ===== src/Address/Index.antt =====
-- The index that `AddressTable.__post_init__` builds, and the networks that it refuses.
use ssrfguard.Base.{
  ℕ, ◌≤◌, ◌≡◌, refl, ◌≢◌, ◌↔◌, ◌⊎◌, inl, inr, false, leb, List, [], ◌∷◌, String, ok, any, Among,
  Among-keep, All, arith, Bool-cases, List-cases, leb→le,
}
use ssrfguard.Net.{Version, ipv4, ipv6, version_eq, IpNetwork, net_eq}
use ssrfguard.Net.Laws.{net_eq_iff, version_eq_iff}
use ssrfguard.Registry.Defs.{Block}
use ssrfguard.Address.Defs.{
  AddressTable, insert_desc, sort_desc, of_version, duplicates_from, post_init, blocks_of,
}

-- The longest prefix first.
abbrev pub IsSorted : List Block → Type 0
IsSorted [] = Unit
IsSorted (b ∷ bs) = All (λ c. c.network.prefixlen ≤ b.network.prefixlen) bs × IsSorted bs

-- No two blocks name one network.
abbrev pub IsDistinct : List Block → Type 0
IsDistinct [] = Unit
IsDistinct (b ∷ bs) = All (λ c. c.network ≢ b.network) bs × IsDistinct bs

All-insert_desc :
    (P : Block → Type 0) (b : Block) (bs : List Block) → P b → All P bs → All P (insert_desc b bs)
unfolding insert_desc
All-insert_desc P b [] p h = (p, tt)
All-insert_desc P b (c ∷ cs) p (q, h) =
    elim (Bool-cases (leb c.network.prefixlen b.network.prefixlen)) [
      | inl e ↦ rw e (p, (q, h))
      | inr e ↦ rw e (q, All-insert_desc P b cs p h)
    ]

All-le_trans :
    (m n : ℕ) (bs : List Block)
    → m ≤ n
    → All (λ c. c.network.prefixlen ≤ m) bs
    → All (λ c. c.network.prefixlen ≤ n) bs
All-le_trans m n [] h k = tt
All-le_trans m n (b ∷ bs) h (p, k) = (omega arith, All-le_trans m n bs h k)

insert_desc-IsSorted : (b : Block) (bs : List Block) → IsSorted bs → IsSorted (insert_desc b bs)
unfolding insert_desc
insert_desc-IsSorted b [] s = (tt, tt)
insert_desc-IsSorted b (c ∷ cs) (h, s) =
    elim (Bool-cases (leb c.network.prefixlen b.network.prefixlen)) [
      | inl e ↦
          let le = leb→le _ _ e in
          rw e ((le, All-le_trans c.network.prefixlen b.network.prefixlen cs le h), (h, s))
      | inr e ↦ rw e (
        All-insert_desc (λ d. d.network.prefixlen ≤ c.network.prefixlen) b cs (ground arith) h,
        insert_desc-IsSorted b cs s,
      )
    ]

pub sort_desc-IsSorted : (bs : List Block) → IsSorted (sort_desc bs)
unfolding sort_desc
sort_desc-IsSorted [] = tt
sort_desc-IsSorted (b ∷ bs) = insert_desc-IsSorted b (sort_desc bs) (sort_desc-IsSorted bs)

Among-insert_desc :
    (a b : Block) (bs : List Block) → Among a (insert_desc b bs) ↔ ((a ≡ b) ⊎ Among a bs)
unfolding insert_desc
Among-insert_desc a b [] = (λ m. m, λ m. m)
Among-insert_desc a b (c ∷ cs) =
    let ih = Among-insert_desc a b cs in
    elim (Bool-cases (leb c.network.prefixlen b.network.prefixlen)) [
      | inl e ↦ rw e (λ m. m, λ m. m)
      | inr e ↦ rw e (ground (arith, ih.0), ground (arith, ih.1))
    ]

-- Sorting keeps the blocks.
pub Among-sort_desc : (a : Block) (bs : List Block) → Among a (sort_desc bs) ↔ Among a bs
unfolding sort_desc
Among-sort_desc a [] = (λ m. m, λ m. m)
Among-sort_desc a (b ∷ bs) =
    let ih = Among-sort_desc a bs in
    let here = Among-insert_desc a b (sort_desc bs) in
    (ground (arith, ih.0, here.0), ground (arith, ih.1, here.1))

pub Among-of_version :
    (a : Block) (v : Version) (bs : List Block)
    → Among a (of_version v bs) ↔ (Among a bs × (a.network.version ≡ v))
Among-of_version a v bs =
    let (to, from) = Among-keep (λ b. version_eq b.network.version v) a bs in
    let same = version_eq_iff a.network.version v in
    (λ m. ((to m).0, same.0 (to m).1), λ m. from (m.0, same.1 m.1))

any-net_eq :
    (n : IpNetwork) (seen : List IpNetwork) → (any (net_eq n) seen ≡ false) ↔ All (λ m. n ≢ m) seen
any-net_eq n [] = ground arith
any-net_eq n (m ∷ ms) = ground (arith, net_eq_iff n m, any-net_eq n ms)

-- The blocks whose network is not among those seen.
abbrev IsNew : List IpNetwork → List Block → Type 0
IsNew seen bs = All (λ b. All (λ m. b.network ≢ m) seen) bs

IsNew-cons :
    (n : IpNetwork) (seen : List IpNetwork) (bs : List Block)
    → IsNew (n ∷ seen) bs ↔ (All (λ c. c.network ≢ n) bs × IsNew seen bs)
IsNew-cons n seen [] = (λ h. (tt, tt), λ h. tt)
IsNew-cons n seen (b ∷ bs) =
    let ih = IsNew-cons n seen bs in
    (λ ((p, q), h). ((p, (ih.0 h).0), (q, (ih.0 h).1)), λ ((p, h), (q, k)). ((p, q), ih.1 (h, k)))

duplicates_from-eq-nil :
    (seen : List IpNetwork) (bs : List Block)
    → (duplicates_from seen bs ≡ []) ↔ (IsDistinct bs × IsNew seen bs)
unfolding duplicates_from
duplicates_from-eq-nil seen [] = (λ h. (tt, tt), λ h. refl)
duplicates_from-eq-nil seen (b ∷ bs) =
    let ih = duplicates_from-eq-nil (b.network ∷ seen) bs in
    let new = any-net_eq b.network seen in
    let split = IsNew-cons b.network seen bs in
    elim (Bool-cases (any (net_eq b.network) seen)) [
      | inl e ↦ rw e (λ h. absurd (cc), λ h. absurd (cc (new.1 h.1.0)))
      | inr e ↦ rw e (
        λ h. let (d, n) = ih.0 h in ((((split.0 n).0, d)), (new.0 e, (split.0 n).1)),
        λ ((p, d), (q, k)). ih.1 (d, split.1 (p, k)),
      )
    ]

IsNew-nil : (bs : List Block) → IsNew [] bs
IsNew-nil [] = tt
IsNew-nil (b ∷ bs) = (tt, IsNew-nil bs)

post_init-duplicates :
    (bs : List Block) (snapshot : String) (t : AddressTable)
    → post_init bs snapshot ≡ ok t
    → duplicates_from [] bs ≡ []
unfolding post_init
post_init-duplicates bs snapshot t h = elim (List-cases (duplicates_from [] bs)) [
  | inl e ↦ e
  | inr (d, ds, e) ↦ absurd (cc (rw (post_init, e) at h))
]

-- The table that construction returns when it does.
abbrev indexed_table : List Block → String → AddressTable
indexed_table bs snapshot = record {
  blocks = bs;
  snapshot = snapshot;
  index_v4 = sort_desc (of_version ipv4 bs);
  index_v6 = sort_desc (of_version ipv6 bs);
}

post_init_of_IsDistinct :
    (bs : List Block) (snapshot : String)
    → IsDistinct bs
    → post_init bs snapshot ≡ ok (indexed_table bs snapshot)
unfolding post_init
post_init_of_IsDistinct bs snapshot d =
    rw (post_init, (duplicates_from-eq-nil [] bs).1 (d, IsNew-nil bs))

-- Construction succeeds exactly when no two blocks name one network.
pub post_init-ok_iff :
    (bs : List Block) (snapshot : String)
    → ((t : AddressTable) × (post_init bs snapshot ≡ ok t)) ↔ IsDistinct bs
post_init-ok_iff bs snapshot = (
  λ (t, h). ((duplicates_from-eq-nil [] bs).0 (post_init-duplicates bs snapshot t h)).0,
  λ d. (indexed_table bs snapshot, post_init_of_IsDistinct bs snapshot d),
)

-- What a constructed table holds: the rows that it was given, no network twice, and for each family
-- an index of that family's rows, the longest prefix first.
pub record IsBuilt (bs : List Block) (t : AddressTable) : Type 0 where
  pub distinct : IsDistinct bs
  pub rows : t.blocks ≡ bs
  pub sorted : (v : Version) → IsSorted (blocks_of t v)
  pub indexed :
      (v : Version) (b : Block) → Among b (blocks_of t v) ↔ (Among b bs × (b.network.version ≡ v))

indexed_table-IsBuilt :
    (bs : List Block) (snapshot : String) → IsDistinct bs → IsBuilt bs (indexed_table bs snapshot)
indexed_table-IsBuilt bs snapshot d = record {
  distinct = d;
  rows = refl;
  sorted = sorted_at;
  indexed = indexed_at;
}
  where
    sorted_at : (v : Version) → IsSorted (blocks_of (indexed_table bs snapshot) v)
    sorted_at ipv4 = sort_desc-IsSorted (of_version ipv4 bs)
    sorted_at ipv6 = sort_desc-IsSorted (of_version ipv6 bs)

    compose :
        (v : Version) (b : Block)
        → Among b (sort_desc (of_version v bs)) ↔ (Among b bs × (b.network.version ≡ v))
    compose v b =
        let (down, up) = Among-sort_desc b (of_version v bs) in
        let (to, from) = Among-of_version b v bs in (λ m. to (down m), λ m. up (from m))

    indexed_at :
        (v : Version) (b : Block)
        → Among b (blocks_of (indexed_table bs snapshot) v) ↔ (Among b bs × (b.network.version ≡ v))
    indexed_at ipv4 b = compose ipv4 b
    indexed_at ipv6 b = compose ipv6 b

-- A table that construction returns is indexed.
pub post_init-IsBuilt :
    (bs : List Block) (snapshot : String) (t : AddressTable)
    → post_init bs snapshot ≡ ok t
    → IsBuilt bs t
post_init-IsBuilt bs snapshot t h =
    let d = (post_init-ok_iff bs snapshot).0 (t, h) in
    let same : indexed_table bs snapshot ≡ t = cc (post_init_of_IsDistinct bs snapshot d) in
    rw (← same) (indexed_table-IsBuilt bs snapshot d)
