-- ===== src/Address/Match.antt =====
-- Longest-prefix lookup.
use ssrfguard.Base.{
  ◌≤◌, ◌≡◌, ◌≢◌, ◌↔◌, inl, inr, true, false, List, [], ◌∷◌, String, none, some, Among, All-among,
  arith, Bool-cases, sym, ap, ◌∙◌, ok, Option-cases,
}
use ssrfguard.Net.{IpNetwork, IpAddress, version_of, contains}
use ssrfguard.Net.Laws.{contains-version}
use ssrfguard.Registry.Defs.{Block}
use ssrfguard.Address.Defs.{AddressTable, blocks_of, first_containing, match, post_init}
use ssrfguard.Address.Index.{IsSorted, IsDistinct, IsBuilt, post_init-IsBuilt}

-- The most specific row that contains an address: no other row that contains it is longer.
pub record IsMostSpecific (bs : List Block) (a : IpAddress) (b : Block) : Type 0 where
  pub listed : Among b bs
  pub holds : contains b.network a ≡ true
  pub longest :
      (c : Block)
      → Among c bs
      → contains c.network a ≡ true
      → c.network.prefixlen ≤ b.network.prefixlen

first_containing-some :
    (a : IpAddress) (bs : List Block) (b : Block)
    → IsSorted bs
    → first_containing a bs ≡ some b
    → IsMostSpecific bs a b
unfolding first_containing
first_containing-some a [] b s h = cc
first_containing-some a (c ∷ cs) b (le, s) h = elim (Bool-cases (contains c.network a)) [
  | inl e ↦
      let same : c ≡ b = ground arith in
      record {
        listed = inl (sym same);
        holds = rw (← same) e;
        longest = λ d m k. elim m [
          | inl here ↦ rw (here, same) (omega arith)
          | inr later ↦
              rw (← same) (All-among (λ x. x.network.prefixlen ≤ c.network.prefixlen) cs le d later)
        ];
      }
  | inr e ↦
      let r = first_containing-some a cs b s (ground arith) in
      record {
        listed = inr r.listed;
        holds = r.holds;
        longest = λ d m k. elim m [ inl here ↦ absurd (cc) | inr later ↦ r.longest d later k ];
      }
]

first_containing-none :
    (a : IpAddress) (bs : List Block)
    → first_containing a bs ≡ none
    → (c : Block) → Among c bs
    → contains c.network a ≡ false
unfolding first_containing
first_containing-none a [] h c m = absurd (m tt)
first_containing-none a (b ∷ bs) h c m = elim (Bool-cases (contains b.network a)) [
  | inl e ↦ absurd (ground arith)
  | inr e ↦ elim m [
    | inl here ↦ rw here e
    | inr later ↦ first_containing-none a bs (ground arith) c later
  ]
]

module _ (bs : List Block) (t : AddressTable) (built : IsBuilt bs t) (a : IpAddress) where
  -- On a constructed table a hit is a row that contains the address, and no row that contains it
  -- has a longer prefix.
  pub match-IsMostSpecific : (b : Block) → match t a ≡ some b → IsMostSpecific bs a b
  unfolding match
  match-IsMostSpecific b h =
      let r =
        first_containing-some a (blocks_of t (version_of a)) b (built.sorted (version_of a)) h in
      record {
        listed = ((built.indexed (version_of a) b).0 r.listed).0;
        holds = r.holds;
        longest = λ c m k.
            r.longest c ((built.indexed (version_of a) c).1 (m, contains-version c.network a k)) k;
      }

  -- A miss means that no row contains the address.
  pub match-none : match t a ≡ none → (c : Block) → Among c bs → contains c.network a ≡ false
  unfolding match
  match-none h c m = elim (Bool-cases (contains c.network a)) [
    | inl e ↦
        first_containing-none a (blocks_of t (version_of a)) h c
          ((built.indexed (version_of a) c).1 (m, contains-version c.network a e))
    | inr e ↦ e
  ]

-- A network is determined by one address in it and its prefix length.
contains-same :
    (m n : IpNetwork) (a : IpAddress)
    → contains m a ≡ true
    → contains n a ≡ true
    → m.prefixlen ≡ n.prefixlen
    → m ≡ n
unfolding contains
contains-same m n a h k e =
    let v : m.version ≡ n.version = contains-version m a h ∙ sym (contains-version n a k) in
    ground (arith, v)

IsDistinct-unique :
    (bs : List Block)
    → IsDistinct bs
    → (b c : Block) → Among b bs
    → Among c bs
    → b.network ≡ c.network
    → b ≡ c
IsDistinct-unique [] d b c m k e = absurd (m tt)
IsDistinct-unique (x ∷ xs) (new, d) b c m k e = elim m [
  | inl p ↦ elim k [
    | inl q ↦ p ∙ sym q
    | inr q ↦ absurd (All-among (λ y. y.network ≢ x.network) xs new c q (cc))
  ]
  | inr p ↦ elim k [
    | inl q ↦ absurd (All-among (λ y. y.network ≢ x.network) xs new b p (cc))
    | inr q ↦ IsDistinct-unique xs d b c p q e
  ]
]

-- The most specific row is unique where no network is named twice.
pub IsMostSpecific-unique :
    (bs : List Block) (a : IpAddress) (b c : Block)
    → IsDistinct bs
    → IsMostSpecific bs a b
    → IsMostSpecific bs a c
    → b ≡ c
IsMostSpecific-unique bs a b c d p q =
    let up = q.longest b p.listed p.holds in
    let down = p.longest c q.listed q.holds in
    let len : b.network.prefixlen ≡ c.network.prefixlen = omega arith in
    IsDistinct-unique bs d b c p.listed q.listed
      (contains-same b.network c.network a p.holds q.holds len)

-- Lookup finds the most specific row, and only that one.
pub match-some_iff :
    (bs : List Block) (t : AddressTable)
    → IsBuilt bs t
    → (a : IpAddress) (b : Block) → (match t a ≡ some b) ↔ IsMostSpecific bs a b
match-some_iff bs t built a b = (match-IsMostSpecific bs t built a b, from)
  where
    from : IsMostSpecific bs a b → match t a ≡ some b
    from p = elim (Option-cases (match t a)) [
      | inl e ↦ absurd (cc (match-none bs t built a e b p.listed, p.holds))
      | inr (c, e) ↦ rw e (
          ap some (
            IsMostSpecific-unique bs a c b built.distinct (match-IsMostSpecific bs t built a c e)
              p))
    ]

-- Lookup by longest prefix, for every list of blocks from which a table is constructed: a hit is
-- exactly the one row that contains the address and than which no row that contains it is longer.
pub match-longest_prefix :
    (bs : List Block) (snapshot : String) (t : AddressTable) (a : IpAddress) (b : Block)
    → post_init bs snapshot ≡ ok t
    → (match t a ≡ some b) ↔ IsMostSpecific bs a b
match-longest_prefix bs snapshot t a b h =
    match-some_iff bs t (post_init-IsBuilt bs snapshot t h) a b

IsMostSpecific-Among :
    (bs cs : List Block) (a : IpAddress) (b : Block)
    → ((x : Block) → Among x bs ↔ Among x cs)
    → IsMostSpecific bs a b
    → IsMostSpecific cs a b
IsMostSpecific-Among bs cs a b same p = record {
  listed = (same b).0 p.listed;
  holds = p.holds;
  longest = λ c m k. p.longest c ((same c).1 m) k;
}

-- The order in which the blocks are given does not matter: two tables with the same rows answer
-- every lookup alike.
pub match_order :
    (bs cs : List Block) (p q : String) (t u : AddressTable) (a : IpAddress)
    → post_init bs p ≡ ok t
    → post_init cs q ≡ ok u
    → ((x : Block) → Among x bs ↔ Among x cs)
    → match t a ≡ match u a
match_order bs cs p q t u a h k same = elim (Option-cases (match t a)) [
  | inl e ↦ elim (Option-cases (match u a)) [
    | inl f ↦ e ∙ sym f
    | inr (c, f) ↦
        let r = (match-longest_prefix cs q u a c k).0 f in
        let s = IsMostSpecific-Among cs bs a c (λ x. ((same x).1, (same x).0)) r in
        absurd (cc (e, (match-longest_prefix bs p t a c h).1 s))
  ]
  | inr (b, e) ↦
      let r = (match-longest_prefix bs p t a b h).0 e in
      e ∙ sym ((match-longest_prefix cs q u a b k).1 (IsMostSpecific-Among bs cs a b same r))
]
