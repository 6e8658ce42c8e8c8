-- ===== src/Address/Default.antt =====
-- The shipped table, `DEFAULT_DENIED` of src/ssrfguard/_address.py.
use ssrfguard.Base.{
  ◌≡◌, refl, inl, inr, Bool, true, not, ◌||◌, List, [], ◌∷◌, some, Among, arith, Option-cases, ok,
  raise, all,
}
use ssrfguard.Net.{IpAddress, IpNetwork, contains}
use ssrfguard.Net.Laws.{is_inside, contains-is_inside}
use ssrfguard.Registry.Defs.{denied, Block, is_denied, registry_snapshot}
use ssrfguard.Registry.Table.{table}
use ssrfguard.Address.Defs.{AddressTable, match, post_init, classify}
use ssrfguard.Address.Match.{match-longest_prefix, match-none}
use ssrfguard.Address.Index.{IsBuilt, post_init-IsBuilt}
use ssrfguard.Address.Classify.{classify-denied}

abbrev empty_table : AddressTable
empty_table = record { blocks = []; snapshot = ""; index_v4 = []; index_v6 = [] }

-- `AddressTable(TABLE)`; the second case is not met, since construction succeeds.
unfoldable pub default_denied : AddressTable
unfolding post_init table
default_denied = elim (post_init table registry_snapshot) [ ok t ↦ t | raise _ ↦ empty_table ]

-- The shipped rows name no network twice, so the import-time construction succeeds.
pub default_denied-ok : post_init table registry_snapshot ≡ ok default_denied
unfolding default_denied
default_denied-ok = refl

-- Every row that lies in the network passes the test.
abbrev pub within : IpNetwork → (Block → Bool) → List Block → Bool
within n p bs = all (λ c. not (is_inside c.network n) || p c) bs

within-Among :
    (n : IpNetwork) (p : Block → Bool) (bs : List Block) (c : Block)
    → within n p bs ≡ true
    → Among c bs
    → is_inside c.network n ≡ true
    → p c ≡ true
within-Among n p [] c h m i = absurd (m tt)
within-Among n p (b ∷ bs) c h m i = elim m [
  | inl e ↦ ground arith
  | inr r ↦ within-Among n p bs c (ground arith) r i
]

-- A row decides every address in it, up to the rows that lie within it.
pub decided :
    (a : IpAddress) (b : Block) (p : Block → Bool)
    → Among b table
    → within b.network p table ≡ true
    → contains b.network a ≡ true
    → (c : Block) × (match default_denied a ≡ some c) × (p c ≡ true)
decided a b p m w h = elim (Option-cases (match default_denied a)) [
  | inl e ↦ absurd (cc (match-none table default_denied built a e b m))
  | inr (c, e) ↦
      let s =
        (match-longest_prefix table registry_snapshot default_denied a c default_denied-ok).0 e in
      let i = contains-is_inside c.network b.network a s.holds h (s.longest b m h) in
      (c, e, within-Among b.network p table c w s.listed i)
]
  where
    built : IsBuilt table default_denied
    built = post_init-IsBuilt table registry_snapshot default_denied default_denied-ok

-- A denied row inside which the table permits and translates nothing.
abbrev pub is_solid : Block → Bool
is_solid b = within b.network (λ c. is_denied c.reach) table

-- Every address of such a row of the shipped table is refused: all of loopback, the private
-- ranges, link-local with the metadata service, and multicast, not only the tested ones.
pub classify-solid :
    (b : Block) (a : IpAddress)
    → Among b table
    → is_solid b ≡ true
    → contains b.network a ≡ true
    → (classify default_denied a).blocked ≡ true
classify-solid b a m s h =
    let (c, e, d) = decided a b (λ x. is_denied x.reach) m s h in
    let r : c.reach ≡ denied = ground arith in rw (classify-denied default_denied a c e r)
