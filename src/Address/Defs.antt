-- ===== src/Address/Defs.antt =====
-- The definitions of src/ssrfguard/_address.py.
use ssrfguard.Base.{
  ℕ, zero, suc, ◌-◌, ◌/◌, ◌%◌, ◌^◌, Bool, true, false, ◌||◌, leb, List, [], ◌∷◌, ◌++◌, Option, none,
  some, String, Result, ok, raise, if◌then◌else◌, keep, any,
}
use ssrfguard.Net.{
  Version, ipv4, ipv6, version_eq, IpAddress, v4, v6, version_of, IpNetwork, net_eq, contains,
}
use ssrfguard.Registry.Defs.{denied, permitted, translated, Block}

abbrev pub Hop : Type 0
Hop = Block × IpAddress

pub record Verdict : Type 0 where
  pub address : IpAddress
  pub blocked : Bool
  pub block : Option Block
  pub chain : List Hop

-- The refusal's reason, with the parts of its sentence: the hops walked and the deciding block.
pub data BlockReason : Type 0 where
  by_policy : BlockReason
  in_block : List Hop → Block → BlockReason

-- `Verdict.reason`; `none` is the empty string of a verdict that does not block
unfoldable pub reason : Verdict → Option BlockReason
reason v =
    if v.blocked
    then elim v.block [ none ↦ some by_policy | some b ↦ some (in_block v.chain b) ]
    else none

pub record AddressTable : Type 0 where
  pub blocks : List Block
  pub snapshot : String
  pub index_v4 : List Block
  pub index_v6 : List Block

abbrev pub max_translation_depth : ℕ
max_translation_depth = 2

abbrev pub v4_mapped : IpNetwork
v4_mapped = record { version = ipv6; base = 0xffff00000000; prefixlen = 96 }

abbrev pub v4_compatible : IpNetwork
v4_compatible = record { version = ipv6; base = 0; prefixlen = 96 }

abbrev pub nat64 : IpNetwork
nat64 = record { version = ipv6; base = 0x64ff9b000000000000000000000000; prefixlen = 96 }

abbrev pub sixtofour : IpNetwork
sixtofour = record { version = ipv6; base = 0x20020000000000000000000000000000; prefixlen = 16 }

abbrev pub teredo : IpNetwork
teredo = record { version = ipv6; base = 0x20010000000000000000000000000000; prefixlen = 32 }

-- `packed & 0xFFFFFFFF` and, for a number below 2^128, `~packed & 0xFFFFFFFF`
abbrev pub low32 : ℕ → ℕ
low32 packed = packed % 2 ^ 32

abbrev pub inverted32 : ℕ → ℕ
inverted32 packed = 2 ^ 32 - 1 - packed % 2 ^ 32

-- `_embedded_v4`
unfoldable pub embedded_v4 : ℕ → IpNetwork → List IpAddress
unfolding net_eq
embedded_v4 packed network =
    if (net_eq network v4_mapped || net_eq network v4_compatible) || net_eq network nat64
    then v4 (low32 packed) ∷ []
    else if net_eq network sixtofour
    then v4 (low32 (packed / 2 ^ 80)) ∷ []
    else if net_eq network teredo
    then v4 (low32 (packed / 2 ^ 64)) ∷ v4 (inverted32 packed) ∷ []
    else []

-- `sorted(blocks, key=prefixlen, reverse=True)`, which keeps the order of equal keys
unfoldable pub insert_desc : Block → List Block → List Block
insert_desc b [] = b ∷ []
insert_desc b (c ∷ cs) =
    if leb c.network.prefixlen b.network.prefixlen then b ∷ (c ∷ cs) else c ∷ insert_desc b cs

unfoldable pub sort_desc : List Block → List Block
unfolding insert_desc
sort_desc [] = []
sort_desc (b ∷ bs) = insert_desc b (sort_desc bs)

abbrev pub of_version : Version → List Block → List Block
of_version version blocks = keep (λ b. version_eq b.network.version version) blocks

-- The loop of `__post_init__` over `seen` and `duplicates`.
unfoldable pub duplicates_from : List IpNetwork → List Block → List IpNetwork
unfolding net_eq
duplicates_from seen [] = []
duplicates_from seen (b ∷ bs) =
    let later = duplicates_from (b.network ∷ seen) bs in
    if any (net_eq b.network) seen then b.network ∷ later else later

-- `AddressTable(blocks, snapshot=…)`: the duplicates, or the table with its index
unfoldable pub post_init : List Block → String → Result (List IpNetwork) AddressTable
unfolding duplicates_from sort_desc
post_init blocks snapshot = elim (duplicates_from [] blocks) [
  | [] ↦ ok (record {
    blocks = blocks;
    snapshot = snapshot;
    index_v4 = sort_desc (of_version ipv4 blocks);
    index_v6 = sort_desc (of_version ipv6 blocks);
  })
  | d ∷ ds ↦ raise (d ∷ ds)
]

abbrev pub blocks_of : AddressTable → Version → List Block
blocks_of t ipv4 = t.index_v4
blocks_of t ipv6 = t.index_v6

-- The loop of `match`.
unfoldable pub first_containing : IpAddress → List Block → Option Block
unfolding contains
first_containing a [] = none
first_containing a (b ∷ bs) = if contains b.network a then some b else first_containing a bs

unfoldable pub match : AddressTable → IpAddress → Option Block
unfolding first_containing
match t a = first_containing a (blocks_of t (version_of a))

abbrev pub is_v6 : IpAddress → Bool
is_v6 (v4 n) = false
is_v6 (v6 n zone) = true

abbrev pub verdict : IpAddress → Bool → Option Block → List Hop → Verdict
verdict a blocked block chain = record {
  address = a;
  blocked = blocked;
  block = block;
  chain = chain;
}

-- The loop over the embedded addresses; `again` is the recursive call at one of them.
unfoldable pub check_inner :
    (IpAddress → List Hop → Verdict) → IpAddress → Block → List Hop → List IpAddress → Verdict
check_inner again a b chain [] = verdict a false (some b) chain
check_inner again a b chain (inner ∷ rest) =
    let v = again inner (chain ++ (b, inner) ∷ []) in
    if v.blocked then verdict a true v.block v.chain else check_inner again a b chain rest

-- A translated block: its embedded addresses decide, unless there are none.
unfoldable pub classify_translated :
    (IpAddress → List Hop → Verdict) → IpAddress → Block → List Hop → Verdict
unfolding check_inner embedded_v4
classify_translated again (v4 n) b chain = verdict (v4 n) true (some b) chain
classify_translated again (v6 n zone) b chain = elim (embedded_v4 n b.network) [
  | [] ↦ verdict (v6 n zone) true (some b) chain
  | i ∷ is ↦ check_inner again (v6 n zone) b chain (i ∷ is)
]

-- The body of `_classify`. `again` is the recursive call, `none` where the code's test
-- `len(chain) >= _MAX_TRANSLATION_DEPTH` refuses to make it.
unfoldable pub classify_step :
    Option (IpAddress → List Hop → Verdict) → AddressTable → IpAddress → List Hop → Verdict
unfolding match classify_translated
classify_step again t a chain = elim (match t a) [
  | none ↦ verdict a false none chain
  | some b ↦ elim b.reach [
    | permitted ↦ verdict a false (some b) chain
    | denied ↦ verdict a true (some b) chain
    | translated ↦ elim again [
      | none ↦ verdict a true (some b) chain
      | some f ↦ classify_translated f a b chain
    ]
  ]
]

-- `_classify`. The first argument is `_MAX_TRANSLATION_DEPTH - len(chain)`, which every call
-- lowers by the one hop that it adds to the chain.
unfoldable pub classify_from : ℕ → AddressTable → IpAddress → List Hop → Verdict
unfolding classify_step
classify_from zero t = classify_step none t
classify_from (suc left) t = classify_step (some (classify_from left t)) t

-- `classify`, of an address that is already parsed
unfoldable pub classify : AddressTable → IpAddress → Verdict
unfolding classify_from
classify t a = classify_from max_translation_depth t a []

-- `raise_if_blocked`
unfoldable pub raise_if_blocked : Verdict → Result (IpAddress × BlockReason) (Unit {0})
unfolding reason
raise_if_blocked v = elim (reason v) [ none ↦ ok tt | some r ↦ raise (v.address, r) ]
