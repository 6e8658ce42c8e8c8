-- ===== src/Tests/Tables.antt =====
-- The table of denied networks, on the shipped rows and on a table of two.
use ssrfguard.Base.{
  ℕ, ◌≤◌, ◌≡◌, ◌≢◌, refl, ◌⊎◌, inl, inr, ◌↔◌, true, false, [], ◌∷◌, none, some, All, Among, length,
  codes, has_char, ◌||◌, ok,
}
use ssrfguard.Net.{ipv4, v4, v6, IpNetwork, contains}
use ssrfguard.Net.Parse.{ip_address}
use ssrfguard.Registry.Defs.{denied, Block, row}
use ssrfguard.Registry.Table.{table, iana_ipv4}
use ssrfguard.Address.Defs.{AddressTable, post_init, match, classify}
use ssrfguard.Address.Index.{IsDistinct, post_init-ok_iff}
use ssrfguard.Address.Match.{IsMostSpecific, match-longest_prefix, match_order}
use ssrfguard.Address.Classify.{IsOpen, IsCarried, classify-IsOpen_iff, classify-explained}
use ssrfguard.Address.Default.{default_denied, is_solid, classify-solid}
use ssrfguard.Address.Wrappers.{well_known, prefix_of, payload, IsPermitted, classify-payload}
use ssrfguard.Policy.Hosts.{literal_address, numeric_shaped}
use ssrfguard.Policy.Literal.{shape-literal}
use ssrfguard.Policy.Addresses.{permits_address, permits_address_iff}
use ssrfguard.Tests.Data.{ten, ten_one, two_rows, policy, public_ip, private_ip}

-- 64:ff9b::a9fe:a9fe, the metadata service's 169.254.169.254 inside the well-known prefix
abbrev wrapped : ℕ
wrapped = 0x64ff9b0000000000000000a9fea9fe

wrapped_inside : contains (prefix_of well_known) (v6 wrapped []) ≡ true
unfolding contains
wrapped_inside = refl

classify-payload_example :
    ((classify default_denied (v6 wrapped [])).blocked ≡ false)
    ↔ All IsPermitted (payload well_known wrapped)
classify-payload_example = classify-payload well_known wrapped [] wrapped_inside

classify-IsOpen_iff_example :
    ((classify two_rows private_ip).blocked ≡ false)
    ↔ (IsOpen two_rows private_ip ⊎ IsCarried two_rows private_ip)
classify-IsOpen_iff_example = classify-IsOpen_iff two_rows private_ip

classify-explained_example :
    (length (classify two_rows private_ip).chain ≤ 1)
    × ((classify two_rows private_ip).blocked ≡ true → (classify two_rows private_ip).block ≢ none)
classify-explained_example = classify-explained two_rows private_ip

builds : post_init (ten ∷ (ten_one ∷ [])) "test" ≡ ok two_rows
unfolding post_init
builds = refl

match-longest_prefix_example :
    (match two_rows (v4 0x0a010203) ≡ some ten_one)
    ↔ IsMostSpecific (ten ∷ (ten_one ∷ [])) (v4 0x0a010203) ten_one
match-longest_prefix_example =
    match-longest_prefix (ten ∷ (ten_one ∷ [])) "test" two_rows (v4 0x0a010203) ten_one builds

abbrev turned : AddressTable
turned = record {
  blocks = ten_one ∷ (ten ∷ []);
  snapshot = "test";
  index_v4 = ten_one ∷ (ten ∷ []);
  index_v6 = [];
}

builds_turned : post_init (ten_one ∷ (ten ∷ [])) "test" ≡ ok turned
unfolding post_init
builds_turned = refl

same_rows : (x : Block) → Among x (ten ∷ (ten_one ∷ [])) ↔ Among x (ten_one ∷ (ten ∷ []))
same_rows x = (swap ten ten_one, swap ten_one ten)
  where
    swap : (a b : Block) → Among x (a ∷ (b ∷ [])) → Among x (b ∷ (a ∷ []))
    swap a b (inl e) = inr (inl e)
    swap a b (inr (inl e)) = inl e
    swap a b (inr (inr n)) = absurd (n tt)

match_order_example : match two_rows private_ip ≡ match turned private_ip
match_order_example =
    match_order (ten ∷ (ten_one ∷ [])) (ten_one ∷ (ten ∷ [])) "test" "test" two_rows turned
      private_ip builds builds_turned same_rows

post_init-ok_iff_example :
    ((t : AddressTable) × (post_init (ten ∷ (ten_one ∷ [])) "test" ≡ ok t))
    ↔ IsDistinct (ten ∷ (ten_one ∷ []))
post_init-ok_iff_example = post_init-ok_iff (ten ∷ (ten_one ∷ [])) "test"

abbrev loopback_row : Block
loopback_row = row ipv4 0x7f000000 8 "Loopback" "RFC1122" denied ""

listed : Among loopback_row table
unfolding table iana_ipv4 row
listed = inr (inr (inr (inr (inl refl))))

solid : is_solid loopback_row ≡ true
unfolding table
solid = refl

inside : contains loopback_row.network (v4 0x7f010203) ≡ true
unfolding contains row
inside = refl

classify-solid_example : (classify default_denied (v4 0x7f010203)).blocked ≡ true
classify-solid_example = classify-solid loopback_row (v4 0x7f010203) listed solid inside

permits_address_iff_example : (permits_address policy public_ip ≡ true) ↔ (
    ((n : IpNetwork) × Among n policy.allowed_networks × (contains n public_ip ≡ true))
    ⊎ ((classify policy.denied_networks public_ip).blocked ≡ false))
permits_address_iff_example = permits_address_iff policy public_ip

literal_loopback : literal_address (codes "127.0.0.1") ≡ some (v4 0x7f000001)
unfolding ip_address
literal_loopback = refl

shape-literal_example :
    (numeric_shaped (codes "127.0.0.1") || has_char b':' (codes "127.0.0.1")) ≡ true
shape-literal_example = shape-literal (codes "127.0.0.1") (v4 0x7f000001) literal_loopback
