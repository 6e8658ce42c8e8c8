-- ===== src/Net.antt =====
-- What the source uses of Python's `ipaddress`: addresses and networks as numbers.
-- src/ssrfguard/_address.py and _policy.py ask for `in`, `==`, `subnet_of`, `version`, `prefixlen`.
pub mod Laws
pub mod Parse
pub mod Shape
use ssrfguard.Base.{
  ℕ, ◌+◌, ◌-◌, ◌*◌, ◌/◌, ◌^◌, ◌≤◌, ◌≡◌, Bool, true, false, ◌&&◌, ◌==◌, leb, Text, text_eq,
}

pub data Version : Type 0 where
  ipv4 ipv6 : Version

abbrev pub version_eq : Version → Version → Bool
version_eq ipv4 ipv4 = true
version_eq ipv6 ipv6 = true
version_eq _ _ = false

-- `max_prefixlen`
abbrev pub width : Version → ℕ
width ipv4 = 32
width ipv6 = 128

-- An IPv6 address carries its zone identifier, empty when there is none.
pub data IpAddress : Type 0 where
  v4 : ℕ → IpAddress
  v6 : ℕ → Text → IpAddress

abbrev pub version_of : IpAddress → Version
version_of (v4 n) = ipv4
version_of (v6 n zone) = ipv6

-- `int(address)`
abbrev pub to_int : IpAddress → ℕ
to_int (v4 n) = n
to_int (v6 n zone) = n

-- `a == b` on addresses
unfoldable pub ip_eq : IpAddress → IpAddress → Bool
ip_eq (v4 a) (v4 b) = a == b
ip_eq (v6 a s) (v6 b t) = a == b && text_eq s t
ip_eq (v4 _) (v6 _ _) = false
ip_eq (v6 _ _) (v4 _) = false

-- `network_address` as a number, and `prefixlen`
pub record IpNetwork : Type 0 where
  pub version : Version
  pub base : ℕ
  pub prefixlen : ℕ

-- `a == b` on networks
unfoldable pub net_eq : IpNetwork → IpNetwork → Bool
net_eq m n = version_eq m.version n.version && (m.base == n.base && m.prefixlen == n.prefixlen)

-- The number of addresses in a network.
abbrev pub span : IpNetwork → ℕ
span n = 2 ^ (width n.version - n.prefixlen)

-- `n & netmask`, for a mask that clears the bits below `size`, a power of two
abbrev pub masked : ℕ → ℕ → ℕ
masked n size = n / size * size

-- `address in network`
unfoldable pub contains : IpNetwork → IpAddress → Bool
contains n a = version_eq (version_of a) n.version && masked (to_int a) (span n) == n.base

-- `broadcast_address`
abbrev pub last_address : IpNetwork → ℕ
last_address n = n.base + span n - 1

-- `inner.subnet_of(outer)`, for two networks of one family
unfoldable pub subnet_of : IpNetwork → IpNetwork → Bool
subnet_of inner outer = leb outer.base inner.base && leb (last_address inner) (last_address outer)

-- `ip_network` refuses a network with host bits set, or a prefix longer than an address.
pub record IsNetwork (n : IpNetwork) : Type 0 where
  pub aligned : masked n.base (span n) ≡ n.base
  pub short : n.prefixlen ≤ width n.version

-- The same as a test.
abbrev pub is_network : IpNetwork → Bool
is_network n = masked n.base (span n) == n.base && leb n.prefixlen (width n.version)
