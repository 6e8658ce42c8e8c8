-- ===== src/Registry/Table.antt =====
-- The shipped address table of src/ssrfguard/_registry.py, row by row, with each CIDR read as
-- its network address and prefix length.
use ssrfguard.Base.{List, [], ◌∷◌, ◌++◌}
use ssrfguard.Net.{ipv4, ipv6}
use ssrfguard.Registry.Defs.{denied, permitted, translated, Block, row}

-- IANA IPv4 Special-Purpose Address Registry
unfoldable pub iana_ipv4 : List Block
unfolding row
iana_ipv4 =
    row ipv4 0 8 "This network" "RFC791" denied ""
    ∷ row ipv4 0 32 "This host on this network" "RFC1122" denied ""
    ∷ row ipv4 0xa000000 8 "Private-Use" "RFC1918" denied ""
    ∷ row ipv4 0x64400000 10 "Shared Address Space" "RFC6598" denied ""
    ∷ row ipv4 0x7f000000 8 "Loopback" "RFC1122" denied ""
    ∷ row ipv4 0xa9fe0000 16 "Link Local" "RFC3927" denied ""
    ∷ row ipv4 0xac100000 12 "Private-Use" "RFC1918" denied ""
    ∷ row ipv4 0xc0000000 24 "IETF Protocol Assignments" "RFC6890" denied ""
    ∷ row ipv4 0xc0000000 29 "IPv4 Service Continuity Prefix" "RFC7335" denied ""
    ∷ row ipv4 0xc0000008 32 "IPv4 dummy address" "RFC7600" denied ""
    ∷ row ipv4 0xc0000009 32 "Port Control Protocol Anycast" "RFC7723" permitted ""
    ∷ row ipv4 0xc000000a 32 "Traversal Using Relays around NAT Anycast" "RFC8155" permitted ""
    ∷ row ipv4 0xc00000aa 32 "NAT64/DNS64 Discovery" "RFC7050, RFC8880" denied ""
    ∷ row ipv4 0xc00000ab 32 "NAT64/DNS64 Discovery" "RFC7050, RFC8880" denied ""
    ∷ row ipv4 0xc0000200 24 "Documentation (TEST-NET-1)" "RFC5737" denied ""
    ∷ row ipv4 0xc01fc400 24 "AS112-v4" "RFC7535" permitted ""
    ∷ row ipv4 0xc034c100 24 "AMT" "RFC7450" permitted ""
    ∷ row ipv4 0xc0586300 24 "Deprecated (6to4 Relay Anycast)" "RFC7526" denied
        "Deprecated allocation; IANA stopped asserting reachability for it."
    ∷ row ipv4 0xc0586302 32 "6a44-relay anycast address" "RFC6751" denied ""
    ∷ row ipv4 0xc0a80000 16 "Private-Use" "RFC1918" denied ""
    ∷ row ipv4 0xc0af3000 24 "Direct Delegation AS112 Service" "RFC7534" permitted ""
    ∷ row ipv4 0xc6120000 15 "Benchmarking" "RFC2544" denied ""
    ∷ row ipv4 0xc6336400 24 "Documentation (TEST-NET-2)" "RFC5737" denied ""
    ∷ row ipv4 0xcb007100 24 "Documentation (TEST-NET-3)" "RFC5737" denied ""
    ∷ row ipv4 0xf0000000 4 "Reserved" "RFC1112" denied ""
    ∷ row ipv4 0xffffffff 32 "Limited Broadcast" "RFC8190, RFC919" denied ""
    ∷ []

-- IANA IPv6 Special-Purpose Address Registry
unfoldable pub iana_ipv6 : List Block
unfolding row
iana_ipv6 =
    row ipv6 0x1 128 "Loopback Address" "RFC4291" denied ""
    ∷ row ipv6 0 128 "Unspecified Address" "RFC4291" denied ""
    ∷ row ipv6 0xffff00000000 96 "IPv4-mapped Address" "RFC4291" translated
        "IANA marks this not globally reachable, which read literally is a flat refusal. That would be a wrong deny: ::ffff:8.8.8.8 reaches 8.8.8.8, and getaddrinfo returns mapped addresses wherever AI_V4MAPPED is in play. Decoding is both safer and more permissive than the registry here, which is unusual and worth the note."
    ∷ row ipv6 0x64ff9b000000000000000000000000 96 "IPv4-IPv6 Translation" "RFC6052" translated
        "IANA marks this globally reachable and is right about routing: the prefix is public. We decode anyway, because the question here is not whether the address is routable but where the packet ends up, and 64:ff9b::7f00:1 ends up at 127.0.0.1. This is the single most important departure in the table; a guard that trusts is_global permits it."
    ∷ row ipv6 0x64ff9b000100000000000000000000 48 "IPv4-IPv6 Translation" "RFC8215" denied ""
    ∷ row ipv6 0x1000000000000000000000000000000 64 "Discard-Only Address Block" "RFC6666" denied ""
    ∷ row ipv6 0x1000000000000010000000000000000 64 "Dummy IPv6 Prefix" "RFC9780" denied ""
    ∷ row ipv6 0x20010000000000000000000000000000 23 "IETF Protocol Assignments" "RFC2928" denied ""
    ∷ row ipv6 0x20010000000000000000000000000000 32 "TEREDO" "RFC4380, RFC8190" translated
        "IANA answers N/A for the same reason as 6to4. Teredo carries two IPv4 addresses: the server in bits 32 to 64 and the client, bit-inverted, in the low 32 (RFC 4380 section 4). Either being internal is disqualifying, so both are decoded."
    ∷ row ipv6 0x20010001000000000000000000000001 128 "Port Control Protocol Anycast" "RFC7723"
        permitted ""
    ∷ row ipv6 0x20010001000000000000000000000002 128 "Traversal Using Relays around NAT Anycast"
        "RFC8155" permitted ""
    ∷ row ipv6 0x20010001000000000000000000000003 128 "DNS-SD Service Registration Protocol Anycast"
        "RFC9665" permitted ""
    ∷ row ipv6 0x20010002000000000000000000000000 48 "Benchmarking" "RFC5180" denied ""
    ∷ row ipv6 0x20010003000000000000000000000000 32 "AMT" "RFC7450" permitted ""
    ∷ row ipv6 0x20010004011200000000000000000000 48 "AS112-v6" "RFC7535" permitted ""
    ∷ row ipv6 0x20010010000000000000000000000000 28 "Deprecated (previously ORCHID)" "RFC4843"
        denied "Deprecated allocation; IANA stopped asserting reachability for it."
    ∷ row ipv6 0x20010020000000000000000000000000 28 "ORCHIDv2" "RFC7343" permitted ""
    ∷ row ipv6 0x20010030000000000000000000000000 28
        "Drone Remote ID Protocol Entity Tags (DETs) Prefix" "RFC9374" permitted ""
    ∷ row ipv6 0x20010db8000000000000000000000000 32 "Documentation" "RFC3849" denied ""
    ∷ row ipv6 0x20020000000000000000000000000000 16 "6to4" "RFC3056" translated
        "IANA answers N/A precisely because reachability depends on the embedded address. 6to4 is deprecated for its relay anycast (RFC 7526) but the prefix still carries an IPv4 destination in bits 16 to 48, so 2002:7f00:1:: reaches 127.0.0.1."
    ∷ row ipv6 0x2620004f800000000000000000000000 48 "Direct Delegation AS112 Service" "RFC7534"
        permitted ""
    ∷ row ipv6 0x3fff0000000000000000000000000000 20 "Documentation" "RFC9637" denied ""
    ∷ row ipv6 0x5f000000000000000000000000000000 16 "Segment Routing (SRv6) SIDs" "RFC9602" denied
        ""
    ∷ row ipv6 0xfc000000000000000000000000000000 7 "Unique-Local" "RFC4193, RFC8190" denied ""
    ∷ row ipv6 0xfe800000000000000000000000000000 10 "Link-Local Unicast" "RFC4291" denied ""
    ∷ []

-- Not carried by the special-purpose registries
unfoldable pub unregistered : List Block
unfolding row
unregistered =
    row ipv6 0 96 "IPv4-Compatible (deprecated)" "RFC4291" translated
      "Deprecated by RFC 4291 section 2.5.5.1 and removed from the registry, so a table built from IANA alone permits it, measured rather than assumed. It embeds an arbitrary IPv4 address in its low 32 bits, so ::7f00:1 reaches 127.0.0.1. The more specific ::1/128 and ::/128 entries win on longest-prefix match, so loopback and unspecified keep their own names."
    ∷ row ipv4 0xe0000000 4 "Multicast" "RFC5771" denied
        "Multicast lives in its own IANA registry, so the special-purpose table does not carry it and a table built from that alone permits 224.0.0.1 and 239.255.255.250, measured rather than assumed. A fetcher has no reason to address a multicast group."
    ∷ row ipv6 0xff000000000000000000000000000000 8 "Multicast" "RFC4291" denied
        "Same gap on the IPv6 side, and worse: ff02::1 is all-nodes and the standard library reports is_global=True for it."
    ∷ row ipv6 0xfec00000000000000000000000000000 10 "Site-Local (deprecated)" "RFC3879" denied
        "Deprecated by RFC 3879 and removed from the registry, so IANA alone permits it, and the standard library reports is_global=True. It is an internal-addressing prefix by construction."
    ∷ []

-- Named only so that a refusal can say what it refused
unfoldable pub metadata : List Block
unfolding row
metadata =
    row ipv4 0xa9fea9fe 32 "Cloud metadata (AWS, GCP, Azure IMDS)" "RFC3927" denied
      "Already inside a denied block; named so the message can say which service this is. tests/test_registry.py asserts the enclosure, so removing this costs a good message and never a denial."
    ∷ row ipv4 0xa9feaa02 32 "Cloud metadata (AWS ECS task)" "RFC3927" denied
        "Already inside a denied block; named so the message can say which service this is. tests/test_registry.py asserts the enclosure, so removing this costs a good message and never a denial."
    ∷ row ipv4 0x646464c8 32 "Cloud metadata (Alibaba Cloud)" "RFC6598" denied
        "Already inside a denied block; named so the message can say which service this is. tests/test_registry.py asserts the enclosure, so removing this costs a good message and never a denial."
    ∷ row ipv4 0xc00000c0 32 "Cloud metadata (Oracle Cloud)" "RFC6890" denied
        "Already inside a denied block; named so the message can say which service this is. tests/test_registry.py asserts the enclosure, so removing this costs a good message and never a denial."
    ∷ row ipv6 0xfd000ec2000000000000000000000254 128 "Cloud metadata (AWS IMDS over IPv6)"
        "RFC4193" denied
        "Already inside a denied block; named so the message can say which service this is. tests/test_registry.py asserts the enclosure, so removing this costs a good message and never a denial."
    ∷ []

unfoldable pub table : List Block
unfolding iana_ipv4 iana_ipv6 unregistered metadata
table = iana_ipv4 ++ (iana_ipv6 ++ (unregistered ++ metadata))
