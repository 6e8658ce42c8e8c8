-- ===== src/Refresh/Curated.antt =====
-- The rows that scripts/refresh_registry.py carries itself.
use ssrfguard.Base.{List, [], ◌∷◌, codes, Text}
use ssrfguard.Registry.Defs.{Reach, denied, translated}

-- A row of the table to be.
pub record Entry : Type 0 where
  pub cidr : Text
  pub name : Text
  pub rfc : Text
  pub reach : Reach
  pub note : Text

-- `TRANSLATED_PREFIXES`
abbrev pub translated_prefixes : List (Text × Text)
translated_prefixes =
    (
      codes "::ffff:0:0/96",
      codes
          "IANA marks this not globally reachable, which read literally is a flat refusal. That would be a wrong deny: ::ffff:8.8.8.8 reaches 8.8.8.8, and getaddrinfo returns mapped addresses wherever AI_V4MAPPED is in play. Decoding is both safer and more permissive than the registry here, which is unusual and worth the note.",
    )
    ∷ ((
      codes "64:ff9b::/96",
      codes
          "IANA marks this globally reachable and is right about routing: the prefix is public. We decode anyway, because the question here is not whether the address is routable but where the packet ends up, and 64:ff9b::7f00:1 ends up at 127.0.0.1. This is the single most important departure in the table; a guard that trusts is_global permits it.",
    )
        ∷ ((
          codes "2002::/16",
          codes
              "IANA answers N/A precisely because reachability depends on the embedded address. 6to4 is deprecated for its relay anycast (RFC 7526) but the prefix still carries an IPv4 destination in bits 16 to 48, so 2002:7f00:1:: reaches 127.0.0.1.",
        )
            ∷ ((
              codes "2001::/32",
              codes
                  "IANA answers N/A for the same reason as 6to4. Teredo carries two IPv4 addresses: the server in bits 32 to 64 and the client, bit-inverted, in the low 32 (RFC 4380 section 4). Either being internal is disqualifying, so both are decoded.",
            )
                ∷ [])))

-- `ADDITIONS`
abbrev pub additions : List Entry
additions =
    (record {
      cidr = codes "::/96";
      name = codes "IPv4-Compatible (deprecated)";
      rfc = codes "RFC4291";
      reach = translated;
      note =
          codes
            "Deprecated by RFC 4291 section 2.5.5.1 and removed from the registry, so a table built from IANA alone permits it, measured rather than assumed. It embeds an arbitrary IPv4 address in its low 32 bits, so ::7f00:1 reaches 127.0.0.1. The more specific ::1/128 and ::/128 entries win on longest-prefix match, so loopback and unspecified keep their own names.";
    })
    ∷ ((record {
      cidr = codes "224.0.0.0/4";
      name = codes "Multicast";
      rfc = codes "RFC5771";
      reach = denied;
      note =
          codes
            "Multicast lives in its own IANA registry, so the special-purpose table does not carry it and a table built from that alone permits 224.0.0.1 and 239.255.255.250, measured rather than assumed. A fetcher has no reason to address a multicast group.";
    })
        ∷ ((record {
          cidr = codes "ff00::/8";
          name = codes "Multicast";
          rfc = codes "RFC4291";
          reach = denied;
          note =
              codes
                "Same gap on the IPv6 side, and worse: ff02::1 is all-nodes and the standard library reports is_global=True for it.";
        })
            ∷ ((record {
              cidr = codes "fec0::/10";
              name = codes "Site-Local (deprecated)";
              rfc = codes "RFC3879";
              reach = denied;
              note =
                  codes
                    "Deprecated by RFC 3879 and removed from the registry, so IANA alone permits it, and the standard library reports is_global=True. It is an internal-addressing prefix by construction.";
            })
                ∷ [])))

-- `RENAMES`
abbrev pub renames : List (Text × Text)
renames = (codes "IPv4-IPv6 Translat.", codes "IPv4-IPv6 Translation") ∷ []

-- `METADATA`
abbrev pub metadata : List (Text × Text × Text)
metadata =
    (codes "169.254.169.254/32", codes "Cloud metadata (AWS, GCP, Azure IMDS)", codes "RFC3927")
    ∷ ((codes "169.254.170.2/32", codes "Cloud metadata (AWS ECS task)", codes "RFC3927")
        ∷ ((codes "100.100.100.200/32", codes "Cloud metadata (Alibaba Cloud)", codes "RFC6598")
            ∷ ((codes "192.0.0.192/32", codes "Cloud metadata (Oracle Cloud)", codes "RFC6890")
                ∷ ((
                  codes "fd00:ec2::254/128",
                  codes "Cloud metadata (AWS IMDS over IPv6)",
                  codes "RFC4193",
                )
                    ∷ []))))

-- The entry that `main` makes of a row of `METADATA`.
abbrev pub metadata_entry : Text × Text × Text → Entry
metadata_entry (cidr, name, rfc) = record {
  cidr = cidr;
  name = name;
  rfc = rfc;
  reach = denied;
  note =
      codes
        "Already inside a denied block; named so the message can say which service this is. tests/test_registry.py asserts the enclosure, so removing this costs a good message and never a denial.";
}
