-- ===== src/Tests/Generator.antt =====
-- The generator of the address table.
use ssrfguard.Base.{
  ℕ, ◌+◌, ◌≡◌, refl, Bool, List, [], ◌∷◌, ◌++◌, codes, Text, is_digit, has_char, map, drop, ok,
  raise,
}
use ssrfguard.Registry.Defs.{Block, Reach, denied, permitted}
use ssrfguard.Registry.Table.{unregistered}
use ssrfguard.Refresh.Curated.{Entry, additions, metadata, metadata_entry}
use ssrfguard.Refresh.Defs.{Python, Row, transcribe, all_entries}
use ssrfguard.Refresh.Emit.{Printer, emit}
use ssrfguard.Refresh.Transcribed.{IsTranscribed, all_entries-IsTranscribed}

-- Digits are the ASCII ones, and a block is what has a slash.
abbrev python : Python
python = record { is_decimal = is_digit; is_network = has_char b'/' }

-- A cell of two blocks, one with a footnote.
abbrev dns_row : Row
dns_row = record {
  address_block = codes "192.0.0.170/32 [1], 192.0.0.171/32";
  name = codes "NAT64/DNS64  \"Discovery\"";
  rfc = codes "[RFC 8880][RFC7050], section 2.2";
  termination_date = codes "N/A";
  globally_reachable = codes " False";
}

abbrev anycast_row : Row
anycast_row = record {
  address_block = codes "2001:1::1/128";
  name = codes "Port Control Protocol Anycast";
  rfc = codes "[RFC7723]";
  termination_date = codes "";
  globally_reachable = codes "True [3]";
}

abbrev dns_entry : Text → Entry
dns_entry cidr = record {
  cidr = cidr;
  name = codes "NAT64/DNS64 Discovery";
  rfc = codes "RFC7050, RFC8880";
  reach = denied;
  note = [];
}

abbrev anycast_entry : Entry
anycast_entry = record {
  cidr = codes "2001:1::1/128";
  name = codes "Port Control Protocol Anycast";
  rfc = codes "RFC7723";
  reach = permitted;
  note = [];
}

abbrev entries : List Entry
entries =
    dns_entry (codes "192.0.0.170/32")
    ∷ (dns_entry (codes "192.0.0.171/32")
        ∷ (anycast_entry ∷ (additions ++ map metadata_entry metadata)))

transcribes : all_entries python (dns_row ∷ []) (anycast_row ∷ []) ≡ ok entries
unfolding all_entries transcribe ssrfguard.Refresh.Defs.transcribe_blocks ssrfguard.Base.split_on
    ssrfguard.Base.text_eq ssrfguard.Refresh.Defs.clean ssrfguard.Refresh.Texts.strip
    ssrfguard.Base.starts_with ssrfguard.Refresh.Defs.name_of ssrfguard.Refresh.Defs.rfcs_of
    ssrfguard.Refresh.Defs.verdict ssrfguard.Refresh.Texts.find_text
    ssrfguard.Refresh.Defs.verdict_by_row
transcribes = refl

abbrev strange_row : Row
strange_row = record dns_row { address_block = codes "192.0.0.170/32, see text" }

-- The generator stops at a block that is no network.
stops : all_entries python (strange_row ∷ []) [] ≡ raise (strange_row.name, codes "see text")
unfolding all_entries transcribe ssrfguard.Refresh.Defs.transcribe_blocks ssrfguard.Base.split_on
    ssrfguard.Base.text_eq ssrfguard.Refresh.Defs.clean ssrfguard.Refresh.Texts.strip
    ssrfguard.Base.starts_with ssrfguard.Refresh.Defs.name_of ssrfguard.Refresh.Defs.rfcs_of
    ssrfguard.Refresh.Defs.verdict ssrfguard.Refresh.Texts.find_text
    ssrfguard.Refresh.Defs.verdict_by_row
stops = refl

all_entries-IsTranscribed_example :
    IsTranscribed python ((dns_row ∷ []) ++ (anycast_row ∷ [])) entries
all_entries-IsTranscribed_example =
    all_entries-IsTranscribed python (dns_row ∷ []) (anycast_row ∷ []) entries transcribes

-- What a row of the shipped table and an entry of the generator have in common.
abbrev columns_of_block : Block → Text × Text × Reach × Text
columns_of_block b = (codes b.name, codes b.rfc, b.reach, codes b.note)

abbrev columns_of_entry : Entry → Text × Text × Reach × Text
columns_of_entry e = (e.name, e.rfc, e.reach, e.note)

-- The rows that the generator adds are those at the end of the shipped table.
unregistered_agrees : map columns_of_block unregistered ≡ map columns_of_entry additions
unfolding unregistered ssrfguard.Registry.Defs.row
unregistered_agrees = refl

metadata_agrees :
    map columns_of_block ssrfguard.Registry.Table.metadata
    ≡ map columns_of_entry (map metadata_entry metadata)
unfolding ssrfguard.Registry.Table.metadata ssrfguard.Registry.Defs.row
metadata_agrees = refl

abbrev printer : Printer
printer = record { repr = λ t. codes "'" ++ (t ++ codes "'"); wrap = λ t. t ∷ [] }

emits :
    emit printer
      (dns_entry (codes "::/96") ∷ (record (dns_entry (codes "b")) { note = codes "why" } ∷ []))
    ≡ codes "    _b('::/96', 'NAT64/DNS64 Discovery', 'RFC7050, RFC8880', Reach.DENIED),"
      ++ (10
          ∷ (codes "    _b("
              ++ (10
                  ∷ (codes "        'b', 'NAT64/DNS64 Discovery', 'RFC7050, RFC8880', Reach.DENIED,"
                      ++ (10 ∷ (codes "        \"why\"," ++ (10 ∷ codes "    ),")))))))
unfolding emit ssrfguard.Refresh.Emit.emit_entry
emits = refl
