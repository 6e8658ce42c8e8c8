-- ===== src/Registry/Defs.antt =====
-- `Reach`, `Block` and the row builder `_b` of src/ssrfguard/_registry.py.
use ssrfguard.Base.{ℕ, String, Bool, true, false}
use ssrfguard.Net.{Version, IpNetwork}

pub data Reach : Type 0 where
  denied permitted translated : Reach

pub record Block : Type 0 where
  pub network : IpNetwork
  pub name : String
  pub rfc : String
  pub reach : Reach
  pub note : String

-- `_b`, with the CIDR given as its family, network address and prefix length
unfoldable pub row : Version → ℕ → ℕ → String → String → Reach → String → Block
row version base prefixlen name rfc reach note = record {
  network = record { version = version; base = base; prefixlen = prefixlen };
  name = name;
  rfc = rfc;
  reach = reach;
  note = note;
}

-- `block.reach is Reach.…`
abbrev pub is_denied : Reach → Bool
is_denied denied = true
is_denied _ = false

abbrev pub is_permitted : Reach → Bool
is_permitted permitted = true
is_permitted _ = false

abbrev pub is_translated : Reach → Bool
is_translated translated = true
is_translated _ = false

-- The date that the registries were fetched.
abbrev pub registry_snapshot : String
registry_snapshot = "2026-08-22"
