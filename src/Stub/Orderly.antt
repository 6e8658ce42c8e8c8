-- ===== src/Stub/Orderly.antt =====
-- A whole lookup of src/ssrfguard/resolvers.py keeps the order of its calls.
use ssrfguard.Base.{ℕ, ◌+◌, ◌≤◌, List, [], ◌∷◌, none, Result, ok, raise}
use ssrfguard.Dns.Reply.{Record}
use ssrfguard.Stub.Network.{Calls, Network}
use ssrfguard.Stub.Config.{UdpResolver}
use ssrfguard.Stub.Session.{Session}
use ssrfguard.Stub.Lookup.{Unresolved, unusable_name, needs_literal, no_records, gave_up, escaped}
use ssrfguard.Stub.Played.{IsStray, attempts_at}

module _ (net : Network) (r : UdpResolver) (deadline : ℕ) (start : Calls) where
  abbrev Shut : ℕ → Calls → Type 0
  Shut n = Session net r deadline start n none

  -- How a lookup ends: with no socket open, and what it raises is a `gaierror` or stray.
  abbrev IsGentle {ℓ} : {A : Type ℓ} → Result Unresolved A → Type 0
  IsGentle (raise (escaped e)) = IsStray net r e
  IsGentle (raise (unusable_name _)) = Unit {0}
  IsGentle (raise (needs_literal _)) = Unit {0}
  IsGentle (raise (no_records _)) = Unit {0}
  IsGentle (raise (gave_up _ _ _)) = Unit {0}
  IsGentle (ok _) = Unit {0}

  pub IsOrderly : ℕ → ℕ → Result Unresolved (List Record) × Calls → Type 0
  IsOrderly n more (result, h) = (m : ℕ) × (m ≤ n + more) × Shut m h × IsGentle result

  abbrev attempts_for : List ℕ → ℕ
  attempts_for [] = 0
  attempts_for (_ ∷ more) = attempts_at r r.nameservers + attempts_for more
