-- ===== src/Observer/Watch.antt =====
-- `RebindingWatch` of src/ssrfguard/_observer.py. Its map is a list of hosts, oldest first, and
-- a time is a number of ticks of the monotonic clock.
use ssrfguard.Base.{
  ℕ, suc, ◌+◌, Bool, true, false, not, ltb, List, [], ◌∷◌, ◌++◌, Option, none, some, Text, text_eq,
  length, any, keep, Result, ok, raise, ℤ, is_below, to_ℕ, if◌then◌else◌,
}
use ssrfguard.Net.{ip_eq}
use ssrfguard.Errors.{Exception, value_error}
use ssrfguard.Observer.Decision.{Decision, Stage, address_stage, Outcome, permits, refuses, Shown}

-- `_Sighting`
pub record Sighting : Type 0 where
  pub addresses : List Shown
  pub at : ℕ

abbrev pub Seen : Type 0
Seen = List (Text × Sighting)

pub record Watch : Type 0 where
  pub window : ℕ
  pub capacity : ℕ
  pub seen : Seen

-- `RebindingWatch(…)`
unfoldable pub new_watch : ℤ → ℤ → Result Exception Watch
new_watch window capacity =
    if is_below window 1
    then raise value_error
    else if is_below capacity 1
    then raise value_error
    else ok (record { window = to_ℕ window; capacity = to_ℕ capacity; seen = [] })

-- `a == b` on the texts of two addresses
unfoldable pub shown_eq : Shown → Shown → Bool
shown_eq none none = true
shown_eq (some a) (some b) = ip_eq a b
shown_eq _ _ = false

-- `_forget`
abbrev pub is_fresh : ℕ → ℕ → Text × Sighting → Bool
is_fresh window now (host, s) = not (ltb (s.at + window) now)

abbrev pub forget : ℕ → ℕ → Seen → Seen
forget window now seen = keep (is_fresh window now) seen

-- `_seen.get(host)`, and `_seen` without the host
unfoldable pub sighting_of : Text → Seen → Option Sighting
sighting_of host [] = none
sighting_of host ((h, s) ∷ more) =
    let rest = sighting_of host more in if text_eq h host then some s else rest

abbrev pub is_other : Text → Text × Sighting → Bool
is_other host (h, s) = not (text_eq h host)

abbrev pub without : Text → Seen → Seen
without host seen = keep (is_other host) seen

-- The loop that pops the oldest hosts.
unfoldable pub evict : ℕ → Seen → Seen
evict capacity [] = []
evict capacity (e ∷ more) =
    let rest = evict capacity more in if ltb capacity (suc (length more)) then rest else e ∷ more

abbrev pub addresses_of : Option Sighting → List Shown
addresses_of none = []
addresses_of (some s) = s.addresses

abbrev pub with_address : List Shown → Shown → List Shown
with_address addresses a = if any (shown_eq a) addresses then addresses else addresses ++ a ∷ []

-- `_remember`
unfoldable pub remember : ℕ → Text → Shown → ℕ → Seen → Seen
remember capacity host a now seen = evict capacity (
    without host seen
    ++ (
      host,
      record { addresses = with_address (addresses_of (sighting_of host seen)) a; at = now },
    )
      ∷ [])

abbrev pub is_address_stage : Stage → Bool
is_address_stage address_stage = true
is_address_stage _ = false

-- The other addresses on file, for a refusal.
abbrev pub others_of : Shown → Option Sighting → List Shown
others_of a none = []
others_of a (some s) = keep (λ b. not (shown_eq b a)) s.addresses

abbrev pub enrich : Decision → List Shown → Decision
enrich d [] = d
enrich d (o ∷ os) = record d { also_seen = o ∷ os }

-- `_compare`, on what `_forget` has left
abbrev pub judge : ℕ → Decision → Text → ℕ → Seen → Outcome → Decision × Seen
judge capacity d host now seen permits = (d, remember capacity host d.address now seen)
judge capacity d host now seen refuses =
    (enrich d (others_of d.address (sighting_of host seen)), seen)

-- `__call__`, up to the observer it wraps: the decision that is passed on
abbrev pub watch_host : Watch → Decision → ℕ → Option Text → Decision × Seen
watch_host w d now none = (d, w.seen)
watch_host w d now (some host) =
    if is_address_stage d.stage
    then judge w.capacity d host now (forget w.window now w.seen) d.outcome
    else (d, w.seen)

unfoldable pub watch : Watch → Decision → ℕ → Decision × Watch
watch w d now = let (d', seen) = watch_host w d now d.host in (d', record w { seen = seen })
