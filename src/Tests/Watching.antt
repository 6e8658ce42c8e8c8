-- ===== src/Tests/Watching.antt =====
-- A name that is permitted at one address and then refused at another.
use ssrfguard.Base.{
  ℕ, ◌≤◌, ◌≡◌, refl, inl, List, [], ◌∷◌, Option, none, some, Text, codes, length, All, arith,
}
use ssrfguard.Observer.Decision.{Decision, address_stage, Outcome, permits, refuses, Shown}
use ssrfguard.Observer.Watch.{Watch, watch}
use ssrfguard.Observer.Sightings.{IsFiled, IsWatched, watch-IsWatched}
use ssrfguard.Tests.Data.{public_ip, private_ip}

abbrev decision_of : Outcome → Shown → Decision
decision_of outcome a = record {
  stage = address_stage;
  outcome = outcome;
  reason = none;
  url = none;
  host = some (codes "a.example");
  port = none;
  address = a;
  chain = [];
  also_seen = [];
}

abbrev earlier : Decision
earlier = decision_of permits (some public_ip)

abbrev refusal : Decision
refusal = decision_of refuses (some private_ip)

abbrev remembering : Watch
remembering = record {
  window = 60;
  capacity = 1;
  seen = (codes "a.example", record { addresses = some public_ip ∷ []; at = 5 }) ∷ [];
}

filed : All (IsFiled (earlier ∷ [])) remembering.seen
filed = (
  (
    record {
      earlier = earlier;
      among = inl refl;
      same_host = refl;
      same_address = refl;
      permitted = refl;
    },
    tt,
  ),
  tt,
)

-- The refusal gains the address that was permitted.
gains : (watch remembering refusal 7).0.also_seen ≡ some public_ip ∷ []
unfolding watch ssrfguard.Observer.Watch.sighting_of ssrfguard.Base.text_eq
    ssrfguard.Observer.Watch.shown_eq ssrfguard.Net.ip_eq
gains = refl

fits : length remembering.seen ≤ remembering.capacity
fits = omega arith

watch-IsWatched_example :
    IsWatched
      (earlier ∷ [])
      refusal
      1
      ((watch remembering refusal 7).0, (watch remembering refusal 7).1.seen)
watch-IsWatched_example = watch-IsWatched (earlier ∷ []) remembering refusal 7 refl fits filed
