-- ===== src/Observer/Sightings.antt =====
-- What `RebindingWatch` of src/ssrfguard/_observer.py keeps, and what it adds to a refusal.
use ssrfguard.Base.{
  ℕ, suc, ◌≤◌, ◌≡◌, refl, subst, inl, inr, Bool, false, not, ltb, List, [], ◌∷◌, Option, none, some,
  Text, text_eq, text_eq_iff, length, any, keep, Among, Among-keep, All, All-map, All-append,
  All-of_Among, All-among, Bool-cases, arith,
}
use ssrfguard.Observer.Decision.{Decision, Outcome, permits, refuses, Shown}
use ssrfguard.Observer.Watch.{
  Sighting, Seen, Watch, shown_eq, is_fresh, forget, sighting_of, is_other, without, evict,
  addresses_of, with_address, remember, is_address_stage, others_of, enrich, judge, watch_host,
  watch,
}

length-keep : {A : Type 0} (p : A → Bool) (xs : List A) → length (keep p xs) ≤ length xs
length-keep p [] = omega arith
length-keep p (x ∷ xs) = elim (Bool-cases (p x)) [
  | inl e ↦ rw e (omega (arith, length-keep p xs))
  | inr e ↦ rw e (omega (arith, length-keep p xs))
]

evict-length : (capacity : ℕ) (seen : Seen) → length (evict capacity seen) ≤ capacity
unfolding evict
evict-length capacity [] = omega arith
evict-length capacity (e ∷ more) = elim (Bool-cases (ltb capacity (suc (length more)))) [
  | inl y ↦ rw y (evict-length capacity more)
  | inr n ↦ rw n (ground arith)
]

-- An address on file for a host was permitted for it by an earlier decision.
pub record IsBacked (history : List Decision) (host : Text) (a : Shown) : Type 0 where
  pub earlier : Decision
  pub among : Among earlier history
  pub same_host : earlier.host ≡ some host
  pub same_address : earlier.address ≡ a
  pub permitted : earlier.outcome ≡ permits

abbrev pub IsFiled : List Decision → Text × Sighting → Type 0
IsFiled history (host, s) = All (IsBacked history host) s.addresses

All-keep : {A : Type 0} (P : A → Type 0) (p : A → Bool) (xs : List A) → All P xs → All P (keep p xs)
All-keep P p [] h = tt
All-keep P p (x ∷ xs) (e, h) = elim (Bool-cases (p x)) [
  | inl y ↦ rw y (e, All-keep P p xs h)
  | inr n ↦ rw n (All-keep P p xs h)
]

evict-IsFiled :
    (history : List Decision) (capacity : ℕ) (seen : Seen)
    → All (IsFiled history) seen
    → All (IsFiled history) (evict capacity seen)
unfolding evict
evict-IsFiled history capacity [] h = tt
evict-IsFiled history capacity (e ∷ more) (x, h) =
    elim (Bool-cases (ltb capacity (suc (length more)))) [
      | inl y ↦ rw y (evict-IsFiled history capacity more h)
      | inr n ↦ rw n (x, h)
    ]

sighting_of-IsBacked :
    (history : List Decision) (host : Text) (seen : Seen)
    → All (IsFiled history) seen
    → All (IsBacked history host) (addresses_of (sighting_of host seen))
unfolding sighting_of
sighting_of-IsBacked history host [] h = tt
sighting_of-IsBacked history host ((k, s) ∷ more) (e, h) = elim (Bool-cases (text_eq k host)) [
  | inl y ↦ rw y (subst (λ x. All (IsBacked history x) s.addresses) ((text_eq_iff k host).0 y) e)
  | inr n ↦ rw n (sighting_of-IsBacked history host more h)
]

with_address-All :
    (P : Shown → Type 0) (addresses : List Shown) (a : Shown)
    → All P addresses
    → P a
    → All P (with_address addresses a)
with_address-All P addresses a h k = elim (Bool-cases (any (shown_eq a) addresses)) [
  | inl y ↦ rw y h
  | inr n ↦ rw n (All-append P addresses (a ∷ []) h (k, tt))
]

grow :
    (d : Decision) (history : List Decision) (host : Text) (a : Shown)
    → IsBacked history host a
    → IsBacked (d ∷ history) host a
grow d history host a b = record {
  earlier = b.earlier;
  among = inr b.among;
  same_host = b.same_host;
  same_address = b.same_address;
  permitted = b.permitted;
}

grow_all :
    (d : Decision) (history : List Decision) (e : Text × Sighting)
    → IsFiled history e
    → IsFiled (d ∷ history) e
grow_all d history (host, s) h = All-map (grow d history host) s.addresses h

-- What one decision leaves: a bounded map of addresses that were permitted, and the decision
-- itself, which at most gains other addresses that were permitted for its host.
pub record IsWatched (history : List Decision) (d : Decision) (capacity : ℕ) (x : Decision × Seen)
    : Type 0 where
  pub bounded : length x.1 ≤ capacity
  pub filed : All (IsFiled (d ∷ history)) x.1
  pub only_adds : x.0 ≡ record d { also_seen = x.0.also_seen }
  pub added :
      All
        (λ a.
          (shown_eq a d.address ≡ false)
          × ((host : Text) × (d.host ≡ some host) × IsBacked history host a))
        x.0.also_seen

module _ (history : List Decision) (d : Decision) (capacity : ℕ) (plain : d.also_seen ≡ []) where
  unchanged :
      (seen : Seen)
      → length seen ≤ capacity
      → All (IsFiled history) seen
      → IsWatched history d capacity (d, seen)
  unchanged seen few h = record {
    bounded = few;
    filed = All-map (grow_all d history) seen h;
    only_adds = refl;
    added = rw plain tt;
  }

  remembered :
      (seen : Seen) (host : Text) (now : ℕ)
      → d.host ≡ some host
      → d.outcome ≡ permits
      → All (IsFiled history) seen
      → IsWatched history d capacity (d, remember capacity host d.address now seen)
  unfolding remember
  remembered seen host now named allowed h =
      let older = All-map (grow_all d history) seen h in
      let here : IsBacked (d ∷ history) host d.address = record {
        earlier = d;
        among = inl refl;
        same_host = named;
        same_address = refl;
        permitted = allowed;
      } in
      let new =
        with_address-All (IsBacked (d ∷ history) host) (addresses_of (sighting_of host seen))
          d.address (sighting_of-IsBacked (d ∷ history) host seen older) here in
      record {
        bounded = evict-length capacity _;
        filed = evict-IsFiled (d ∷ history) capacity _ (
            All-append (IsFiled (d ∷ history)) (without host seen) _
              (All-keep (IsFiled (d ∷ history)) (is_other host) seen older) (new, tt));
        only_adds = refl;
        added = rw plain tt;
      }

  IsOther : Shown → Type 0
  IsOther a =
      (shown_eq a d.address ≡ false)
      × ((host : Text) × (d.host ≡ some host) × IsBacked history host a)

  others-IsOther :
      (host : Text) (o : Option Sighting)
      → d.host ≡ some host
      → All (IsBacked history host) (addresses_of o)
      → All IsOther (others_of d.address o)
  unfolding IsOther
  others-IsOther host none named h = tt
  others-IsOther host (some s) named h =
      All-of_Among IsOther (keep (λ b. not (shown_eq b d.address)) s.addresses) (λ a m.
        let (there, differs) = (Among-keep (λ b. not (shown_eq b d.address)) a s.addresses).0 m in
        (ground arith, (host, named, All-among (IsBacked history host) s.addresses h a there)))

  enrich-IsWatched :
      (seen : Seen) (others : List Shown)
      → length seen ≤ capacity
      → All (IsFiled history) seen
      → All IsOther others
      → IsWatched history d capacity (enrich d others, seen)
  unfolding IsOther
  enrich-IsWatched seen [] few h k = unchanged seen few h
  enrich-IsWatched seen (o ∷ os) few h k = record {
    bounded = few;
    filed = All-map (grow_all d history) seen h;
    only_adds = refl;
    added = k;
  }

  enriched :
      (seen : Seen) (host : Text)
      → d.host ≡ some host
      → length seen ≤ capacity
      → All (IsFiled history) seen
      → IsWatched history d capacity (enrich d (others_of d.address (sighting_of host seen)), seen)
  enriched seen host named few h =
      enrich-IsWatched seen (others_of d.address (sighting_of host seen)) few h (
        others-IsOther host (sighting_of host seen) named
          (sighting_of-IsBacked history host seen h))

  judged :
      (seen : Seen) (host : Text) (now : ℕ) (o : Outcome)
      → d.outcome ≡ o
      → d.host ≡ some host
      → length seen ≤ capacity
      → All (IsFiled history) seen
      → IsWatched history d capacity (judge capacity d host now seen o)
  judged seen host now permits e named few h = remembered seen host now named e h
  judged seen host now refuses e named few h = enriched seen host named few h

  watched :
      (window : ℕ) (seen : Seen) (now : ℕ) (o : Option Text)
      → d.host ≡ o
      → length seen ≤ capacity
      → All (IsFiled history) seen
      → IsWatched history d capacity
          (watch_host (record { window = window; capacity = capacity; seen = seen }) d now o)
  watched window seen now none named few h = unchanged seen few h
  watched window seen now (some host) named few h = elim (Bool-cases (is_address_stage d.stage)) [
    | inl y ↦ rw y (
        judged (forget window now seen) host now d.outcome refl named
          (omega (arith, few, length-keep (is_fresh window now) seen))
          (All-keep (IsFiled history) (is_fresh window now) seen h))
    | inr n ↦ rw n (unchanged seen few h)
  ]

-- From a map within its capacity whose addresses were all permitted by the decisions so far, one
-- more decision leaves such a map, with that decision counted. What is passed on is the decision
-- itself, its outcome and reason unchanged, with at most other addresses added, each permitted
-- for the same host by an earlier decision and none the address that the decision is about.
pub watch-IsWatched :
    (history : List Decision) (w : Watch) (d : Decision) (now : ℕ)
    → d.also_seen ≡ []
    → length w.seen ≤ w.capacity
    → All (IsFiled history) w.seen
    → IsWatched history d w.capacity ((watch w d now).0, (watch w d now).1.seen)
unfolding watch
watch-IsWatched history w d now plain few h =
    watched history d w.capacity plain w.window w.seen now d.host refl few h
