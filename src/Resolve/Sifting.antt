-- ===== src/Resolve/Sifting.antt =====
-- The loop of `resolve` in src/ssrfguard/_resolve.py over the distinct answers, and its records.
use ssrfguard.Base.{
  ◌≡◌, ◌≢◌, refl, ◌⊎◌, inl, inr, ap, ◌∙◌, false, List, [], ◌∷◌, ◌++◌, Option, none, some, map, keep,
  arith, Result, ok, raise, Bool-cases,
}
use mathlib.Core.List.{append_assoc, append-nil}
use ssrfguard.Net.{IpAddress}
use ssrfguard.Address.Defs.{BlockReason}
use ssrfguard.Errors.{torn_down}
use ssrfguard.Observer.Decision.{Decision}
use ssrfguard.Observer.Report.{Observer, tears_down, Log, report}
use ssrfguard.Policy.Config.{Policy}
use ssrfguard.Policy.Addresses.{check_address, permits_address, permits_address-check_address}
use ssrfguard.Policy.Url.{Target}
use ssrfguard.Resolve.Defs.{Address, Denied, Sifted, address_decision, sort_answer, sift}

-- The answers that the policy permits, and those that it refuses with their reasons.
abbrev pub permitted_of : Policy → List Address → List Address
permitted_of p answers = keep (λ a. permits_address p a.ip) answers

unfoldable pub denied_of : Policy → List Address → Denied
denied_of p [] = []
denied_of p (a ∷ more) = elim (check_address p a.ip) [
  | ok _ ↦ denied_of p more
  | raise (_, why) ↦ (a, why) ∷ denied_of p more
]

abbrev pub sifted_of : Policy → List Address → Sifted → Sifted
sifted_of p answers s = record {
  permitted = s.permitted ++ permitted_of p answers;
  denied = s.denied ++ denied_of p answers;
}

pub Verdict-cases :
    (r : Result (IpAddress × BlockReason) (Unit {0}))
    → (r ≡ ok tt) ⊎ ((e : IpAddress × BlockReason) × (r ≡ raise e))
Verdict-cases (ok tt) = inl refl
Verdict-cases (raise e) = inr (e, refl)

pub permits_of_raise :
    (p : Policy) (a : IpAddress) {e : IpAddress × BlockReason}
    → check_address p a ≡ raise e
    → permits_address p a ≡ false
permits_of_raise p a h = elim (Bool-cases (permits_address p a)) [
  | inl y ↦ absurd (cc ((permits_address-check_address p a).0 y))
  | inr n ↦ n
]

module _ (p : Policy) (a : Address) (more : List Address) where
  pub denied_of-permitted : check_address p a.ip ≡ ok tt → denied_of p (a ∷ more) ≡ denied_of p more
  unfolding denied_of
  denied_of-permitted e = rw (e, denied_of)

  pub denied_of-refused :
      (w : IpAddress × BlockReason)
      → check_address p a.ip ≡ raise w
      → denied_of p (a ∷ more) ≡ (a, w.1) ∷ denied_of p more
  unfolding denied_of
  denied_of-refused w e = rw (e, denied_of)

  -- The lists after one more answer are those of the answers that follow it.
  sifted_of-cons :
      (s : Sifted)
      → sifted_of p more (sort_answer s a (check_address p a.ip)) ≡ sifted_of p (a ∷ more) s
  sifted_of-cons s = elim (Verdict-cases (check_address p a.ip)) [
    | inl e ↦
        rw (denied_of-permitted e, e, (permits_address-check_address p a.ip).1 e)
          (simp append_assoc)
    | inr (w, e) ↦ rw (denied_of-refused w e, e, permits_of_raise p a.ip e) (simp append_assoc)
  ]

Reported-cases :
    (observer : Option Observer) (d : Decision) (log : Log)
    → ((report observer d log).0 ≡ ok tt) ⊎ ((report observer d log).0 ≡ raise torn_down)
unfolding report
Reported-cases none d log = inl refl
Reported-cases (some f) d log = ground arith

module _ (p : Policy) (t : Target) (observer : Option Observer) (a : Address) (more : List Address)
    (s : Sifted) (log : Log) where
  record_of : Decision
  record_of = address_decision t a (check_address p a.ip)

  sift-next :
      (report observer record_of log).0 ≡ ok tt
      → sift p t observer (a ∷ more) s log
        ≡ sift p t observer more
            (sort_answer s a (check_address p a.ip))
            (report observer record_of log).1
  unfolding sift record_of
  sift-next e = rw (e, sift)

  sift-stop :
      (report observer record_of log).0 ≡ raise torn_down
      → (sift p t observer (a ∷ more) s log).0 ≡ raise torn_down
  unfolding sift record_of
  sift-stop e = rw (e, sift)

-- The loop sorts every answer, unless the observer tears the process down.
pub sift-cases :
    (p : Policy) (t : Target) (observer : Option Observer) (answers : List Address) (s : Sifted)
    (log : Log)
    → ((sift p t observer answers s log).0 ≡ ok (sifted_of p answers s))
      ⊎ ((sift p t observer answers s log).0 ≡ raise torn_down)
unfolding sift denied_of
sift-cases p t observer [] s log = inl (simp append-nil)
sift-cases p t observer (a ∷ more) s log =
    let d = record_of p t observer a more s log in
    elim (Reported-cases observer d log) [
      | inl e ↦
          rw (sift-next p t observer a more s log e, ← sifted_of-cons p a more s)
            (sift-cases p t observer more (sort_answer s a (check_address p a.ip))
              (report observer d log).1)
      | inr e ↦ inr (sift-stop p t observer a more s log e)
    ]

-- An observer that never tears the process down.
abbrev pub IsCalm : Option Observer → Type 0
IsCalm none = Unit
IsCalm (some f) = (d : Decision) → f d ≢ tears_down

-- The records of the answers, in order, for whoever listens.
abbrev pub records_of : Policy → Target → Option Observer → List Address → Log
records_of p t none answers = []
records_of p t (some f) answers = map (λ a. address_decision t a (check_address p a.ip)) answers

pub report-calm :
    (f : Observer) (d : Decision) (log : Log)
    → IsCalm (some f)
    → report (some f) d log ≡ (ok tt, log ++ d ∷ [])
unfolding report
report-calm f d log h = ground (arith, h d)

pub sift-calm :
    (p : Policy) (t : Target) (observer : Option Observer) (answers : List Address) (s : Sifted)
    (log : Log)
    → IsCalm observer
    → sift p t observer answers s log
      ≡ (ok (sifted_of p answers s), log ++ records_of p t observer answers)
unfolding sift denied_of report record_of
sift-calm p t none [] s log h = simp append-nil
sift-calm p t (some f) [] s log h = simp append-nil
sift-calm p t none (a ∷ more) s log h =
    rw (sift-next p t none a more s log refl, ← sifted_of-cons p a more s)
      (sift-calm p t none more (sort_answer s a (check_address p a.ip)) log h)
sift-calm p t (some f) (a ∷ more) s log h =
    let d = record_of p t (some f) a more s log in
    let r = report-calm f d log h in
    rw
      (
        sift-next p t (some f) a more s log (ap (λ x. x.0) r),
        ← sifted_of-cons p a more s,
        ap (λ x. x.1) r,
      )
      (sift-calm p t (some f) more (sort_answer s a (check_address p a.ip)) (log ++ d ∷ []) h
        ∙ simp append_assoc)
