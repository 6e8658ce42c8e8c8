-- ===== src/Resolve/Validated.antt =====
-- What `resolve` of src/ssrfguard/_resolve.py returns, refuses and reports.
use ssrfguard.Base.{
  ◌≡◌, ◌≢◌, refl, ◌⊎◌, inl, inr, sym, ◌∙◌, true, false, List, [], ◌∷◌, Option, All, Among-keep,
  All-of_Among, arith, Result, ok, raise, ◌>>=◌, >>=-eq-ok,
}
use ssrfguard.Errors.{Exception}
use ssrfguard.Observer.Report.{Observer, Log}
use ssrfguard.Policy.Config.{Policy, rejects_partial}
use ssrfguard.Policy.Addresses.{check_address, permits_address, permits_address-check_address}
use ssrfguard.Policy.Url.{Target, is_literal_address}
use ssrfguard.Resolve.Defs.{
  Address, Resolver, ResolverAnswer, Sifted, addresses_from, settle, nothing_sifted,
  resolve_answers, resolve,
}
use ssrfguard.Resolve.Sifting.{
  permitted_of, denied_of, sifted_of, sift-cases, Verdict-cases, denied_of-permitted,
  denied_of-refused,
}

-- The distinct answers that a lookup gave for a target.
pub record IsAnswered (r : Resolver) (t : Target) (answers : List Address) : Type 0 where
  pub infos : List ResolverAnswer
  pub looked_up : r.lookup t.host t.port (is_literal_address t) ≡ ok infos
  pub distinct : addresses_from r infos t.host ≡ ok answers

settle-ok :
    (p : Policy) (t : Target) (s : Sifted) (found : List Address)
    → settle p t s ≡ ok found
    → (found ≡ s.permitted) × (found ≢ []) × ((rejects_partial p ≡ false) ⊎ (s.denied ≡ []))
unfolding settle
settle-ok p t s found h = ground arith

resolve_answers-ok :
    (p : Policy) (t : Target) (observer : Option Observer) (answers found : List Address)
    (log : Log)
    → (resolve_answers p t observer answers log).0 ≡ ok found
    → (found ≡ permitted_of p answers)
      × (found ≢ [])
      × ((rejects_partial p ≡ false) ⊎ (denied_of p answers ≡ []))
unfolding resolve_answers
resolve_answers-ok p t observer answers found log h =
    elim (sift-cases p t observer answers nothing_sifted log) [
      | inl e ↦ settle-ok p t (sifted_of p answers nothing_sifted) found (rw e at h)
      | inr e ↦ absurd (cc)
    ]

denied_of-nil :
    (p : Policy) (answers : List Address)
    → denied_of p answers ≡ []
    → All (λ a. check_address p a.ip ≡ ok tt) answers
denied_of-nil p [] h = tt
denied_of-nil p (a ∷ more) h = elim (Verdict-cases (check_address p a.ip)) [
  | inl e ↦ (e, denied_of-nil p more (sym (denied_of-permitted p a more e) ∙ h))
  | inr (w, e) ↦ absurd (cc (denied_of-refused p a more w e))
]

permitted_of-All :
    (p : Policy) (answers : List Address)
    → All (λ a. check_address p a.ip ≡ ok tt) answers
    → permitted_of p answers ≡ answers
permitted_of-All p [] h = refl
permitted_of-All p (a ∷ more) (e, h) =
    rw ((permits_address-check_address p a.ip).1 e, permitted_of-All p more h)

abbrev looked_up : Resolver → Target → Result Exception (List Address)
looked_up r t =
    r.lookup t.host t.port (is_literal_address t) >>= λ infos. addresses_from r infos t.host

Looked-cases :
    (x : Result Exception (List Address))
    → ((answers : List Address) × (x ≡ ok answers)) ⊎ ((e : Exception) × (x ≡ raise e))
Looked-cases (ok answers) = inl (answers, refl)
Looked-cases (raise e) = inr (e, refl)

resolve-looked :
    (r : Resolver) (p : Policy) (t : Target) (observer : Option Observer) (log : Log)
    (found answers : List Address)
    → looked_up r t ≡ ok answers
    → (resolve r p t observer log).0 ≡ ok found
    → (resolve_answers p t observer answers log).0 ≡ ok found
unfolding resolve
resolve-looked r p t observer log found [] k h = absurd (cc (rw (resolve, k) at h))
resolve-looked r p t observer log found (a ∷ more) k h = rw (resolve, k) at h

resolve-inversion :
    (r : Resolver) (p : Policy) (t : Target) (observer : Option Observer) (log : Log)
    (found : List Address)
    → (resolve r p t observer log).0 ≡ ok found
    → (answers : List Address) × IsAnswered r t answers
      × ((resolve_answers p t observer answers log).0 ≡ ok found)
unfolding resolve
resolve-inversion r p t observer log found h = elim (Looked-cases (looked_up r t)) [
  | inr (e, k) ↦ absurd (cc (rw (resolve, k) at h))
  | inl (answers, k) ↦
      let (infos, looked, distinct) =
        >>=-eq-ok (r.lookup t.host t.port (is_literal_address t)) _ k in
      (
        answers,
        record { infos = infos; looked_up = looked; distinct = distinct },
        resolve-looked r p t observer log found answers k h,
      )
]

-- Whatever `resolve` returns is not empty and every address in it is permitted by the policy; it
-- is the permitted ones among the distinct answers of the one lookup, in their order. Under
-- `on_partial_block="reject"` it is all of them: a name with a refused answer is refused whole.
pub resolve-permitted :
    (r : Resolver) (p : Policy) (t : Target) (observer : Option Observer) (log : Log)
    (found : List Address)
    → (resolve r p t observer log).0 ≡ ok found
    → (answers : List Address) × IsAnswered r t answers
      × (found ≢ [])
      × All (λ a. permits_address p a.ip ≡ true) found
      × (found ≡ permitted_of p answers)
      × ((rejects_partial p ≡ false) ⊎ (found ≡ answers))
resolve-permitted r p t observer log found h =
    let (answers, answered, k) = resolve-inversion r p t observer log found h in
    let (same, some_left, whole) = resolve_answers-ok p t observer answers found log k in
    (
      answers,
      answered,
      some_left,
      rw same (
          All-of_Among (λ a. permits_address p a.ip ≡ true) (permitted_of p answers)
            (λ a m. ((Among-keep (λ x. permits_address p x.ip) a answers).0 m).1)),
      same,
      elim whole [
        | inl e ↦ inl e
        | inr e ↦ inr (same ∙ permitted_of-All p answers (denied_of-nil p answers e))
      ],
    )
