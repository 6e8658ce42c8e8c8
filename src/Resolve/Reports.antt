-- ===== src/Resolve/Reports.antt =====
-- What `resolve` of src/ssrfguard/_resolve.py reports to an observer.
use ssrfguard.Base.{
  ◌≡◌, ◌≢◌, refl, sym, ap, subst, ◌⊎◌, inl, inr, true, false, List, [], ◌∷◌, ◌++◌, Option, none,
  some, All, Among, Result, ok, raise, Bool-cases, ◌∙◌,
}
use ssrfguard.Net.{IpAddress}
use ssrfguard.Address.Defs.{BlockReason}
use ssrfguard.Errors.{Exception, Refusal, refused, by_table}
use ssrfguard.Observer.Decision.{Decision, address_stage, permits, refuses, of_address}
use ssrfguard.Policy.Addresses.{check_address, permits_address, permits_address-check_address}
use ssrfguard.Observer.Report.{Observer, Log}
use ssrfguard.Policy.Config.{Policy, rejects_partial}
use ssrfguard.Policy.Url.{Target}
use ssrfguard.Resolve.Defs.{
  Address, Resolver, Sifted, refuse_all_denied, refuse_partial, address_decision, is_nil, settle,
  nothing_sifted, resolve_answers, resolve,
}
use ssrfguard.Resolve.Sifting.{
  permitted_of, denied_of, denied_of-permitted, denied_of-refused, Verdict-cases, permits_of_raise,
  sifted_of, sift-calm, IsCalm, records_of,
}
use ssrfguard.Resolve.Validated.{IsAnswered}

resolve_answers-calm :
    (p : Policy) (t : Target) (observer : Option Observer) (answers : List Address) (log : Log)
    → IsCalm observer
    → resolve_answers p t observer answers log
      ≡ (settle p t (sifted_of p answers nothing_sifted), log ++ records_of p t observer answers)
unfolding resolve_answers
resolve_answers-calm p t observer answers log h =
    rw (resolve_answers, sift-calm p t observer answers nothing_sifted log h) refl

-- A record that an observer is told of an answer: the target, the address, and whether the policy
-- permits it; if not, why.
pub record IsRecord (p : Policy) (t : Target) (a : Address) (d : Decision) : Type 0 where
  pub stage : d.stage ≡ address_stage
  pub host : d.host ≡ some t.host
  pub port : d.port ≡ some t.port
  pub address : d.address ≡ some a.ip
  pub no_url : d.url ≡ none
  pub verdict :
      ((permits_address p a.ip ≡ true) × (d.outcome ≡ permits) × (d.reason ≡ none))
      ⊎ ((permits_address p a.ip ≡ false)
          × (d.outcome ≡ refuses)
          × ((why : IpAddress × BlockReason) × (check_address p a.ip ≡ raise why)
              × (d.reason ≡ some (of_address (by_table why.1)))))

-- One record for each answer, in their order.
abbrev pub AreRecords : Policy → Target → List Address → Log → Type 0
AreRecords p t [] [] = Unit {0}
AreRecords p t [] (d ∷ more) = ⊥
AreRecords p t (a ∷ answers) [] = ⊥
AreRecords p t (a ∷ answers) (d ∷ more) = IsRecord p t a d × AreRecords p t answers more

-- What an observer, if there is one, is told of the answers.
abbrev pub AreTold : Policy → Target → Option Observer → List Address → Log → Type 0
AreTold p t none answers told = told ≡ []
AreTold p t (some f) answers told = AreRecords p t answers told

-- What `resolve` makes of distinct answers: the permitted ones, in their order, if there are any and
-- none is refused or refused ones are dropped; a refusal if none is permitted, or if one is not
-- and refused ones are not dropped.
abbrev pub IsSettled : Policy → List Address → Result Exception (List Address) → Type 0
IsSettled p answers result =
    ((result ≡ ok (permitted_of p answers))
      × (permitted_of p answers ≢ [])
      × ((rejects_partial p ≡ false) ⊎ All (λ a. permits_address p a.ip ≡ true) answers))
    ⊎ (((why : Refusal) × (result ≡ raise (refused why)))
        × ((permitted_of p answers ≡ [])
            ⊎ ((rejects_partial p ≡ true)
                × ((a : Address) × Among a answers × (permits_address p a.ip ≡ false)))))

address_decision-IsRecord :
    (p : Policy) (t : Target) (a : Address)
    → IsRecord p t a (address_decision t a (check_address p a.ip))
unfolding address_decision
address_decision-IsRecord p t a = record {
  stage = refl;
  host = refl;
  port = refl;
  address = refl;
  no_url = refl;
  verdict = elim (Verdict-cases (check_address p a.ip)) [
    | inl e ↦ inl ((permits_address-check_address p a.ip).1 e, rw e refl, rw e refl)
    | inr (why, e) ↦ inr (permits_of_raise p a.ip e, rw e refl, (why, e, rw e refl))
  ];
}

records_of-AreTold :
    (p : Policy) (t : Target) (observer : Option Observer) (answers : List Address)
    → AreTold p t observer answers (records_of p t observer answers)
records_of-AreTold p t none answers = refl
records_of-AreTold p t (some f) [] = tt
records_of-AreTold p t (some f) (a ∷ more) =
    (address_decision-IsRecord p t a, records_of-AreTold p t (some f) more)

denied_of-cases :
    (p : Policy) (answers : List Address)
    → ((denied_of p answers ≡ []) × All (λ a. permits_address p a.ip ≡ true) answers)
      ⊎ ((is_nil (denied_of p answers) ≡ false)
          × ((a : Address) × Among a answers × (permits_address p a.ip ≡ false)))
unfolding denied_of
denied_of-cases p [] = inl (refl, tt)
denied_of-cases p (a ∷ more) = elim (Verdict-cases (check_address p a.ip)) [
  | inr (why, e) ↦
      inr (rw (denied_of-refused p a more why e) refl, (a, inl refl, permits_of_raise p a.ip e))
  | inl e ↦ elim (denied_of-cases p more) [
    | inl (none_denied, all_good) ↦ inl (
      denied_of-permitted p a more e ∙ none_denied,
      ((permits_address-check_address p a.ip).1 e, all_good),
    )
    | inr (some_denied, (b, there, bad)) ↦
        inr (rw (denied_of-permitted p a more e) some_denied, (b, inr there, bad))
  ]
]

is_nil_sound : {A : Type 0} (xs : List A) → is_nil xs ≡ true → xs ≡ []
is_nil_sound [] h = refl
is_nil_sound (x ∷ xs) h = absurd (cc)

settle-cases :
    (p : Policy) (t : Target) (s : Sifted)
    → ((settle p t s ≡ ok s.permitted)
        × (is_nil s.permitted ≡ false)
        × ((rejects_partial p ≡ false) ⊎ (is_nil s.denied ≡ true)))
      ⊎ (((why : Refusal) × (settle p t s ≡ raise (refused why)))
          × ((is_nil s.permitted ≡ true)
              ⊎ ((rejects_partial p ≡ true) × (is_nil s.denied ≡ false))))
unfolding settle
settle-cases p t s = elim (Bool-cases (is_nil s.permitted)) [
  | inl empty ↦ inr ((refuse_all_denied t s.denied, rw (settle, empty) refl), inl empty)
  | inr filled ↦ elim (Bool-cases (is_nil s.denied)) [
    | inl clean ↦ inl (rw (settle, filled, clean) refl, filled, inr clean)
    | inr mixed ↦ elim (Bool-cases (rejects_partial p)) [
      | inr drops ↦ inl (rw (settle, filled, mixed, drops) refl, filled, inl drops)
      | inl rejects ↦ inr (
        (refuse_partial t s.permitted s.denied, rw (settle, filled, mixed, rejects) refl),
        inr (rejects, mixed),
      )
    ]
  ]
]

settle-IsSettled :
    (p : Policy) (t : Target) (answers : List Address)
    → IsSettled p answers (settle p t (sifted_of p answers nothing_sifted))
settle-IsSettled p t answers = elim (settle-cases p t (sifted_of p answers nothing_sifted)) [
  | inl (done, filled, how) ↦ inl (
    done,
    λ empty. absurd (cc (sym filled ∙ ap is_nil empty)),
    elim how [
      | inl drops ↦ inl drops
      | inr clean ↦ elim (denied_of-cases p answers) [
        | inl (_, all_good) ↦ inr all_good
        | inr (mixed, _) ↦ absurd (cc (sym clean ∙ mixed))
      ]
    ],
  )
  | inr (refuses_it, inl empty) ↦
      inr (refuses_it, inl (is_nil_sound (permitted_of p answers) empty))
  | inr (refuses_it, inr (rejects, mixed)) ↦ elim (denied_of-cases p answers) [
    | inl (clean, _) ↦ absurd (cc (sym mixed ∙ ap is_nil clean))
    | inr (_, found) ↦ inr (refuses_it, inr (rejects, found))
  ]
]

-- With distinct answers to sift and an observer that may raise but does not tear the process
-- down, `resolve` returns the permitted answers, in their order, or refuses, as the policy's way with
-- refused answers has it, whatever the observer does; and an observer is told of every distinct
-- answer once, in order, of the target and the address, and whether the policy permits it, with the
-- reason if not.
pub resolve-report :
    (r : Resolver) (p : Policy) (t : Target) (observer : Option Observer) (log : Log)
    (answers : List Address)
    → IsCalm observer
    → IsAnswered r t answers
    → answers ≢ []
    → IsSettled p answers (resolve r p t observer log).0
      × ((told : Log) × ((resolve r p t observer log).1 ≡ log ++ told)
          × AreTold p t observer answers told)
unfolding resolve
resolve-report r p t observer log [] calm a h = absurd (h refl)
resolve-report r p t observer log (x ∷ more) calm a h =
    let same : resolve r p t observer log ≡ (
      settle p t (sifted_of p (x ∷ more) nothing_sifted),
      log ++ records_of p t observer (x ∷ more),
    ) =
      rw (resolve, a.looked_up, a.distinct)
        (resolve_answers-calm p t observer (x ∷ more) log calm) in
    (
      subst (IsSettled p (x ∷ more)) (sym (ap (λ y. y.0) same)) (settle-IsSettled p t (x ∷ more)),
      (
        records_of p t observer (x ∷ more),
        ap (λ y. y.1) same,
        records_of-AreTold p t observer (x ∷ more),
      ),
    )
