-- ===== src/Client/Capped.antt =====
-- The redirect cap of the policy in src/ssrfguard/httpx.py.
use ssrfguard.Base.{
  ◌≤◌, ◌≡◌, ◌≢◌, inl, inr, List, [], ◌∷◌, ◌++◌, Option, Text, length, ltb, Result, ok, raise,
  Bool-cases, arith,
}
use ssrfguard.Errors.{Exception, refused, too_many_redirects}
use ssrfguard.Observer.Report.{Observer, Log, report}
use ssrfguard.Policy.Config.{Policy}
use ssrfguard.Client.Pinned.{Result-cases}
use ssrfguard.Client.Redirects.{
  redirect_decision, refuse_chain, check_redirect_cap, build_redirect_request,
}

-- The histories that a client of httpx comes to: each response is added after the request that
-- follows it was built.
pub data Chain (R : Type 0) (p : Policy) (observer : Option Observer) : List Text → Type 0 where
  begins : Chain R p observer []
  hops :
      (history : List Text) (response : Text) (base : Result Exception R) (log : Log) (request : R)
      → (build_redirect_request p history response observer base log).0 ≡ ok request
      → Chain R p observer history
      → Chain R p observer (history ++ response ∷ [])

refuse_chain-raises :
    (p : Policy) (chain : List Text) (observer : Option Observer) (log : Log)
    → (refuse_chain p chain observer log).0 ≢ ok tt
unfolding refuse_chain
refuse_chain-raises p chain observer log h =
    step (report observer (redirect_decision p chain) log).0 h
  where
    step :
        (x : Result Exception (Unit {0}))
        → ◌≢◌ {A = Result Exception (Unit {0})}
            (elim x [
              | raise e ↦ raise e
              | ok _ ↦ raise (refused (too_many_redirects p.max_redirects chain))
            ])
            (ok tt)
    step (ok _) same = absurd (cc)
    step (raise e) same = absurd (cc)

check_redirect_cap-ok :
    (p : Policy) (history : List Text) (response : Text) (observer : Option Observer) (log : Log)
    → (check_redirect_cap p history response observer log).0 ≡ ok tt
    → length (history ++ response ∷ []) ≤ p.max_redirects
unfolding check_redirect_cap
check_redirect_cap-ok p history response observer log h =
    elim (Bool-cases (ltb p.max_redirects (length (history ++ response ∷ [])))) [
      | inl over ↦ absurd (
          refuse_chain-raises p (history ++ response ∷ []) observer log
            (rw (check_redirect_cap, over) at h))
      | inr within ↦ ground arith
    ]

build_redirect_request-ok :
    {R : Type 0} (p : Policy) (history : List Text) (response : Text) (observer : Option Observer)
    (base : Result Exception R) (log : Log) (request : R)
    → (build_redirect_request p history response observer base log).0 ≡ ok request
    → (check_redirect_cap p history response observer log).0 ≡ ok tt
unfolding build_redirect_request
build_redirect_request-ok p history response observer base log request h =
    elim (Result-cases (check_redirect_cap p history response observer log).0) [
      | inl (u, passed) ↦ passed
      | inr (e, refuses) ↦ absurd (cc (rw (build_redirect_request, refuses) at h))
    ]

-- No request is built after more redirects than the policy's `max_redirects`: every history that a
-- client of httpx comes to by building requests is at most that long.
pub Chain-length :
    (R : Type 0) (p : Policy) (observer : Option Observer) (history : List Text)
    → Chain R p observer history
    → length history ≤ p.max_redirects
Chain-length R p observer _ begins = omega arith
Chain-length R p observer _ (hops history response base log request built before) =
    check_redirect_cap-ok p history response observer log
      (build_redirect_request-ok p history response observer base log request built)
