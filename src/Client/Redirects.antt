-- ===== src/Client/Redirects.antt =====
-- The end of a redirect chain that is too long, in src/ssrfguard/requests.py and src/ssrfguard/httpx.py.
use ssrfguard.Base.{
  List, [], ◌∷◌, ◌++◌, Option, none, some, Text, map, ltb, length, Result, ok, raise, if◌then◌else◌,
}
use ssrfguard.Errors.{Exception, refused, too_many_redirects}
use ssrfguard.Observer.Decision.{Decision, redirect_stage, refuses, of_refusal}
use ssrfguard.Observer.Redact.{redacted}
use ssrfguard.Observer.Report.{Observer, Log, report}
use ssrfguard.Policy.Config.{Policy}

abbrev pub last_of : List Text → Option Text
last_of [] = none
last_of (url ∷ []) = some url
last_of (url ∷ (next ∷ more)) = last_of (next ∷ more)

-- The record of a chain that was cut off.
abbrev pub redirect_decision : Policy → List Text → Decision
redirect_decision p chain = record {
  stage = redirect_stage;
  outcome = refuses;
  reason = some (of_refusal (too_many_redirects p.max_redirects chain));
  url = elim (last_of chain) [ none ↦ none | some url ↦ some (redacted url) ];
  host = none;
  port = none;
  address = none;
  chain = map redacted chain;
  also_seen = [];
}

-- Reporting, and the exception that is then raised.
unfoldable pub refuse_chain :
    Policy → List Text → Option Observer → Log → Result Exception (Unit {0}) × Log
refuse_chain p chain observer log =
    let (reported, log') = report observer (redirect_decision p chain) log in
    (
      elim reported [
        | raise e ↦ raise e
        | ok _ ↦ raise (refused (too_many_redirects p.max_redirects chain))
      ],
      log',
    )

-- `_check_redirect_cap` of httpx.py, of the URLs of the history and of the response
unfoldable pub check_redirect_cap :
    Policy → List Text → Text → Option Observer → Log → Result Exception (Unit {0}) × Log
check_redirect_cap p history response observer log =
    let walked = history ++ response ∷ [] in
    if ltb p.max_redirects (length walked) then refuse_chain p walked observer log else (ok tt, log)

-- `_build_redirect_request` of both clients of httpx.py, where `base` is what the method of httpx builds
unfoldable pub build_redirect_request {ℓ} :
    {R : Type ℓ}
    → Policy
    → List Text
    → Text
    → Option Observer
    → Result Exception R
    → Log
    → Result Exception R × Log
build_redirect_request p history response observer base log =
    let (checked, log') = check_redirect_cap p history response observer log in
    (elim checked [ ok _ ↦ base | raise e ↦ raise e ], log')
