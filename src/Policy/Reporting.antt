-- ===== src/Policy/Reporting.antt =====
-- How `check_url` of src/ssrfguard/_policy.py refuses unread, and what it reports.
use ssrfguard.Base.{
  ◌<◌, ◌≡◌, ◌≢◌, refl, true, ltb, [], ◌∷◌, ◌++◌, none, some, Text, length, Result, ok, raise, arith,
}
use ssrfguard.Errors.{Refusal, blocked_url, url_of_length, longer_than}
use ssrfguard.Observer.Decision.{Decision}
use ssrfguard.Observer.Redact.{redacted}
use ssrfguard.Observer.Report.{Observer, tears_down, Log}
use ssrfguard.Policy.Platform.{Platform}
use ssrfguard.Policy.Config.{Policy}
use ssrfguard.Policy.Url.{Target, reject_overlong, decide, check_url, url_decision}

-- A URL over the ceiling is refused whatever it says and whatever the URL parser and the codec
-- would answer, and the refusal quotes its length, not its text.
decide-overlong :
    (py : Platform) (p : Policy) (url : Text)
    → p.max_url_length < length url
    → decide py p url
      ≡ raise (blocked_url (url_of_length (length url)) (longer_than p.max_url_length))
unfolding decide reject_overlong
decide-overlong py p url h =
    let long : ltb p.max_url_length (length url) ≡ true = ground arith in rw long

-- An observer that only returns or raises an `Exception` cannot change a decision: the result is
-- that of a call with no observer.
pub check_url-observer :
    (py : Platform) (p : Policy) (url : Text) (observer : Observer) (log : Log)
    → observer (url_decision url (decide py p url)) ≢ tears_down
    → (check_url py p url (some observer) log).0 ≡ (check_url py p url none log).0
unfolding check_url
check_url-observer py p url observer log h = ground arith

-- With an observer a call adds exactly one record to the log, whatever is decided and however the
-- observer answers, and the URL in it is the redacted one; with none it adds nothing.
pub check_url-log :
    (py : Platform) (p : Policy) (url : Text) (observer : Observer) (log : Log)
    → (d : Decision) × ((check_url py p url (some observer) log).1 ≡ log ++ d ∷ [])
      × (d.url ≡ some (redacted url))
      × ((check_url py p url none log).1 ≡ log)
unfolding check_url url_decision
check_url-log py p url observer log =
    (url_decision url (decide py p url), refl, same (decide py p url), refl)
  where
    same : (r : Result Refusal Target) → (url_decision url r).url ≡ some (redacted url)
    same (ok t) = refl
    same (raise r) = refl
