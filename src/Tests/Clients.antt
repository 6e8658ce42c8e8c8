-- ===== src/Tests/Clients.antt =====
-- The clients: headers, redirects and options.
use ssrfguard.Base.{
  if◌then◌else◌, leb, ℕ, ◌≤◌, ◌≡◌, refl, Bool, true, false, not, List, [], ◌∷◌, ◌++◌, none, some,
  codes, Text, lower, length, keep, map, Among, All-of_Among, text_eq_refl, ap, inl, inr, ok, raise,
}
use ssrfguard.Errors.{refused, too_many_redirects}
use ssrfguard.Observer.Report.{report}
use ssrfguard.Policy.Config.{Policy}
use ssrfguard.Client.Headers.{Headers, same_name, IsCaseless, stripped_headers}
use ssrfguard.Client.Stripped.{plain_items, stripped_headers_alike}
use ssrfguard.Client.Redirects.{refuse_chain, check_redirect_cap, build_redirect_request}
use ssrfguard.Client.Requests.{
  end_chain, finished, rebuild_auth, ChainEnd, too_long, Session, resolve_redirects,
}
use ssrfguard.Client.Capped.{Chain, begins, hops, Chain-length}
use ssrfguard.Client.Options.{Values, guarded, Given, Built, built_with}
use ssrfguard.Tests.Data.{policy}

-- Headers as a list of their items.
abbrev headers : Headers
headers = record {
  Store = List (Text × Text);
  items = λ h. h;
  names = λ h. map (λ item. item.0) h;
  delete = λ name h. keep (λ item. not (same_name name item)) h;
}

in_names :
    (item : Text × Text) (h : List (Text × Text))
    → Among item h
    → Among item.0 (map (λ (x : Text × Text). x.0) h)
in_names item [] among = among
in_names item (x ∷ more) (inl e) = inl (ap (λ y. y.0) e)
in_names item (x ∷ more) (inr later) = inr (in_names item more later)

caseless : IsCaseless headers
caseless = record {
  deletes = λ name h. refl;
  named = λ h.
      All-of_Among _ h (λ item among. (item.0, in_names item h among, text_eq_refl (lower item.0)));
}

abbrev sent : List (Text × Text)
sent =
    (codes "X-Api-Key", codes "1")
    ∷ ((codes "Accept", codes "2") ∷ ((codes "x-api-KEY", codes "3") ∷ []))

abbrev keyed : Policy
keyed = record policy { sensitive_headers = codes "x-api-key" ∷ [] }

stripped_headers_alike_example :
    (rebuild_auth headers keyed true sent ≡ plain_items keyed sent)
    × (stripped_headers headers keyed false false sent ≡ plain_items keyed sent)
stripped_headers_alike_example = stripped_headers_alike headers keyed true false false sent caseless

abbrev capped : Policy
capped = record policy { max_redirects = 1 }

one_hop : Chain ℕ capped none ([] ++ codes "https://a.example/1" ∷ [])
unfolding check_redirect_cap build_redirect_request
one_hop = hops [] (codes "https://a.example/1") (ok 7) [] 7 refl begins

Chain-length_example : length ([] ++ codes "https://a.example/1" ∷ []) ≤ 1
Chain-length_example = Chain-length ℕ capped none ([] ++ codes "https://a.example/1" ∷ []) one_hop

abbrev session : Session
session = record { max_redirects = 30; policy = capped; observer = none }

abbrev walk : List Text
walk = codes "https://a.example/1" ∷ (codes "https://a.example/2" ∷ [])

-- A generator over a chain of two responses, which stops at the limit it reads at each hop.
abbrev generator : (ℕ → ℕ) → List ℕ × ChainEnd
generator limits =
    if leb (limits 0) 0
    then ([], too_long (some []))
    else if leb (limits 1) 1
    then (7 ∷ [], too_long (some walk))
    else (7 ∷ (8 ∷ []), finished)

stops_at_the_limit :
    (resolve_redirects generator session (λ _. none) []).ended
    ≡ raise (refused (too_many_redirects 1 walk))
unfolding resolve_redirects end_chain refuse_chain report
stops_at_the_limit = refl

follows_an_assignment :
    resolve_redirects generator session (λ _. some 30) []
    ≡ record { yielded = 7 ∷ (8 ∷ []); ended = ok tt; session = session; log = [] }
unfolding resolve_redirects end_chain
follows_an_assignment = refl

-- Options whose values are true or false.
abbrev flags : Values
flags = record { Value = Bool; truth = λ b. b; shown = λ _. [] }

abbrev options : List (Text × Bool)
options = (codes "verify", true) ∷ ((codes "timeout", true) ∷ ((codes "proxy", false) ∷ []))

abbrev made : Built flags
made = record {
  policy = policy;
  source = built_with ((codes "verify", true) ∷ []);
  for_client = (codes "timeout", true) ∷ ((codes "proxy", false) ∷ []);
}
