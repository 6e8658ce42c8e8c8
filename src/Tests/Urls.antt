-- ===== src/Tests/Urls.antt =====
-- Decisions on URLs.
use ssrfguard.Base.{◌≡◌, refl, [], ◌∷◌, ◌++◌, none, some, ok}
use ssrfguard.Observer.Decision.{Decision}
use ssrfguard.Observer.Redact.{redacted}
use ssrfguard.Policy.Url.{decide, check_url, url_decision}
use ssrfguard.Policy.Accepted.{IsAccepted, decide-IsAccepted}
use ssrfguard.Policy.Reporting.{check_url-observer, check_url-log}
use ssrfguard.Tests.Data.{platform, policy, url, target, noisy}

accepts_url : decide platform policy url ≡ ok target
unfolding decide ssrfguard.Policy.Url.reject_overlong ssrfguard.Policy.Url.reject_control_characters
    ssrfguard.Policy.Url.split ssrfguard.Policy.Url.check_scheme ssrfguard.Policy.Url.check_userinfo
    ssrfguard.Policy.Url.check_host_of ssrfguard.Policy.Hosts.reject_overlong_host
    ssrfguard.Policy.Hosts.normalise ssrfguard.Policy.Url.check_host_shape
    ssrfguard.Policy.Hosts.numeric_shaped ssrfguard.Policy.Hosts.well_formed_hostname
    ssrfguard.Policy.Url.check_port ssrfguard.Policy.Url.check_listed
    ssrfguard.Policy.Url.check_literal
accepts_url = refl

decide-IsAccepted_example : IsAccepted platform policy url target
decide-IsAccepted_example = decide-IsAccepted platform policy url target accepts_url

check_url-observer_example :
    (check_url platform policy url (some noisy) []).0 ≡ (check_url platform policy url none []).0
check_url-observer_example = check_url-observer platform policy url noisy [] (λ h. absurd (cc))

check_url-log_example :
    (d : Decision) × ((check_url platform policy url (some noisy) []).1 ≡ [] ++ d ∷ [])
    × (d.url ≡ some (redacted url))
    × ((check_url platform policy url none []).1 ≡ [])
check_url-log_example = check_url-log platform policy url noisy []
