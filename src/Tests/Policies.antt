-- ===== src/Tests/Policies.antt =====
-- The construction of a policy, its host patterns, and what is reported of a URL.
use ssrfguard.Base.{
  ◌≡◌, refl, ◌↔◌, true, false, List, [], ◌∷◌, ◌++◌, Text, codes, Among, rstrip, pos, ok,
}
use ssrfguard.Observer.Redact.{redacted}
use ssrfguard.Observer.Hidden.{redacted_private}
use ssrfguard.Policy.Config.{PolicyArgs, accepted_policy, new_policy}
use ssrfguard.Policy.Hosts.{host_is_allowed}
use ssrfguard.Policy.Listing.{IsMatch, host_is_allowed_iff}
use ssrfguard.Policy.Valid.{IsValid, new_policy-IsValid}
use ssrfguard.Tests.Data.{two_rows, platform}

abbrev args : PolicyArgs
args = record {
  allowed_schemes = codes "HTTPS" ∷ [];
  denied_networks = two_rows;
  allowed_networks = [];
  allowed_ports = pos 443 ∷ [];
  allowed_hosts = [];
  allow_userinfo = false;
  on_partial_block = codes "reject";
  max_redirects = pos 5;
  max_connection_attempts = pos 3;
  sensitive_headers = [];
  allow_proxy = false;
  max_url_length = pos 2048;
}

constructs : new_policy platform args ≡ ok (accepted_policy args [])
unfolding new_policy ssrfguard.Policy.Hosts.as_host_patterns ssrfguard.Policy.Config.check_args
    ssrfguard.Policy.Config.reject_translation
constructs = refl

new_policy-IsValid_example : IsValid args (accepted_policy args [])
new_policy-IsValid_example = new_policy-IsValid platform args (accepted_policy args []) constructs

abbrev patterns : List Text
patterns = codes "*.github.com" ∷ []

host_is_allowed_iff_example : (host_is_allowed (codes "evil-github.com") patterns false ≡ true) ↔ (
    (pattern : Text) × Among pattern patterns
    × IsMatch (rstrip b'.' (codes "evil-github.com")) false pattern)
host_is_allowed_iff_example = host_is_allowed_iff (codes "evil-github.com") patterns false

redacted_private_example :
    redacted (codes "http:" ++ (b'/' ∷ (b'/' ∷ (codes "user:pw" ++ b'@' ∷ codes "host/a@b"))))
    ≡ redacted (codes "http:" ++ (b'/' ∷ (b'/' ∷ (codes "x" ++ b'@' ∷ codes "host/a@b"))))
redacted_private_example =
    redacted_private (codes "http:") (codes "user:pw") (codes "x") (codes "host/a@b") refl refl refl
