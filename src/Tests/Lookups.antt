-- ===== src/Tests/Lookups.antt =====
-- `resolve` and `connect` on a name with a public and a private answer.
use ssrfguard.Base.{
  ℕ, ◌+◌, ◌≤◌, ◌≡◌, ◌≢◌, refl, ◌⊎◌, true, false, List, [], ◌∷◌, ◌++◌, none, some, All, Among, take,
  codes, text_eq, ok,
}
use ssrfguard.Errors.{timeout_error}
use ssrfguard.Observer.Report.{Log}
use ssrfguard.Policy.Config.{rejects_partial}
use ssrfguard.Policy.Addresses.{permits_address, check_address}
use ssrfguard.Resolve.Defs.{
  Address, ResolverAnswer, addresses_from, addresses_after, key_eq, resolve, resolve_answers, sift,
  settle,
}
use ssrfguard.Resolve.Sifting.{permitted_of}
use ssrfguard.Resolve.Answers.{addresses_from_complete, IsCovered, IsFrom}
use ssrfguard.Resolve.Validated.{IsAnswered, resolve-permitted}
use ssrfguard.Resolve.Reports.{IsSettled, AreRecords, resolve-report}
use ssrfguard.Net.{ip_eq}
use ssrfguard.Net.Parse.{ip_address}
use ssrfguard.Address.Defs.{classify}
use ssrfguard.Connect.Kernel.{Trace}
use ssrfguard.Connect.Defs.{
  connect, connect_checked, try_each, open_to, prepare, check_all, Exhausted,
}
use ssrfguard.Connect.Traces.{socket_of}
use ssrfguard.Connect.Sockets.{opens, closes, attempts, kept, IsPinned}
use ssrfguard.Connect.Peer.{IsPeer}
use ssrfguard.Connect.Outcome.{connect-IsPeer, connect-calls}
use ssrfguard.Tests.Data.{
  policy, target, infos, resolver, noisy, public_address, private_address, calm_kernel, slow_kernel,
  settings, start,
}

abbrev answers : List Address
answers = public_address ∷ (private_address ∷ [])

two_answers : addresses_from resolver infos (codes "a.example") ≡ ok answers
unfolding addresses_after key_eq ip_address text_eq
two_answers = refl

answered : IsAnswered resolver target answers
answered = record { infos = infos; looked_up = refl; distinct = two_answers }

-- The private answer is dropped.
drops : (resolve resolver policy target none []).0 ≡ ok (public_address ∷ [])
unfolding resolve resolve_answers sift settle check_address classify ip_address addresses_after
    key_eq text_eq ssrfguard.Observer.Report.report ssrfguard.Address.Defs.raise_if_blocked
drops = refl

resolve-permitted_example :
    (given : List Address) × IsAnswered resolver target given
    × (public_address ∷ [] ≢ [])
    × All (λ a. permits_address policy a.ip ≡ true) (public_address ∷ [])
    × (public_address ∷ [] ≡ permitted_of policy given)
    × ((rejects_partial policy ≡ false) ⊎ (public_address ∷ [] ≡ given))
resolve-permitted_example =
    resolve-permitted resolver policy target none [] (public_address ∷ []) drops

resolve-report_example :
    IsSettled policy answers (resolve resolver policy target (some noisy) []).0
    × ((told : Log) × ((resolve resolver policy target (some noisy) []).1 ≡ [] ++ told)
        × AreRecords policy target answers told)
resolve-report_example =
    resolve-report resolver policy target (some noisy) [] answers (λ d h. absurd (cc)) answered
      (λ h. absurd (cc))

addresses_from_complete_example :
    All (IsCovered answers) infos
    × All
        (λ a.
          (info : ResolverAnswer) × Among info infos × IsFrom resolver (codes "a.example") info a)
        answers
addresses_from_complete_example =
    addresses_from_complete resolver (codes "a.example") infos answers two_answers

connects : (connect calm_kernel policy settings (public_address ∷ []) start).0 ≡ ok 7
unfolding connect check_all check_address ssrfguard.Address.Defs.raise_if_blocked classify
    connect_checked try_each open_to prepare ip_address ip_eq ssrfguard.Observer.Report.report
connects = refl

connect-IsPeer_example :
    All (λ a. permits_address policy a.ip ≡ true) (public_address ∷ [])
    × ((a : Address) × Among a (take policy.max_connection_attempts (public_address ∷ []))
        × IsPeer calm_kernel start.trace
            (connect calm_kernel policy settings (public_address ∷ []) start).1.trace
            7
            a)
connect-IsPeer_example =
    connect-IsPeer calm_kernel policy settings (public_address ∷ []) start 7 connects

connect-calls_example :
    (seg : Trace) × ((connect slow_kernel policy settings (public_address ∷ []) start).1.trace
      ≡ [] ++ seg)
    × ((n : ℕ)
        → opens n seg
          ≡ closes n seg
            + kept
                (socket_of (connect slow_kernel policy settings (public_address ∷ []) start).0)
                n)
    × (attempts seg ≤ policy.max_connection_attempts)
    × All (IsPinned (take policy.max_connection_attempts (public_address ∷ []))) seg
    × (All (λ a. permits_address policy a.ip ≡ true) (public_address ∷ []) ⊎ (seg ≡ []))
connect-calls_example = connect-calls slow_kernel policy settings (public_address ∷ []) start

abbrev message : Exhausted
message = record { failures = (public_address, timeout_error) ∷ []; skipped = none; cap = 2 }
