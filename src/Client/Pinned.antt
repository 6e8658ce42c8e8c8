-- ===== src/Client/Pinned.antt =====
-- The sockets of `SafeAdapter` in src/ssrfguard/requests.py: the policy, the lookup and the connecting
-- composed.
use ssrfguard.Base.{
  ℕ, ◌≡◌, refl, ap, sym, subst, ◌∙◌, ◌⊎◌, inl, inr, true, false, List, Option, none, codes, Text,
  Among, All, take, Result, ok, raise, >>-eq-ok, Option-cases,
}
use ssrfguard.Errors.{Refusal}
use ssrfguard.Observer.Report.{Observer, Log, report}
use ssrfguard.Policy.Platform.{Platform}
use ssrfguard.Policy.Config.{Policy, rejects_partial}
use ssrfguard.Policy.Addresses.{permits_address}
use ssrfguard.Policy.Url.{Target, decide, check_url, url_decision, lift}
use ssrfguard.Policy.Accepted.{IsAccepted, decide-IsAccepted}
use ssrfguard.Resolve.Defs.{Address, Resolver, resolve}
use ssrfguard.Resolve.Sifting.{permitted_of}
use ssrfguard.Resolve.Validated.{IsAnswered, resolve-permitted}
use ssrfguard.Connect.Kernel.{Trace, Kernel, World}
use ssrfguard.Connect.Defs.{Settings, connect}
use ssrfguard.Connect.Peer.{IsPeer}
use ssrfguard.Connect.Outcome.{connect-IsPeer}
use ssrfguard.Client.Requests.{
  origin, Connection, Adapter, settings_of, audited, connect_pinned, resolve_pinned, pinned_socket,
  NewConn, pool_classes,
}

pub Result-cases {ℓ κ} :
    {E : Type ℓ} {A : Type κ} (x : Result E A) → ((a : A) × (x ≡ ok a)) ⊎ ((e : E) × (x ≡ raise e))
Result-cases (ok a) = inl (a, refl)
Result-cases (raise e) = inr (e, refl)

-- What a socket to a target is, by the abstract promise of the package: the answers of the one
-- lookup of its host that the policy permits, all of them under "reject"; and the calls of the run,
-- which come after `before` and end with all of `trace`, opened the socket, connected it to one of the
-- first of these, and ended with the operating system naming that one as its peer.
pub record IsVetted (k : Kernel) (p : Policy) (r : Resolver) (t : Target) (before trace : Trace)
    (sock : ℕ) : Type 0 where
  pub answers : List Address
  pub answered : IsAnswered r t answers
  pub whole : (rejects_partial p ≡ false) ⊎ (permitted_of p answers ≡ answers)
  pub permitted : All (λ a. permits_address p a.ip ≡ true) (permitted_of p answers)
  pub reached : Address
  pub among : Among reached (take p.max_connection_attempts (permitted_of p answers))
  pub peer : IsPeer k before trace sock reached

-- Resolving and then connecting keeps the promise.
pub resolve-connect :
    (k : Kernel) (p : Policy) (r : Resolver) (t : Target) (s : Settings)
    (observer : Option Observer) (log : Log) (found : List Address) (w : World) (sock : ℕ)
    → (resolve r p t observer log).0 ≡ ok found
    → (connect k p s found w).0 ≡ ok sock
    → IsVetted k p r t w.trace (connect k p s found w).1.trace sock
resolve-connect k p r t s observer log found w sock resolved opened =
    let (answers, answered, _, permitted, same, whole) =
      resolve-permitted r p t observer log found resolved in
    let (_, (reached, among, peer)) = connect-IsPeer k p s found w sock opened in
    record {
      answers = answers;
      answered = answered;
      whole = elim whole [ inl e ↦ inl e | inr e ↦ inr (sym same ∙ e) ];
      permitted = subst (All (λ a. permits_address p a.ip ≡ true)) same permitted;
      reached = reached;
      among = subst (λ l. Among reached (take p.max_connection_attempts l)) same among;
      peer = peer;
    }

lift-ok : {A : Type 0} (x : Result Refusal A) {a : A} → lift x ≡ ok a → x ≡ ok a
lift-ok (ok x) h = cc
lift-ok (raise e) h = absurd (cc)

pub check_url-ok :
    (py : Platform) (p : Policy) (url : Text) (observer : Option Observer) (log : Log) (t : Target)
    → (check_url py p url observer log).0 ≡ ok t
    → decide py p url ≡ ok t
unfolding check_url
check_url-ok py p url observer log t h =
    let verdict = decide py p url in
    let (_, done) = >>-eq-ok (report observer (url_decision url verdict) log).0 (lift verdict) h in
    lift-ok verdict done

connect_pinned-ok :
    (a : Adapter) (c : Connection) (found : List Address) (w : World) (sock : ℕ)
    → (connect_pinned a c found w).0 ≡ ok sock
    → ((connect a.kernel a.policy (settings_of a c) found w).0 ≡ ok sock)
      × ((connect_pinned a c found w).1 ≡ (connect a.kernel a.policy (settings_of a c) found w).1)
unfolding connect_pinned
connect_pinned-ok a c found w sock h =
    elim (Result-cases (connect a.kernel a.policy (settings_of a c) found w).0) [
      | inr (f, failed) ↦ absurd (cc (rw (connect_pinned, failed) at h))
      | inl (n, opened) ↦ elim (Result-cases (a.audit c.host c.port)) [
        | inr (e, vetoed) ↦ absurd (cc (rw (connect_pinned, opened, audited, vetoed) at h))
        | inl (u, heard) ↦
            (let same : n ≡ sock = cc (rw (connect_pinned, opened, audited, heard) at h) in
              (opened ∙ ap ok same, refl))
      ]
    ]

resolve_pinned-IsVetted :
    (a : Adapter) (c : Connection) (t : Target) (w : World) (sock : ℕ)
    → (resolve_pinned a c t w).0 ≡ ok sock
    → IsVetted a.kernel a.policy a.resolver t w.trace (resolve_pinned a c t w).1.trace sock
unfolding resolve_pinned
resolve_pinned-IsVetted a c t w sock h =
    let looked = resolve a.resolver a.policy t a.observer w.log in
    elim (Result-cases looked.0) [
      | inr (e, failed) ↦ absurd (cc (rw (resolve_pinned, failed) at h))
      | inl (found, resolved) ↦
          let w' : World = record w { log = looked.1 } in
          let (opened, same) =
            connect_pinned-ok a c found w' sock (rw (resolve_pinned, resolved) at h) in
          let ends : (resolve_pinned a c t w).1
              ≡ (connect a.kernel a.policy (settings_of a c) found w').1 =
            rw (resolve_pinned, resolved) same in
          subst (λ x. IsVetted a.kernel a.policy a.resolver t w.trace x.trace sock) (sym ends)
            (resolve-connect a.kernel a.policy a.resolver t (settings_of a c) a.observer w.log found
              w' sock resolved opened)
    ]

-- The promise of the package, kept for the origin that urllib3 was about to reach.
abbrev pub IsKept : Adapter → Text → Connection → Trace → Trace → ℕ → Type 0
IsKept a scheme c before trace sock =
    (c.tunnel_host ≡ none)
    × ((t : Target) × IsAccepted a.platform a.policy (origin scheme c.dns_host c.port) t
        × IsVetted a.kernel a.policy a.resolver t before trace sock)

pinned_socket-IsVetted :
    (a : Adapter) (scheme : Text) (c : Connection) (w : World) (sock : ℕ)
    → (pinned_socket a scheme c w).0 ≡ ok sock
    → IsKept a scheme c w.trace (pinned_socket a scheme c w).1.trace sock
unfolding pinned_socket resolve_pinned connect_pinned
pinned_socket-IsVetted a scheme c w sock h = elim (Option-cases c.tunnel_host) [
  | inr (proxy, tunnels) ↦ absurd (cc (rw (pinned_socket, tunnels) at h))
  | inl direct ↦
      let url = origin scheme c.dns_host c.port in
      let checked = check_url a.platform a.policy url a.observer w.log in
      elim (Result-cases checked.0) [
        | inr (e, refuses) ↦ absurd (cc (rw (pinned_socket, direct, refuses) at h))
        | inl (t, accepts) ↦ (
          direct,
          (
            t,
            decide-IsAccepted a.platform a.policy url t
                (check_url-ok a.platform a.policy url a.observer w.log t accepts),
            (let w' : World = record w { log = checked.1 } in
                let ends : (pinned_socket a scheme c w).1 ≡ (resolve_pinned a c t w').1 =
                  rw (pinned_socket, direct, accepts) refl in
                subst (λ x. IsVetted a.kernel a.policy a.resolver t w.trace x.trace sock) (sym ends)
                  (resolve_pinned-IsVetted a c t w' sock
                    (rw (pinned_socket, direct, accepts) at h))),
          ),
        )
      ]
]

-- A socket that a pool class of an adapter opens is the promise of the package kept for the origin
-- that urllib3 was about to reach: the connection does not tunnel; the URL of the pool's scheme, of
-- the name that urllib3 would look up and of the port is accepted by the policy; and the socket is
-- vetted for that target: the run of calls opened it, connected it to one of the first addresses that
-- the one lookup of the host gave and the policy permits, and ended with the operating system naming
-- that address as its peer.
pub pool_classes-IsVetted :
    (a : Adapter) (pool : Text × NewConn) (c : Connection) (w : World) (sock : ℕ)
    → Among pool (pool_classes a)
    → (pool.1 c w).0 ≡ ok sock
    → IsKept a pool.0 c w.trace (pool.1 c w).1.trace sock
pool_classes-IsVetted a pool c w sock (inl http) h =
    subst (λ x. IsKept a x.0 c w.trace (x.1 c w).1.trace sock) (sym http)
      (pinned_socket-IsVetted a (codes "http") c w sock (ap (λ x. (x.1 c w).0) (sym http) ∙ h))
pool_classes-IsVetted a pool c w sock (inr (inl https)) h =
    subst (λ x. IsKept a x.0 c w.trace (x.1 c w).1.trace sock) (sym https)
      (pinned_socket-IsVetted a (codes "https") c w sock (ap (λ x. (x.1 c w).0) (sym https) ∙ h))
pool_classes-IsVetted a pool c w sock (inr (inr other)) h = absurd (other tt)
