-- ===== src/Client/Opened.antt =====
-- The sockets of `SafeBackend` in src/ssrfguard/httpx.py.
use ssrfguard.Base.{
  ℕ, ◌≡◌, refl, sym, subst, ap, ◌∙◌, inl, inr, true, ◌==◌, any, List, Text, ok, >>-eq-ok,
  Bool-cases,
}
use ssrfguard.Policy.Config.{Policy}
use ssrfguard.Policy.Addresses.{check_host}
use ssrfguard.Policy.Url.{Target}
use ssrfguard.Resolve.Defs.{Address, resolve}
use ssrfguard.Connect.Kernel.{World}
use ssrfguard.Connect.Defs.{connect}
use ssrfguard.Client.Httpx.{
  origin_target, check_backend_port, check_origin, Backend, Dial, dial_settings, connect_found,
  resolve_found, connect_tcp,
}
use ssrfguard.Client.Pinned.{Result-cases, IsVetted, resolve-connect}

connect_found-ok :
    (b : Backend) (d : Dial) (found : List Address) (w : World) (sock : ℕ)
    → (connect_found b d found w).0 ≡ ok sock
    → ((connect b.kernel b.policy (dial_settings b d) found w).0 ≡ ok sock)
      × ((connect_found b d found w).1 ≡ (connect b.kernel b.policy (dial_settings b d) found w).1)
unfolding connect_found
connect_found-ok b d found w sock h =
    elim (Result-cases (connect b.kernel b.policy (dial_settings b d) found w).0) [
      | inr (f, failed) ↦ absurd (cc (rw (connect_found, failed) at h))
      | inl (n, opened) ↦
          let same : n ≡ sock = cc (rw (connect_found, opened) at h) in (opened ∙ ap ok same, refl)
    ]

resolve_found-IsVetted :
    (b : Backend) (d : Dial) (t : Target) (w : World) (sock : ℕ)
    → (resolve_found b d t w).0 ≡ ok sock
    → IsVetted b.kernel b.policy b.resolver t w.trace (resolve_found b d t w).1.trace sock
unfolding resolve_found
resolve_found-IsVetted b d t w sock h =
    let looked = resolve b.resolver b.policy t b.observer w.log in
    elim (Result-cases looked.0) [
      | inr (e, failed) ↦ absurd (cc (rw (resolve_found, failed) at h))
      | inl (found, resolved) ↦
          let w' : World = record w { log = looked.1 } in
          let (opened, same) =
            connect_found-ok b d found w' sock (rw (resolve_found, resolved) at h) in
          let ends : (resolve_found b d t w).1
              ≡ (connect b.kernel b.policy (dial_settings b d) found w').1 =
            rw (resolve_found, resolved) same in
          subst (λ x. IsVetted b.kernel b.policy b.resolver t w.trace x.trace sock) (sym ends)
            (resolve-connect b.kernel b.policy b.resolver t (dial_settings b d) b.observer w.log
              found w' sock resolved opened)
    ]

-- An origin that both backends let through.
abbrev pub IsOrigin : Policy → Text → ℕ → Type 0
IsOrigin p host port = (any (λ q. q == port) p.allowed_ports ≡ true) × (check_host p host ≡ ok tt)

pub check_origin-IsOrigin :
    (p : Policy) (host : Text) (port : ℕ) {u : Unit {0}}
    → check_origin p host port ≡ ok u
    → IsOrigin p host port
unfolding check_origin check_backend_port
check_origin-IsOrigin p host port h =
    let (checked, hosted) = >>-eq-ok (check_backend_port p port) (check_host p host) h in
    elim (Bool-cases (any (λ q. q == port) p.allowed_ports)) [
      | inl listed ↦ (listed, hosted)
      | inr other ↦ absurd (cc (rw (check_backend_port, other) at checked))
    ]

-- A socket that `SafeBackend.connect_tcp` opens is to an origin whose port is allowed and whose host is
-- listed, if any is; and it is vetted for that host and port: the run of calls opened it,
-- connected it to one of the first `max_connection_attempts` addresses that the one lookup gave and the
-- policy permits, and ended with the operating system naming that address as its peer.
pub connect_tcp-IsVetted :
    (b : Backend) (host : Text) (port : ℕ) (d : Dial) (w : World) (sock : ℕ)
    → (connect_tcp b host port d w).0 ≡ ok sock
    → IsOrigin b.policy host port
      × IsVetted b.kernel b.policy b.resolver
          (origin_target host port)
          w.trace
          (connect_tcp b host port d w).1.trace
          sock
unfolding connect_tcp
connect_tcp-IsVetted b host port d w sock h =
    elim (Result-cases (check_origin b.policy host port)) [
      | inr (r, refuses) ↦ absurd (cc (rw (connect_tcp, refuses) at h))
      | inl (u, accepts) ↦ (
        check_origin-IsOrigin b.policy host port accepts,
        (let ends : (connect_tcp b host port d w).1
                ≡ (resolve_found b d (origin_target host port) w).1 =
              rw (connect_tcp, accepts) refl in
            subst
              (λ x.
                IsVetted b.kernel b.policy b.resolver (origin_target host port) w.trace x.trace
                  sock)
              (sym ends)
              (resolve_found-IsVetted b d (origin_target host port) w sock
                (rw (connect_tcp, accepts) at h))),
      )
    ]
