-- ===== src/Connect/Outcome.antt =====
-- What `connect` of src/ssrfguard/_connect.py returns, raises and does.
use ssrfguard.Base.{
  ℕ, zero, suc, ◌+◌, ◌-◌, ◌≤◌, ◌≡◌, refl, sym, ap, subst, ◌∙◌, ◌⊎◌, inl, inr, true, false, List, [],
  ◌∷◌, ◌++◌, map, Option, none, some, length, take, all, All, Among, ok, raise, length-take-le,
  arith,
}
use mathlib.Core.List.{append-nil}
use ssrfguard.Errors.{Exception, refused, blocked_address, an_ip, by_table}
use ssrfguard.Policy.Config.{Policy}
use ssrfguard.Policy.Addresses.{check_address, permits_address, permits_address-check_address}
use ssrfguard.Resolve.Defs.{Address}
use ssrfguard.Resolve.Sifting.{Verdict-cases}
use ssrfguard.Connect.Kernel.{Trace, Kernel, World}
use ssrfguard.Connect.Defs.{
  Exhausted, Settings, is_os_error, is_timeout, Ending, connected, passed_on, all_failed, try_each,
  Failure, raised, timed_out, unreachable, check_all, conclude, connect_checked, connect,
}
use ssrfguard.Connect.Traces.{socket_of}
use ssrfguard.Connect.Attempts.{left_of, try_each-IsRun}
use ssrfguard.Connect.Sockets.{
  opens, closes, attempts, kept, IsBalanced, run-IsBalanced, IsPinned, run-IsPinned,
}
use ssrfguard.Connect.Peer.{IsPeer}
use ssrfguard.Connect.Told.{Told, try_each-Told}

Checked-cases :
    (p : Policy) (addresses : List Address)
    → ((check_all p addresses ≡ ok tt) × All (λ a. permits_address p a.ip ≡ true) addresses)
      ⊎ ((e : Exception) × (check_all p addresses ≡ raise e) × (is_os_error e ≡ false))
unfolding check_all
Checked-cases p [] = inl (refl, tt)
Checked-cases p (a ∷ more) = elim (Verdict-cases (check_address p a.ip)) [
  | inr ((ip, why), e) ↦
      inr (refused (blocked_address (an_ip ip) (by_table why)), rw (check_all, e) refl, refl)
  | inl e ↦ elim (Checked-cases p more) [
    | inl (h, good) ↦ inl (rw (check_all, e) h, ((permits_address-check_address p a.ip).1 e, good))
    | inr (f, h, n) ↦ inr (f, rw (check_all, e) h, n)
  ]
]

abbrev settled : Kernel → Policy → Settings → List Address → World → Ending × World
settled k p s addresses w = try_each k s (take p.max_connection_attempts addresses) [] true w

-- The three ways through `connect`.
Connect-cases :
    (k : Kernel) (p : Policy) (s : Settings) (addresses : List Address) (w : World)
    → ((e : Exception) × (connect k p s addresses w ≡ (raise (raised e), w))
        × (is_os_error e ≡ false))
      ⊎ (All (λ a. permits_address p a.ip ≡ true) addresses
          × (connect k p s addresses w ≡ (
            conclude p addresses (settled k p s addresses w).0,
            (settled k p s addresses w).1,
          )))
unfolding connect connect_checked
Connect-cases k p s [] w = inl (_, refl, refl)
Connect-cases k p s (a ∷ more) w = elim (Checked-cases p (a ∷ more)) [
  | inl (h, good) ↦ inr (good, rw (connect, h) refl)
  | inr (e, h, n) ↦ inl (e, rw (connect, h) refl, n)
]

conclude-socket :
    (p : Policy) (addresses : List Address) (ending : Ending)
    → socket_of (conclude p addresses ending) ≡ left_of ending
conclude-socket p addresses (connected sock) = refl
conclude-socket p addresses (passed_on e) = refl
conclude-socket p addresses (all_failed failures only) = ground arith

conclude-ok :
    (p : Policy) (addresses : List Address) (ending : Ending) (sock : ℕ)
    → conclude p addresses ending ≡ ok sock
    → ending ≡ connected sock
conclude-ok p addresses (connected n) sock h = cc
conclude-ok p addresses (passed_on e) sock h = absurd (cc)
conclude-ok p addresses (all_failed failures only) sock h = ground arith

-- Where `connect` returns a socket, every address that it was given is permitted, and the run of calls
-- opened that socket, after that asked to connect it to one of the first `max_connection_attempts`
-- addresses, after that was told by the operating system that the socket's peer is that address, and
-- made no further call.
pub connect-IsPeer :
    (k : Kernel) (p : Policy) (s : Settings) (addresses : List Address) (w : World) (sock : ℕ)
    → (connect k p s addresses w).0 ≡ ok sock
    → All (λ a. permits_address p a.ip ≡ true) addresses
      × ((a : Address) × Among a (take p.max_connection_attempts addresses)
          × IsPeer k w.trace (connect k p s addresses w).1.trace sock a)
unfolding Told
connect-IsPeer k p s addresses w sock h = elim (Connect-cases k p s addresses w) [
  | inl (e, same, n) ↦ absurd (cc (ap (λ x. x.0) same))
  | inr (good, same) ↦
      let few = take p.max_connection_attempts addresses in
      let ended = settled k p s addresses w in
      let ending = conclude-ok p addresses ended.0 sock (sym (ap (λ x. x.0) same) ∙ h) in
      let reached : Told k w.trace few [] true (connected sock, (connect k p s addresses w).1) =
        subst (λ x. Told k w.trace few [] true (connected sock, x)) (sym (ap (λ x. x.1) same))
          (subst (λ x. Told k w.trace few [] true (x, ended.1)) ending
            (try_each-Told k s few [] true w)) in
      (good, reached)
]

-- Whatever the operating system answers, `connect` adds calls to the trace such that: each socket
-- that was opened is closed again, except the one returned; at most `max_connection_attempts`
-- sockets are asked for; each connecting call is to the socket address of one of the addresses
-- within that limit; and no call at all is made unless every address given is permitted.
pub connect-calls :
    (k : Kernel) (p : Policy) (s : Settings) (addresses : List Address) (w : World)
    → (seg : Trace) × ((connect k p s addresses w).1.trace ≡ w.trace ++ seg)
      × ((n : ℕ) → opens n seg ≡ closes n seg + kept (socket_of (connect k p s addresses w).0) n)
      × (attempts seg ≤ p.max_connection_attempts)
      × All (IsPinned (take p.max_connection_attempts addresses)) seg
      × (All (λ a. permits_address p a.ip ≡ true) addresses ⊎ (seg ≡ []))
unfolding IsBalanced
connect-calls k p s addresses w = elim (Connect-cases k p s addresses w) [
  | inl (e, same, n) ↦ rw same ([], simp append-nil, λ n. refl, omega arith, tt, inr refl)
  | inr (good, same) ↦
      let few = take p.max_connection_attempts addresses in
      let (seg, h, run) = try_each-IsRun k s few [] true w in
      rw (same, conclude-socket p addresses (settled k p s addresses w).0)
        (
          seg,
          h,
          λ n. (run-IsBalanced n few _ seg run).0,
          omega (
            arith,
            (run-IsBalanced 0 few _ seg run).1,
            length-take-le p.max_connection_attempts addresses,
          ),
          run-IsPinned few _ seg run,
          inl good,
        )
]

-- The number of addresses that were not tried, when there are any.
abbrev pub skipped_of : ℕ → Option ℕ
skipped_of zero = none
skipped_of (suc n) = some (suc n)

-- A message that names every address within the limit, in order, with the `OSError` that the
-- attempt at it raised, the limit, and the number of addresses beyond it when there are any.
pub record IsFull (p : Policy) (addresses : List Address) (m : Exhausted) : Type 0 where
  pub tried : map (λ f. f.0) m.failures ≡ take p.max_connection_attempts addresses
  pub os_errors : all (λ f. is_os_error f.1) m.failures ≡ true
  pub limit : m.cap ≡ p.max_connection_attempts
  pub untried : m.skipped ≡ skipped_of (length addresses - p.max_connection_attempts)

-- What the error that `connect` raises says.
abbrev pub IsTold : Policy → List Address → Failure → Type 0
IsTold p addresses (raised e) = is_os_error e ≡ false
IsTold p addresses (timed_out m) =
    IsFull p addresses m × (all (λ f. is_timeout f.1) m.failures ≡ true)
IsTold p addresses (unreachable m) =
    IsFull p addresses m × (all (λ f. is_timeout f.1) m.failures ≡ false)
