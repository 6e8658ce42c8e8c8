-- ===== src/Stub/Played.antt =====
-- The attempts of one query of src/ssrfguard/resolvers.py keep the order of its calls.
use ssrfguard.Base.{
  ℕ, zero, suc, ◌+◌, ◌≤◌, ◌≡◌, refl, inl, inr, true, false, leb, List, [], ◌∷◌, ◌++◌, none, Text,
  Among, All, All-among, Result, ok, raise, Bool-cases, arith, if◌then◌else◌,
}
use ssrfguard.Dns.Names.{malformed, wrong_question, server_failure, out_of_fuel}
use ssrfguard.Dns.Reply.{Answer}
use ssrfguard.Stub.Network.{Trouble, of_socket, of_wire, bad_server, clock_read, Calls, Network}
use ssrfguard.Stub.Config.{UdpResolver, is_address}
use ssrfguard.Stub.Exchange.{ask}
use ssrfguard.Stub.Logic.{Meets}
use ssrfguard.Stub.Session.{Session, reads, IsTicking, IsExcused}
use ssrfguard.Stub.Asking.{ask-Triple}
use ssrfguard.Stub.Lookup.{
  Failed, failed_with, Ending, answered, stopped, unanswered, broke_off, is_caught, try_server,
  try_servers,
}

-- What may leave `_query` without a handler: with servers that are addresses and a clock that
-- ticks, one thing only.
abbrev pub IsStray : Network → UdpResolver → Trouble → Type 0
IsStray net r e =
    IsTicking net
    → All (λ server. is_address server ≡ true) r.nameservers
    → e ≡ of_wire wrong_question

IsExcused-IsStray :
    (net : Network) (r : UdpResolver) (server : Text) (e : Trouble)
    → Among server r.nameservers
    → IsExcused net server e
    → is_caught e ≡ false
    → IsStray net r e
unfolding IsExcused
IsExcused-IsStray net r server (of_socket x) known excuse free ticks valid = absurd (cc)
IsExcused-IsStray net r server (of_wire malformed) known excuse free ticks valid = absurd (cc)
IsExcused-IsStray net r server (of_wire wrong_question) known excuse free ticks valid = refl
IsExcused-IsStray net r server (of_wire server_failure) known excuse free ticks valid = absurd (cc)
IsExcused-IsStray net r server (of_wire out_of_fuel) known (fuel, _) free ticks valid =
    absurd (fuel ticks refl)
IsExcused-IsStray net r server bad_server known (_, address) free ticks valid =
    absurd (address (All-among (λ s. is_address s ≡ true) r.nameservers valid server known) refl)

-- The number of attempts at so many servers.
abbrev pub attempts_at : UdpResolver → List Text → ℕ
attempts_at r [] = 0
attempts_at r (_ ∷ more) = r.attempts + attempts_at r more

module _ (net : Network) (r : UdpResolver) (deadline : ℕ) (start : Calls) where
  abbrev pub Shut : ℕ → Calls → Type 0
  Shut n = Session net r deadline start n none

  abbrev pub IsFair : Ending → Type 0
  IsFair (broke_off e) = IsStray net r e
  IsFair (answered _) = Unit {0}
  IsFair (stopped _) = Unit {0}
  IsFair (unanswered _) = Unit {0}

  -- At most so many questions more.
  unfoldable pub IsPlayed : ℕ → ℕ → Ending × Calls → Type 0
  IsPlayed n more (ending, h) = (m : ℕ) × (m ≤ n + more) × Shut m h × IsFair ending

  weaken-IsPlayed : (n k : ℕ) (x : Ending × Calls) → IsPlayed (suc n) k x → IsPlayed n (suc k) x
  unfolding IsPlayed
  weaken-IsPlayed n k x (m, bound, shut, fair) = (m, omega arith, shut, fair)

  -- An attempt that was made, before the ones that may follow it.
  attempt-IsPlayed :
      (n k : ℕ) (server : Text)
      → Among server r.nameservers
      → (again : Trouble → Calls → Ending × Calls)
      → ((e : Trouble) (g : Calls) → Shut (suc n) g → IsPlayed (suc n) k (again e g))
      → (x : Result Trouble Answer × Calls)
      → Meets (λ _. Shut (suc n)) (λ e g. Shut (suc n) g × IsExcused net server e) x
      → IsPlayed n (suc k) (elim x.0 [
        | ok answer ↦ (answered answer.records, x.1)
        | raise e ↦ if is_caught e then again e x.1 else (broke_off e, x.1)
      ])
  unfolding IsPlayed
  attempt-IsPlayed n k server known again later (ok answer, g) shut = (suc n, omega arith, shut, tt)
  attempt-IsPlayed n k server known again later (raise e, g) (shut, excuse) =
      elim (Bool-cases (is_caught e)) [
        | inl caught ↦ rw caught (weaken-IsPlayed n k (again e g) (later e g shut))
        | inr free ↦
            rw free (suc n, omega arith, shut, IsExcused-IsStray net r server e known excuse free)
      ]

  pub try_server-IsPlayed :
      (question : Text) (qtype : ℕ) (server : Text)
      → Among server r.nameservers
      → (k n : ℕ) (failures : Failed) (h : Calls) → Shut n h
      → IsPlayed n k (try_server net r question qtype deadline server k failures h)
  unfolding try_server IsPlayed
  try_server-IsPlayed question qtype server known zero n failures h shut =
      (n, omega arith, shut, tt)
  try_server-IsPlayed question qtype server known (suc k) n failures h shut =
      elim (Bool-cases (leb deadline (net.clock h))) [
        | inl passed ↦ rw passed (n, omega arith, reads n none h shut, tt)
        | inr early ↦ rw early (
            attempt-IsPlayed n k server known
              (λ e g.
                try_server net r question qtype deadline server k
                  (failures ++ (server, failed_with e) ∷ []) g)
              (λ e g now.
                try_server-IsPlayed question qtype server known k (suc n)
                  (failures ++ (server, failed_with e) ∷ []) g now)
              (ask net r server question qtype deadline (h ++ clock_read ∷ []))
              (ask-Triple net r deadline start n server known question qtype h (ground arith) shut))
      ]

  -- The attempts at one server, before the ones at the others.
  server-IsPlayed :
      (n k j : ℕ) (again : Failed → Calls → Ending × Calls)
      → ((all : Failed) (m : ℕ) (g : Calls)
          → m ≤ n + k
          → Shut m g
          → IsPlayed n (k + j) (again all g))
      → (x : Ending × Calls) → IsPlayed n k x
      → IsPlayed n (k + j) (elim x.0 [
        | answered records ↦ (answered records, x.1)
        | stopped all ↦ (stopped all, x.1)
        | unanswered all ↦ again all x.1
        | broke_off e ↦ (broke_off e, x.1)
      ])
  unfolding IsPlayed
  server-IsPlayed n k j again later (answered records, g) (m, bound, shut, fair) =
      (m, omega arith, shut, fair)
  server-IsPlayed n k j again later (stopped all, g) (m, bound, shut, fair) =
      (m, omega arith, shut, fair)
  server-IsPlayed n k j again later (broke_off e, g) (m, bound, shut, fair) =
      (m, omega arith, shut, fair)
  server-IsPlayed n k j again later (unanswered all, g) (m, bound, shut, fair) =
      later all m g bound shut

  further-IsPlayed :
      (n m k j : ℕ) (x : Ending × Calls) → m ≤ n + k → IsPlayed m j x → IsPlayed n (k + j) x
  unfolding IsPlayed
  further-IsPlayed n m k j x near (p, bound, shut, fair) = (p, omega arith, shut, fair)

  pub try_servers-IsPlayed :
      (question : Text) (qtype : ℕ) (servers : List Text)
      → All (λ s. Among s r.nameservers) servers
      → (n : ℕ) (failures : Failed) (h : Calls) → Shut n h
      → IsPlayed n
          (attempts_at r servers)
          (try_servers net r question qtype deadline servers failures h)
  unfolding try_servers IsPlayed
  try_servers-IsPlayed question qtype [] known n failures h shut = (n, omega arith, shut, tt)
  try_servers-IsPlayed question qtype (server ∷ more) (here, rest) n failures h shut =
      server-IsPlayed n r.attempts (attempts_at r more)
        (λ all g. try_servers net r question qtype deadline more all g)
        (λ all m g near now.
          further-IsPlayed n m r.attempts (attempts_at r more)
            (try_servers net r question qtype deadline more all g) near
            (try_servers-IsPlayed question qtype more rest m all g now))
        (try_server net r question qtype deadline server r.attempts failures h)
        (try_server-IsPlayed question qtype server here r.attempts n failures h shut)
