-- ===== src/Stub/Queried.antt =====
-- What a query of the resolver in src/ssrfguard/resolvers.py that returns gives: the records of one answer.
use ssrfguard.Base.{
  ℕ, zero, suc, ◌+◌, ◌≡◌, refl, sym, subst, false, none, arith, Among, All, All-of_Among, ap, ◌∙◌,
  ◌⊎◌, inl, inr, leb, List, [], ◌∷◌, ◌++◌, some, Text, length, rstrip, Result, ok, raise,
  Bool-cases,
}
use mathlib.Core.List.{append-nil}
use ssrfguard.Dns.Names.{encode_name, decode_name}
use ssrfguard.Dns.Trip.{decode_name-encode_name}
use ssrfguard.Dns.Reply.{Record, Answer}
use ssrfguard.Stub.Network.{Trouble, clock_read, txid_drawn, Calls, Network}
use ssrfguard.Stub.Config.{UdpResolver}
use ssrfguard.Stub.Exchange.{name_of, ask, ask_named}
use ssrfguard.Stub.Answered.{IsReply, ask-IsWhole}
use ssrfguard.Stub.Logic.{Meets, Triple}
use ssrfguard.Stub.Session.{Session, begins, IsAfter, IsAfter-trans, Session-IsAfter, IsExcused}
use ssrfguard.Stub.Asking.{ask-Triple, ask_named-Triple}
use ssrfguard.Stub.Played.{IsPlayed, try_server-IsPlayed}
use ssrfguard.Stub.Lookup.{
  Failed, failed_with, Ending, answered, stopped, unanswered, broke_off, is_caught, try_server,
  try_servers, query,
}

-- The encoded name reads back as the name without its trailing dots.
pub name_of-encode_name :
    (host question : Text)
    → encode_name host ≡ some question
    → name_of question ≡ ok (rstrip b'.' host)
unfolding name_of
name_of-encode_name host question h =
    let read = decode_name-encode_name host question [] [] h in
    let whole : decode_name question 0 ≡ ok (rstrip b'.' host, 0 + length question) =
      rw append-nil at read in
    rw (name_of, whole) refl

-- Between the calls `before` and `after`, a transaction id was drawn, and the answer is that to the
-- question under this id, read from a message off a socket, and not cut short.
abbrev pub IsAnswer : Network → Calls → Calls → Text → ℕ → Answer → Type 0
IsAnswer net before after name qtype answer =
    (drawing : Calls) × IsAfter before drawing
    × IsAfter (drawing ++ txid_drawn ∷ []) after
    × IsReply net (net.txid drawing) name qtype answer
    × (answer.truncated ≡ false)

-- One query's records: those of one answer.
unfoldable pub IsAnswered : Network → Calls → Calls → Text → ℕ → List Record → Type 0
IsAnswered net before after name qtype records =
    (answer : Answer) × IsAnswer net before after name qtype answer × (records ≡ answer.records)

pub IsAnswered-later :
    (net : Network) (before h after : Calls) (name : Text) (qtype : ℕ) (records : List Record)
    → IsAfter before h
    → IsAnswered net h after name qtype records
    → IsAnswered net before after name qtype records
unfolding IsAnswered
IsAnswered-later net before h after name qtype records grown
      (answer, (g, since, ends, reply, whole), same) =
    (answer, (g, IsAfter-trans before h g grown since, ends, reply, whole), same)

pub Result-cases {ℓ κ} :
    {E : Type ℓ} {A : Type κ} (x : Result E A) → ((a : A) × (x ≡ ok a)) ⊎ ((e : E) × (x ≡ raise e))
Result-cases (ok a) = inl (a, refl)
Result-cases (raise e) = inr (e, refl)

pub Ending-cases :
    (x : Ending)
    → ((records : List Record) × (x ≡ answered records))
      ⊎ ((all : Failed) × ((x ≡ unanswered all) ⊎ (x ≡ stopped all)))
      ⊎ ((e : Trouble) × (x ≡ broke_off e))
Ending-cases (answered records) = inl (records, refl)
Ending-cases (unanswered all) = inr (inl (all, inl refl))
Ending-cases (stopped all) = inr (inl (all, inr refl))
Ending-cases (broke_off e) = inr (inr (e, refl))

-- Computations that keep to the session only add calls.
Meets-IsAfter :
    (net : Network) (r : UdpResolver) (server : Text) (deadline : ℕ) (start : Calls) (n : ℕ)
    (x : Result Trouble Answer × Calls)
    → Meets
        (λ _. Session net r deadline start n none)
        (λ e g. Session net r deadline start n none g × IsExcused net server e)
        x
    → IsAfter start x.1
Meets-IsAfter net r server deadline start n (ok a, g) met =
    Session-IsAfter net r deadline start n none g met
Meets-IsAfter net r server deadline start n (raise e, g) (met, _) =
    Session-IsAfter net r deadline start n none g met

module _ (net : Network) (r : UdpResolver) (question name : Text) (qtype deadline : ℕ)
    (named : name_of question ≡ ok name) where
  abbrev clocked : Calls → Calls
  clocked h = h ++ clock_read ∷ []

  -- A question that is answered, put before the deadline.
  ask-IsAnswer :
      (server : Text)
      → Among server r.nameservers
      → (h : Calls) (answer : Answer)
      → (ask net r server question qtype deadline (clocked h)).0 ≡ ok answer
      → IsAnswer net h (ask net r server question qtype deadline (clocked h)).1 name qtype answer
  unfolding ask Triple
  ask-IsAnswer server known h answer e =
      let (reply, whole) =
        ask-IsWhole net r server question name qtype deadline named (clocked h) answer e in
      let drawn = clocked h ++ txid_drawn ∷ [] in
      let ended =
        ask_named net r server question (net.txid (clocked h)) name qtype deadline drawn in
      let grown : IsAfter drawn ended.1 = Meets-IsAfter net r server deadline drawn 0 ended (
        ask_named-Triple net r deadline drawn 0 server known question (net.txid (clocked h)) name
          qtype drawn begins) in
      (clocked h, (clock_read ∷ [], refl), rw named grown, reply, whole)

  ask-IsAfter :
      (server : Text)
      → Among server r.nameservers
      → (h : Calls) → leb deadline (net.clock h) ≡ false
      → IsAfter h (ask net r server question qtype deadline (clocked h)).1
  ask-IsAfter server known h early =
      Meets-IsAfter net r server deadline h 1 (ask net r server question qtype deadline (clocked h))
        (ask-Triple net r deadline h 0 server known question qtype h (ground arith) begins)

  try_server-IsAnswered :
      (server : Text)
      → Among server r.nameservers
      → (n : ℕ) (failures : Failed) (h : Calls) (records : List Record)
      → (try_server net r question qtype deadline server n failures h).0 ≡ answered records
      → IsAnswered net h
          (try_server net r question qtype deadline server n failures h).1
          name
          qtype
          records
  unfolding try_server IsAnswered
  try_server-IsAnswered server known zero failures h records done = absurd (cc)
  try_server-IsAnswered server known (suc n) failures h records done =
      let asked = ask net r server question qtype deadline (clocked h) in
      elim (Bool-cases (leb deadline (net.clock h))) [
        | inl passed ↦ absurd (cc (rw passed at done))
        | inr early ↦ elim (Result-cases asked.0) [
          | inl (answer, e) ↦
              let given : answer.records ≡ records = cc (rw (early, e) at done) in
              rw (early, e) (answer, ask-IsAnswer server known h answer e, sym given)
          | inr (e, failed) ↦ elim (Bool-cases (is_caught e)) [
            | inl caught ↦
                rw (early, failed, caught)
                  (IsAnswered-later net h asked.1 _ name qtype records
                    (ask-IsAfter server known h early)
                    (try_server-IsAnswered server known n (failures ++ (server, failed_with e) ∷ [])
                      asked.1 records (rw (early, failed, caught) at done)))
            | inr free ↦ absurd (cc (rw (early, failed, free) at done))
          ]
        ]
      ]

  try_server-IsAfter :
      (server : Text)
      → Among server r.nameservers
      → (failures : Failed) (h : Calls)
      → IsAfter h (try_server net r question qtype deadline server r.attempts failures h).1
  unfolding IsPlayed
  try_server-IsAfter server known failures h =
      let (m, _, session, _) =
        try_server-IsPlayed net r deadline h question qtype server known r.attempts 0 failures h
          begins in
      Session-IsAfter net r deadline h m none _ session

  try_servers-IsAnswered :
      (servers : List Text)
      → All (λ s. Among s r.nameservers) servers
      → (failures : Failed) (h : Calls) (records : List Record)
      → (try_servers net r question qtype deadline servers failures h).0 ≡ answered records
      → IsAnswered net h
          (try_servers net r question qtype deadline servers failures h).1
          name
          qtype
          records
  unfolding try_servers
  try_servers-IsAnswered [] known failures h records done = absurd (cc)
  try_servers-IsAnswered (server ∷ more) (here, others) failures h records done =
      let first = try_server net r question qtype deadline server r.attempts failures h in
      elim (Ending-cases first.0) [
        | inl (given, e) ↦
            let ends : (try_servers net r question qtype deadline (server ∷ more) failures h).1
                ≡ first.1 =
              rw (try_servers, e) refl in
            subst (λ x. IsAnswered net h x name qtype records) (sym ends)
              (try_server-IsAnswered server here r.attempts failures h records
                (e ∙ rw (try_servers, e) at done))
        | inr (inl (all, inl e)) ↦
            let ends : (try_servers net r question qtype deadline (server ∷ more) failures h).1
                ≡ (try_servers net r question qtype deadline more all first.1).1 =
              rw (try_servers, e) refl in
            subst (λ x. IsAnswered net h x name qtype records) (sym ends)
              (IsAnswered-later net h first.1 _ name qtype records
                (try_server-IsAfter server here failures h)
                (try_servers-IsAnswered more others all first.1 records
                  (rw (try_servers, e) at done)))
        | inr (inl (all, inr e)) ↦ absurd (cc (rw (try_servers, e) at done))
        | inr (inr (t, e)) ↦ absurd (cc (rw (try_servers, e) at done))
      ]

pub query-IsAnswered :
    (net : Network) (r : UdpResolver) (host question name : Text) (qtype deadline : ℕ)
    → name_of question ≡ ok name
    → (h : Calls) (records : List Record)
    → (query net r host question qtype deadline h).0 ≡ ok records
    → IsAnswered net h (query net r host question qtype deadline h).1 name qtype records
unfolding query
query-IsAnswered net r host question name qtype deadline named h records done =
    let ending = (try_servers net r question qtype deadline r.nameservers [] h).0 in
    elim (Ending-cases ending) [
      | inl (given, e) ↦
          try_servers-IsAnswered net r question name qtype deadline named r.nameservers
            (All-of_Among (λ s. Among s r.nameservers) r.nameservers (λ s known. known)) [] h
            records (e ∙ ap answered (cc (rw (query, e) at done)))
      | inr (inl (all, inl e)) ↦ absurd (cc (rw (query, e) at done))
      | inr (inl (all, inr e)) ↦ absurd (cc (rw (query, e) at done))
      | inr (inr (t, e)) ↦ absurd (cc (rw (query, e) at done))
    ]
