-- ===== src/Stub/Complete.antt =====
-- What a call of `UdpResolver` of src/ssrfguard/resolvers.py returns.
use ssrfguard.Base.{
  ℕ, ◌≡◌, refl, sym, subst, inl, inr, Bool, ◌||◌, ◌==◌, List, [], ◌∷◌, ◌++◌, Text, rstrip, map,
  keep, Result, ok, raise, Bool-cases, Option-cases,
}
use ssrfguard.Dns.Names.{encode_name}
use ssrfguard.Dns.Reply.{Record}
use ssrfguard.Stub.Network.{Calls, Names, Network}
use ssrfguard.Stub.Config.{UdpResolver}
use ssrfguard.Stub.Exchange.{name_of}
use ssrfguard.Stub.Lookup.{Unresolved, query, qtype_of, joined_with, ask_families, lookup}
use ssrfguard.Stub.Queried.{name_of-encode_name, IsAnswered, Result-cases, query-IsAnswered}

joined_with-ok :
    (records : List Record) (x : Result Unresolved (List Record) × Calls) {all : List Record}
    → (joined_with records x).0 ≡ ok all
    → (more : List Record) × (x.0 ≡ ok more)
      × (all ≡ records ++ more)
      × ((joined_with records x).1 ≡ x.1)
joined_with-ok records (ok more, h) done = (more, refl, cc, refl)
joined_with-ok records (raise e, h) done = absurd (cc)

-- Records that are the answers to a question for each type, one after another, put in the calls that
-- follow `before` and end with `after`.
unfoldable pub IsComplete : Network → Calls → Calls → Text → List ℕ → List Record → Type 0
IsComplete net before after name [] records = (records ≡ []) × (after ≡ before)
IsComplete net before after name (qtype ∷ more) records =
    (middle : Calls) × (first : List Record) × (rest : List Record) × (records ≡ first ++ rest)
    × IsAnswered net before middle name qtype first
    × IsComplete net middle after name more rest

abbrev pub in_scope : ℕ → ℕ → Bool
in_scope family wanted = family == 0 || family == wanted

-- The record types that a call asks for: those of the configured families, or of the one that the
-- caller names.
abbrev pub types_in_scope : Names → UdpResolver → ℕ → List ℕ
types_in_scope names r family = map (qtype_of names) (keep (in_scope family) r.families)

module _ (net : Network) (r : UdpResolver) (host question name : Text) (family deadline : ℕ)
    (named : name_of question ≡ ok name) where
  ask_families-IsComplete :
      (families : List ℕ) (h : Calls) (records : List Record)
      → (ask_families net r host question family deadline families h).0 ≡ ok records
      → IsComplete net h
          (ask_families net r host question family deadline families h).1
          name
          (map (qtype_of net.names) (keep (in_scope family) families))
          records
  unfolding ask_families IsComplete
  ask_families-IsComplete [] h records done = (cc, refl)
  ask_families-IsComplete (wanted ∷ more) h records done =
      let first = query net r host question (qtype_of net.names wanted) deadline h in
      elim (Bool-cases (in_scope family wanted)) [
        | inr out ↦ rw out (ask_families-IsComplete more h records (rw (ask_families, out) at done))
        | inl asked ↦ elim (Result-cases first.0) [
          | inr (e, failed) ↦ absurd (cc (rw (ask_families, asked, failed) at done))
          | inl (given, e) ↦
              let d = rw (ask_families, asked, e) at done in
              let (rest, later, all, ends) =
                joined_with-ok given (ask_families net r host question family deadline more first.1)
                  d in
              rw (asked, e)
                (
                  first.1,
                  given,
                  rest,
                  all,
                  query-IsAnswered net r host question name (qtype_of net.names wanted) deadline
                      named h given e,
                  subst
                      (λ x.
                        IsComplete net first.1 x name
                          (map (qtype_of net.names) (keep (in_scope family) more)) rest)
                      (sym ends) (ask_families-IsComplete more first.1 rest later),
                )
        ]
      ]

-- A lookup that returns is complete: the name could be encoded, and the records are those of one
-- answer for each record type in scope, in the order of the families, and of nothing else. For each
-- answer a transaction id was drawn among the calls of the lookup, after those that led to the answer
-- before it; the answer was read from a message off a socket that answers the question for the name
-- without its trailing dots under that id; and none is truncated.
pub lookup-IsComplete :
    (net : Network) (r : UdpResolver) (host : Text) (family deadline : ℕ) (h : Calls)
    (records : List Record)
    → (lookup net r host family deadline h).0 ≡ ok records
    → IsComplete net h
        (lookup net r host family deadline h).1
        (rstrip b'.' host)
        (types_in_scope net.names r family)
        records
unfolding lookup
lookup-IsComplete net r host family deadline h records done =
    elim (Option-cases (encode_name host)) [
      | inl none_of ↦ absurd (cc (rw (lookup, none_of) at done))
      | inr (question, e) ↦
          let ends : (lookup net r host family deadline h).1
              ≡ (ask_families net r host question family deadline r.families h).1 =
            rw (lookup, e) refl in
          subst
            (λ x. IsComplete net h x (rstrip b'.' host) (types_in_scope net.names r family) records)
            (sym ends)
            (ask_families-IsComplete net r host question (rstrip b'.' host) family deadline
              (name_of-encode_name host question e) r.families h records (rw (lookup, e) at done))
    ]
