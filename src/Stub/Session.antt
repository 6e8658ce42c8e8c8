-- ===== src/Stub/Session.antt =====
-- The order of the calls that src/ssrfguard/resolvers.py makes to put its questions: a step relation,
-- indexed by the number of questions put so far and by the socket that is open.
use ssrfguard.Base.{
  ℕ, suc, ap, ◌∙◌, ◌+◌, ◌≤◌, ◌<◌, ◌≡◌, ◌≢◌, subst, sym, true, [], ◌∷◌, ◌++◌, Option, none, some,
  Text, Among, Option-cases, inl, inr,
}
use mathlib.Core.List.{append_assoc, append-nil}
use ssrfguard.Dns.Names.{WireError, out_of_fuel}
use ssrfguard.Net.{v4, v6}
use ssrfguard.Net.Parse.{ip_address}
use ssrfguard.Stub.Network.{
  SocketError, Trouble, of_socket, of_wire, bad_server, clock_read, txid_drawn, socket_asked,
  dialled, handed, joined, sent, timeout_set, received, closed, Call, Calls, Names, Network,
}
use ssrfguard.Stub.Config.{UdpResolver, is_address, family_of}

-- The calls made from `start` on. A question is put only before the deadline; a socket is asked for
-- only while none is open, is connected only to a configured server on its port, and waits only
-- for a time that ends by the deadline, after which it was last read how late it is.
pub data Session (net : Network) (r : UdpResolver) (deadline : ℕ) (start : Calls)
    : ℕ → Option ℕ → Calls → Type 0 where
  begins : Session net r deadline start 0 none start
  reads :
      (n : ℕ) (open_one : Option ℕ) (h : Calls)
      → Session net r deadline start n open_one h
      → Session net r deadline start n open_one (h ++ clock_read ∷ [])
  draws :
      (n : ℕ) (h : Calls)
      → net.clock h < deadline
      → Session net r deadline start n none h
      → Session net r deadline start (suc n) none ((h ++ clock_read ∷ []) ++ txid_drawn ∷ [])
  asks :
      (n family : ℕ) (h : Calls)
      → Session net r deadline start n none h
      → Session net r deadline start n none (h ++ socket_asked family ∷ [])
  dials :
      (n : ℕ) (server : Text) (t : ℕ) (h : Calls)
      → Among server r.nameservers
      → net.clock h + t ≤ deadline
      → t ≤ r.attempt_timeout
      → Session net r deadline start n none h
      → Session net r deadline start n none
          ((h ++ clock_read ∷ []) ++ dialled server r.nameserver_port t ∷ [])
  gets :
      (n sock : ℕ) (h : Calls)
      → Session net r deadline start n none h
      → Session net r deadline start n (some sock) (h ++ handed sock ∷ [])
  joins :
      (n sock : ℕ) (server : Text) (h : Calls)
      → Among server r.nameservers
      → Session net r deadline start n (some sock) h
      → Session net r deadline start n (some sock) (h ++ joined sock server r.nameserver_port ∷ [])
  sends :
      (n sock : ℕ) (message : Text) (h : Calls)
      → Session net r deadline start n (some sock) h
      → Session net r deadline start n (some sock) (h ++ sent sock message ∷ [])
  waits :
      (n sock t : ℕ) (h : Calls)
      → net.clock h + t ≤ deadline
      → Session net r deadline start n (some sock) h
      → Session net r deadline start n
          (some sock)
          ((h ++ clock_read ∷ []) ++ timeout_set sock t ∷ [])
  receives :
      (n sock limit : ℕ) (h : Calls)
      → Session net r deadline start n (some sock) h
      → Session net r deadline start n (some sock) (h ++ received sock limit ∷ [])
  closes :
      (n sock : ℕ) (h : Calls)
      → Session net r deadline start n (some sock) h
      → Session net r deadline start n none (h ++ closed sock ∷ [])

-- The clock: a later reading of it is larger.
unfoldable pub IsTicking : Network → Type 0
IsTicking net = (h later : Calls) → net.clock h < net.clock (h ++ clock_read ∷ later)

-- What asking a server may raise: a server that is an address is no cause, and if the clock ticks
-- the fuel suffices.
unfoldable pub IsExcused : Network → Text → Trouble → Type 0
IsExcused net server e =
    (IsTicking net → e ≢ of_wire out_of_fuel) × (is_address server ≡ true → e ≢ bad_server)

module _ (net : Network) (server : Text) where
  pub socket-IsExcused : (x : SocketError) → IsExcused net server (of_socket x)
  unfolding IsExcused
  socket-IsExcused x = ((λ _ h. absurd (cc)), (λ _ h. absurd (cc)))

  pub wire-IsExcused : (e : WireError) → e ≢ out_of_fuel → IsExcused net server (of_wire e)
  unfolding IsExcused
  wire-IsExcused e h = ((λ _ same. h (cc)), (λ _ same. absurd (cc)))

  pub fuel-IsExcused : (IsTicking net → ⊥) → IsExcused net server (of_wire out_of_fuel)
  unfolding IsExcused
  fuel-IsExcused still = ((λ ticks _. still ticks), (λ _ same. absurd (cc)))

  pub address-IsExcused :
      (names : Names) → family_of names server ≡ none → IsExcused net server bad_server
  unfolding IsExcused family_of
  address-IsExcused names e = (
    (λ _ same. absurd (cc)),
    (λ address _. elim (Option-cases (ip_address server)) [
      | inl nothing ↦ absurd (cc (rw nothing at address))
      | inr (v4 m, found) ↦ absurd (cc (rw (family_of, found) at e))
      | inr (v6 m zone, found) ↦ absurd (cc (rw (family_of, found) at e))
    ]),
  )

-- The clock has been read later than `now`, whatever is called next.
abbrev pub IsPast : Network → ℕ → Calls → Type 0
IsPast net now h = (later : Calls) → IsTicking net → now < net.clock (h ++ later)

module _ (net : Network) where
  pub IsPast-read : (h : Calls) → IsPast net (net.clock h) (h ++ clock_read ∷ [])
  unfolding IsTicking
  IsPast-read h later ticks =
      subst (λ x. net.clock h < net.clock x) (sym (append_assoc h (clock_read ∷ []) later))
        (ticks h later)

  pub IsPast-one :
      (now : ℕ) (h : Calls) (e : Call) → IsPast net now h → IsPast net now (h ++ e ∷ [])
  IsPast-one now h e past later ticks =
      subst (λ x. now < net.clock x) (sym (append_assoc h (e ∷ []) later)) (past (e ∷ later) ticks)

  pub IsPast-now : (now : ℕ) (h : Calls) → IsPast net now h → IsTicking net → now < net.clock h
  IsPast-now now h past ticks = subst (λ x. now < net.clock x) (append-nil h) (past [] ticks)

-- Calls that were made from others on.
abbrev pub IsAfter : Calls → Calls → Type 0
IsAfter before after = (seg : Calls) × (after ≡ before ++ seg)

IsAfter-on : (before h : Calls) (e : Calls) → IsAfter before h → IsAfter before (h ++ e)
IsAfter-on before h e (seg, same) = (seg ++ e, ap (λ t. t ++ e) same ∙ append_assoc before seg e)

pub IsAfter-trans : (g h k : Calls) → IsAfter g h → IsAfter h k → IsAfter g k
IsAfter-trans g h k (first, e) (second, f) =
    (first ++ second, f ∙ ap (λ t. t ++ second) e ∙ append_assoc g first second)

-- A session only adds calls to those that it starts from.
pub Session-IsAfter :
    (net : Network) (r : UdpResolver) (deadline : ℕ) (start : Calls) (n : ℕ) (open_one : Option ℕ)
    (h : Calls)
    → Session net r deadline start n open_one h
    → IsAfter start h
Session-IsAfter net r deadline start _ _ _ begins = ([], sym (append-nil start))
Session-IsAfter net r deadline start _ _ _ (reads n o h s) =
    IsAfter-on start h _ (Session-IsAfter net r deadline start n o h s)
Session-IsAfter net r deadline start _ _ _ (draws n h b s) =
    IsAfter-on start _ _ (IsAfter-on start h _ (Session-IsAfter net r deadline start n none h s))
Session-IsAfter net r deadline start _ _ _ (asks n f h s) =
    IsAfter-on start h _ (Session-IsAfter net r deadline start n none h s)
Session-IsAfter net r deadline start _ _ _ (dials n v t h a b c s) =
    IsAfter-on start _ _ (IsAfter-on start h _ (Session-IsAfter net r deadline start n none h s))
Session-IsAfter net r deadline start _ _ _ (gets n sock h s) =
    IsAfter-on start h _ (Session-IsAfter net r deadline start n none h s)
Session-IsAfter net r deadline start _ _ _ (joins n sock v h a s) =
    IsAfter-on start h _ (Session-IsAfter net r deadline start n (some sock) h s)
Session-IsAfter net r deadline start _ _ _ (sends n sock m h s) =
    IsAfter-on start h _ (Session-IsAfter net r deadline start n (some sock) h s)
Session-IsAfter net r deadline start _ _ _ (waits n sock t h a s) =
    IsAfter-on start _ _
      (IsAfter-on start h _ (Session-IsAfter net r deadline start n (some sock) h s))
Session-IsAfter net r deadline start _ _ _ (receives n sock l h s) =
    IsAfter-on start h _ (Session-IsAfter net r deadline start n (some sock) h s)
Session-IsAfter net r deadline start _ _ _ (closes n sock h s) =
    IsAfter-on start h _ (Session-IsAfter net r deadline start n (some sock) h s)
