-- ===== src/Stub/Answered.antt =====
-- What an answer of `_ask` of src/ssrfguard/resolvers.py was read from.
use ssrfguard.Base.{
  ℕ, zero, suc, ◌+◌, ◌++◌, ◌∷◌, [], length, ap, sym, subst, ◌≡◌, refl, ◌∙◌, ◌⊎◌, inl, inr, false,
  ltb, Text, Result, ok, raise, Bool-cases,
}
use ssrfguard.Dns.Names.{WireError, malformed, wrong_question, server_failure, out_of_fuel, u16_at}
use ssrfguard.Dns.Reply.{Answer, parse}
use ssrfguard.Stub.Network.{
  Trouble, SocketError, of_wire, Calls, dialled, socket_asked, txid_drawn, closed, Network, Ask,
  then_do, ◌>>=◌, settled, from_socket, from_wire, receive, hand, act, read_clock, after_close,
  with_socket, joined, sent,
}
use ssrfguard.Stub.Config.{UdpResolver, family_of}
use ssrfguard.Stub.Exchange.{
  udp_read_limit, tcp_read_limit, smaller, time_left, limit_wait, recv_exactly, unless_wrong,
  wait_for, ask_family, over_udp, packed, recv_reply, ask_stream, refuse_truncated, over_tcp,
  query_message, name_of, if_truncated, ask_named, ask,
}

-- Whatever a computation returns has a property.
pub Yields {ℓ} : {A : Type ℓ} → (A → Type 0) → Ask A → Type ℓ
Yields {A = A} P m = (h : Calls) (a : A) → (m h).0 ≡ ok a → P a

then_do-Yields {ℓ κ} :
    {A : Type ℓ} {B : Type κ} (P : A → Type 0) (Q : B → Type 0) (f : A → Ask B)
    → ((a : A) → P a → Yields Q (f a))
    → (x : Result Trouble A × Calls) → ((a : A) → x.0 ≡ ok a → P a)
    → (b : B) → (then_do x f).0 ≡ ok b
    → Q b
unfolding Yields
then_do-Yields P Q f k (ok a, h) given b done = k a (given a refl) h b done
then_do-Yields P Q f k (raise e, h) given b done = absurd (cc)

pub Yields-bind {ℓ κ} :
    {A : Type ℓ} {B : Type κ} (P : A → Type 0) (Q : B → Type 0) (m : Ask A) (f : A → Ask B)
    → Yields P m
    → ((a : A) → P a → Yields Q (f a))
    → Yields Q (m >>= f)
unfolding Yields
Yields-bind P Q m f first k h b done = then_do-Yields P Q f k (m h) (first h) b done

-- A step whose value does not matter.
abbrev Anything {ℓ} : {A : Type ℓ} → A → Type 0
Anything _ = Unit {0}

pub Yields-after {ℓ κ} :
    {A : Type ℓ} {B : Type κ} (Q : B → Type 0) (m : Ask A) (f : A → Ask B)
    → ((a : A) → Yields Q (f a))
    → Yields Q (m >>= f)
unfolding Yields
Yields-after Q m f k = Yields-bind Anything Q m f (λ h a done. tt) (λ a _. k a)

from_socket-ok {ℓ} :
    {A : Type ℓ} (r : Result SocketError A) {a : A} → from_socket r ≡ ok a → r ≡ ok a
from_socket-ok (ok x) h = cc
from_socket-ok (raise e) h = absurd (cc)

from_wire-ok {ℓ} : {A : Type ℓ} (r : Result WireError A) {a : A} → from_wire r ≡ ok a → r ≡ ok a
from_wire-ok (ok x) h = cc
from_wire-ok (raise e) h = absurd (cc)

after_close-ok {ℓ} :
    {A : Type ℓ} (r : Result Trouble A) (c : Result SocketError (Unit {0})) {a : A}
    → after_close r c ≡ ok a
    → r ≡ ok a
after_close-ok r (ok _) done = done
after_close-ok r (raise e) done = absurd (cc)

refuse_truncated-ok :
    (a : Answer) (h : Calls) {answer : Answer}
    → (refuse_truncated a h).0 ≡ ok answer
    → (a.truncated ≡ false) × (a ≡ answer)
refuse_truncated-ok a h done = elim (Bool-cases a.truncated) [
  | inl cut ↦ absurd (cc (rw cut at done))
  | inr whole ↦ (whole, cc (rw whole at done))
]

raise-Yields {ℓ} : {A : Type ℓ} (Q : A → Type 0) (e : Trouble) → Yields Q (settled (raise e))
unfolding Yields
raise-Yields Q e h a done = absurd (cc)

-- A text that came off a socket: a datagram, or the bytes of a stream up to a count.
unfoldable pub IsReceived : Network → Text → Type 0
IsReceived net message =
    ((h : Calls) × (sock : ℕ) × (net.recv h sock udp_read_limit ≡ ok message))
    ⊎ ((h : Calls) × (sock : ℕ) × (count : ℕ) × (until : ℕ) × ((recv_exactly net sock count until
            h).0
          ≡ ok message))

-- An answer read from a message off a socket.
pub IsReply : Network → ℕ → Text → ℕ → Answer → Type 0
IsReply net txid name qtype answer =
    (message : Text) × IsReceived net message × (parse message txid name qtype ≡ ok answer)

module _ (net : Network) (txid : ℕ) (name : Text) (qtype : ℕ) where
  unless_wrong-IsReply :
      (message : Text) (again : Ask Answer)
      → IsReceived net message
      → Yields (IsReply net txid name qtype) again
      → (r : Result WireError Answer) → parse message txid name qtype ≡ r
      → Yields (IsReply net txid name qtype) (unless_wrong r again)
  unfolding Yields IsReply
  unless_wrong-IsReply message again got more (ok a) read h b done = (message, got, cc)
  unless_wrong-IsReply message again got more (raise wrong_question) read h b done = more h b done
  unless_wrong-IsReply message again got more (raise malformed) read h b done = absurd (cc)
  unless_wrong-IsReply message again got more (raise server_failure) read h b done = absurd (cc)
  unless_wrong-IsReply message again got more (raise out_of_fuel) read h b done = absurd (cc)

  receive-IsReceived : (sock : ℕ) → Yields (IsReceived net) (receive net sock udp_read_limit)
  unfolding Yields IsReceived
  receive-IsReceived sock h message done =
      inl (h, sock, from_socket-ok (net.recv h sock udp_read_limit) done)

  wait_for-IsReply :
      (sock ends fuel : ℕ)
      → Yields (IsReply net txid name qtype) (wait_for net sock ends txid name qtype fuel)
  unfolding wait_for
  wait_for-IsReply sock ends zero = raise-Yields (IsReply net txid name qtype) (of_wire out_of_fuel)
  wait_for-IsReply sock ends (suc fuel) =
      Yields-after (IsReply net txid name qtype) (limit_wait net sock ends) _ (λ _.
        Yields-bind (IsReceived net) (IsReply net txid name qtype) (receive net sock udp_read_limit)
          _ (receive-IsReceived sock)
          (λ message got.
            unless_wrong-IsReply message (wait_for net sock ends txid name qtype fuel) got
              (wait_for-IsReply sock ends fuel) (parse message txid name qtype) refl))

  with_socket-Yields :
      (Q : Answer → Type 0) (sock : ℕ) (body : Ask Answer)
      → Yields Q body
      → Yields Q (with_socket net sock body)
  unfolding Yields
  with_socket-Yields Q sock body held h answer done =
      held h answer (after_close-ok _ (net.act (body h).1 (closed sock)) done)

  over_udp-IsReply :
      (r : UdpResolver) (server message : Text) (until : ℕ)
      → Yields (IsReply net txid name qtype) (over_udp net r server message txid name qtype until)
  unfolding over_udp
  over_udp-IsReply r server message until =
      let P : Answer → Type 0 = IsReply net txid name qtype in
      Yields-after P (read_clock net) _ (λ now.
        Yields-after P (ask_family (family_of net.names server)) _ (λ family.
          Yields-after P (hand net (socket_asked family)) _ (λ sock. with_socket-Yields P sock _ (
            Yields-after P (act net (joined sock server r.nameserver_port)) _ (λ _.
              Yields-after P (act net (sent sock message)) _ (λ _.
                wait_for-IsReply sock (smaller until (now + r.attempt_timeout))
                  (suc r.attempt_timeout)))))))

  recv_reply-IsReceived :
      (size until sock : ℕ) → Yields (IsReceived net) (recv_reply net size until sock)
  unfolding Yields IsReceived
  recv_reply-IsReceived size until sock h reply done = elim (Bool-cases (ltb tcp_read_limit size)) [
    | inl large ↦ absurd (cc (rw large at done))
    | inr fits ↦ inr (h, sock, size, until, rw fits at done)
  ]

  read-IsReply :
      (message : Text)
      → IsReceived net message
      → Yields (IsReply net txid name qtype) (settled (from_wire (parse message txid name qtype)))
  unfolding Yields IsReply
  read-IsReply message got h answer done =
      (message, got, from_wire-ok (parse message txid name qtype) done)

  ask_stream-IsReply :
      (message : Text) (until sock : ℕ)
      → Yields (IsReply net txid name qtype) (ask_stream net message txid name qtype until sock)
  ask_stream-IsReply message until sock =
      let P : Answer → Type 0 = IsReply net txid name qtype in
      Yields-after P (act net (sent sock (packed (length message) ++ message))) _ (λ _.
        Yields-after P (recv_exactly net sock 2 until) _ (λ prefix.
          Yields-bind (IsReceived net) P (recv_reply net (u16_at prefix 0) until sock) _
            (recv_reply-IsReceived (u16_at prefix 0) until sock) read-IsReply))

  -- A reply that is not cut short.
  IsWhole : Answer → Type 0
  IsWhole answer = IsReply net txid name qtype answer × (answer.truncated ≡ false)

  refuse_truncated-IsWhole :
      (a : Answer) → IsReply net txid name qtype a → Yields IsWhole (refuse_truncated a)
  unfolding Yields IsWhole
  refuse_truncated-IsWhole a read h answer done =
      let (whole, same) = refuse_truncated-ok a h done in
      (subst (IsReply net txid name qtype) same read, ap (λ x. x.truncated) (sym same) ∙ whole)

  over_tcp-IsWhole :
      (r : UdpResolver) (server message : Text) (until : ℕ)
      → Yields IsWhole (over_tcp net r server message txid name qtype until)
  unfolding over_tcp
  over_tcp-IsWhole r server message until = Yields-after IsWhole (time_left net until) _ (λ left.
      Yields-after IsWhole
        (hand net (dialled server r.nameserver_port (smaller left r.attempt_timeout))) _
        (λ sock.
          Yields-bind (IsReply net txid name qtype) IsWhole
            (with_socket net sock (ask_stream net message txid name qtype until sock)) _
            (with_socket-Yields (IsReply net txid name qtype) sock _
              (ask_stream-IsReply message until sock))
            refuse_truncated-IsWhole))

  if_truncated-IsWhole :
      (a : Answer) (again : Ask Answer)
      → IsReply net txid name qtype a
      → Yields IsWhole again
      → Yields IsWhole (if_truncated a again)
  unfolding Yields IsWhole
  if_truncated-IsWhole a again read more h answer done = elim (Bool-cases a.truncated) [
    | inl cut ↦ more h answer (rw cut at done)
    | inr whole ↦
        let same : a ≡ answer = cc (rw whole at done) in
        (subst (IsReply net txid name qtype) same read, ap (λ x. x.truncated) (sym same) ∙ whole)
  ]

  ask_named-IsWhole :
      (r : UdpResolver) (server question : Text) (deadline : ℕ)
      → Yields IsWhole (ask_named net r server question txid name qtype deadline)
  unfolding ask_named
  ask_named-IsWhole r server question deadline =
      let message = query_message txid question qtype in
      Yields-bind (IsReply net txid name qtype) IsWhole
        (over_udp net r server message txid name qtype deadline) _
        (over_udp-IsReply r server message deadline)
        (λ a read.
          if_truncated-IsWhole a (over_tcp net r server message txid name qtype deadline) read
            (over_tcp-IsWhole r server message deadline))

-- An answer of `_ask` was read from a message off a socket, under the transaction id that was
-- drawn first, and is not cut short.
pub ask-IsWhole :
    (net : Network) (r : UdpResolver) (server question name : Text) (qtype deadline : ℕ)
    → name_of question ≡ ok name
    → (h : Calls) (answer : Answer) → (ask net r server question qtype deadline h).0 ≡ ok answer
    → IsReply net (net.txid h) name qtype answer × (answer.truncated ≡ false)
unfolding ask Yields IsWhole
ask-IsWhole net r server question name qtype deadline named h answer done =
    ask_named-IsWhole net (net.txid h) name qtype r server question deadline (h ++ txid_drawn ∷ [])
      answer (rw named at done)
