-- ===== src/Stub/Asking.antt =====
-- `_ask` of src/ssrfguard/resolvers.py keeps the order of its calls, over UDP and then over TCP.
use ssrfguard.Base.{
  ℕ, suc, ◌+◌, ◌≤◌, ◌<◌, ◌≡◌, ◌≢◌, refl, sym, subst, inl, inr, ltb, leb, [], ◌∷◌, ◌++◌, none, some,
  Text, length, Among, Result, ok, raise, Bool-cases, arith,
}
use ssrfguard.Dns.Names.{WireError, malformed, out_of_fuel, u16_at, decode_name}
use ssrfguard.Dns.Bounded.{IsDecoded, decode_name-IsDecoded}
use ssrfguard.Dns.Reply.{Answer, parse}
use ssrfguard.Dns.Total.{parse_total}
use ssrfguard.Stub.Network.{
  late, Trouble, clock_read, txid_drawn, dialled, handed, sent, Calls, Network, Ask, settled,
  from_wire, act, hand, with_socket,
}
use ssrfguard.Stub.Config.{UdpResolver}
use ssrfguard.Stub.Exchange.{
  tcp_read_limit, smaller, time_left, recv_exactly, over_udp, packed, recv_reply, ask_stream,
  refuse_truncated, over_tcp, query_message, name_of, if_truncated, ask_named, ask,
}
use ssrfguard.Stub.Logic.{Meets, Triple, Triple-bind, Triple-then, Triple-hand, Triple-with_socket}
use ssrfguard.Stub.Session.{
  Session, reads, draws, dials, gets, closes, IsExcused, socket-IsExcused, wire-IsExcused,
}
use ssrfguard.Stub.Runs.{recv_missing-Triple, send-Triple}
use ssrfguard.Stub.Waits.{smaller_first, smaller_second, over_udp-Triple}

module _ (net : Network) (r : UdpResolver) (deadline : ℕ) (start : Calls) (n : ℕ) (server : Text)
    (known : Among server r.nameservers) where
  abbrev Shut : Calls → Type 0
  Shut = Session net r deadline start n none

  abbrev Held : ℕ → Calls → Type 0
  Held sock = Session net r deadline start n (some sock)

  abbrev HeldBad : ℕ → Trouble → Calls → Type 0
  HeldBad sock e h = Held sock h × IsExcused net server e

  abbrev ShutBad : Trouble → Calls → Type 0
  ShutBad e h = Shut h × IsExcused net server e

  -- What was read from a message is not for want of fuel.
  wire-Triple {ℓ} :
      {A : Type ℓ} (kept : Calls → Type 0) (x : Result WireError A)
      → x ≢ raise out_of_fuel
      → Triple kept (settled (from_wire x)) (λ _. kept) (λ e h. kept h × IsExcused net server e)
  unfolding Triple
  wire-Triple kept (ok a) total h held = held
  wire-Triple kept (raise e) total h held = (held, wire-IsExcused net server e (λ same. total (cc)))

  recv_reply-Triple :
      (size sock : ℕ)
      → Triple (Held sock) (recv_reply net size deadline sock) (λ _. Held sock) (HeldBad sock)
  unfolding Triple
  recv_reply-Triple size sock h held = elim (Bool-cases (ltb tcp_read_limit size)) [
    | inl large ↦ rw large (held, wire-IsExcused net server malformed (λ s. absurd (cc)))
    | inr fits ↦ rw fits (
        recv_missing-Triple net r deadline start n server known sock deadline size size
          (omega arith) (omega arith) h held)
  ]

  ask_stream-Triple :
      (message : Text) (txid : ℕ) (name : Text) (qtype sock : ℕ)
      → Triple
          (Held sock)
          (ask_stream net message txid name qtype deadline sock)
          (λ _. Held sock)
          (HeldBad sock)
  ask_stream-Triple message txid name qtype sock =
      let whole = packed (length message) ++ message in
      Triple-then (Held sock) (HeldBad sock) (act net (sent sock whole)) _
        (send-Triple net r deadline start n server known sock whole)
        (λ _.
          Triple-then (Held sock) (HeldBad sock) (recv_exactly net sock 2 deadline) _
            (recv_missing-Triple net r deadline start n server known sock deadline 2 2 (omega arith)
              (omega arith))
            (λ prefix.
              Triple-then (Held sock) (HeldBad sock)
                (recv_reply net (u16_at prefix 0) deadline sock) _
                (recv_reply-Triple (u16_at prefix 0) sock)
                (λ reply.
                  wire-Triple (Held sock) (parse reply txid name qtype)
                    (parse_total reply txid name qtype))))

  -- Just after the clock was read and the deadline was not past.
  abbrev Timed : ℕ → Calls → Type 0
  Timed left h = (g : Calls) × (h ≡ g ++ clock_read ∷ []) × (net.clock g + left ≤ deadline) × Shut g

  time_left-Triple : Triple Shut (time_left net deadline) Timed ShutBad
  unfolding Triple
  time_left-Triple h shut = elim (Bool-cases (leb deadline (net.clock h))) [
    | inl passed ↦ rw passed (reads n none h shut, socket-IsExcused net server late)
    | inr early ↦
        let time : net.clock h < deadline = ground arith in rw early (h, refl, omega arith, shut)
  ]

  dial-Triple :
      (left : ℕ)
      → Triple
          (Timed left)
          (hand net (dialled server r.nameserver_port (smaller left r.attempt_timeout)))
          Held
          ShutBad
  dial-Triple left =
      let t = smaller left r.attempt_timeout in
      let call = dialled server r.nameserver_port t in
      let first = smaller_first left r.attempt_timeout in
      let dial : (g : Calls)
          → net.clock g + left ≤ deadline
          → Shut g
          → Shut ((g ++ clock_read ∷ []) ++ call ∷ []) =
        λ g time shut.
          dials n server t g known (omega arith) (smaller_second left r.attempt_timeout) shut in
      Triple-hand net (Timed left) ShutBad call Held
        (λ sock h (g, e, time, shut).
          subst (λ x. Held sock ((x ++ call ∷ []) ++ handed sock ∷ [])) (sym e)
            (gets n sock ((g ++ clock_read ∷ []) ++ call ∷ []) (dial g time shut)))
        (λ x h (g, e, time, shut). (
          subst (λ y. Shut (y ++ call ∷ [])) (sym e) (dial g time shut),
          socket-IsExcused net server x,
        ))

  refuse_truncated-Triple : (a : Answer) → Triple Shut (refuse_truncated a) (λ _. Shut) ShutBad
  unfolding Triple
  refuse_truncated-Triple a h shut = elim (Bool-cases a.truncated) [
    | inl cut ↦ rw cut (shut, wire-IsExcused net server malformed (λ s. absurd (cc)))
    | inr whole ↦ rw whole shut
  ]

  over_tcp-Triple :
      (message : Text) (txid : ℕ) (name : Text) (qtype : ℕ)
      → Triple Shut (over_tcp net r server message txid name qtype deadline) (λ _. Shut) ShutBad
  unfolding over_tcp
  over_tcp-Triple message txid name qtype =
      Triple-bind Shut Timed (λ _. Shut) ShutBad (time_left net deadline) _ time_left-Triple
        (λ left.
          Triple-bind (Timed left) Held (λ _. Shut) ShutBad
            (hand net (dialled server r.nameserver_port (smaller left r.attempt_timeout))) _
            (dial-Triple left)
            (λ sock.
              Triple-bind (Held sock) (λ _. Shut) (λ _. Shut) ShutBad
                (with_socket net sock (ask_stream net message txid name qtype deadline sock)) _
                (Triple-with_socket net sock (Held sock) Shut (Held sock) (IsExcused net server) _
                  (λ h held. closes n sock h held) (socket-IsExcused net server)
                  (ask_stream-Triple message txid name qtype sock))
                refuse_truncated-Triple))

  if_truncated-Triple :
      (a : Answer) (again : Ask Answer)
      → Triple Shut again (λ _. Shut) ShutBad
      → Triple Shut (if_truncated a again) (λ _. Shut) ShutBad
  unfolding Triple
  if_truncated-Triple a again run h shut = elim (Bool-cases a.truncated) [
    | inl cut ↦ rw cut (run h shut)
    | inr whole ↦ rw whole shut
  ]

  pub ask_named-Triple :
      (question : Text) (txid : ℕ) (name : Text) (qtype : ℕ)
      → Triple Shut (ask_named net r server question txid name qtype deadline) (λ _. Shut) ShutBad
  unfolding ask_named
  ask_named-Triple question txid name qtype =
      let message = query_message txid question qtype in
      Triple-then Shut ShutBad (over_udp net r server message txid name qtype deadline) _
        (over_udp-Triple net r deadline start n server known message txid name qtype)
        (λ a.
          if_truncated-Triple a (over_tcp net r server message txid name qtype deadline)
            (over_tcp-Triple message txid name qtype))

name_of-total : (question : Text) → name_of question ≢ raise out_of_fuel
unfolding name_of
name_of-total question = step (decode_name question 0) (decode_name-IsDecoded question 0)
  where
    step :
        (x : Result WireError (Text × ℕ))
        → IsDecoded question x
        → elim x [ ok (name, _) ↦ ok name | raise e ↦ raise e ] ≢ raise out_of_fuel
    step (ok (name, after)) decoded same = absurd (cc)
    step (raise e) decoded same = absurd (cc)

-- One question more, whether it is answered or not.
pub ask-Triple :
    (net : Network) (r : UdpResolver) (deadline : ℕ) (start : Calls) (n : ℕ) (server : Text)
    → Among server r.nameservers
    → (question : Text) (qtype : ℕ) (h : Calls) → net.clock h < deadline
    → Session net r deadline start n none h
    → Meets
        (λ _. Session net r deadline start (suc n) none)
        (λ e g. Session net r deadline start (suc n) none g × IsExcused net server e)
        (ask net r server question qtype deadline (h ++ clock_read ∷ []))
unfolding ask Triple
ask-Triple net r deadline start n server known question qtype h time shut =
    let kept = Session net r deadline start (suc n) none in
    Triple-then kept (λ e g. kept g × IsExcused net server e)
      (settled (from_wire (name_of question))) _
      (wire-Triple net r deadline start (suc n) server known kept (name_of question)
        (name_of-total question))
      (λ name.
        ask_named-Triple net r deadline start (suc n) server known question
          (net.txid (h ++ clock_read ∷ [])) name qtype)
      ((h ++ clock_read ∷ []) ++ txid_drawn ∷ []) (draws n h time shut)
