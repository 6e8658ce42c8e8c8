-- ===== src/Stub/Waits.antt =====
-- `_over_udp` of src/ssrfguard/resolvers.py keeps the order of its calls.
use ssrfguard.Base.{
  ℕ, zero, suc, ◌+◌, ◌-◌, ◌≤◌, ◌<◌, ◌≡◌, ◌≢◌, refl, [], ◌∷◌, ◌++◌, Option, none, some, Text, Among,
  Result, ok, raise, arith,
}
use ssrfguard.Dns.Names.{WireError, malformed, wrong_question, server_failure, out_of_fuel}
use ssrfguard.Dns.Reply.{Answer, parse}
use ssrfguard.Dns.Total.{parse_total}
use ssrfguard.Stub.Network.{
  late, Trouble, clock_read, socket_asked, handed, joined, sent, timeout_set, received, Calls,
  Network, Ask, read_clock, act, receive, hand,
}
use ssrfguard.Stub.Config.{UdpResolver, family_of}
use ssrfguard.Stub.Exchange.{
  udp_read_limit, smaller, limit_wait, unless_wrong, wait_for, ask_datagram, ask_family, over_udp,
}
use ssrfguard.Stub.Logic.{
  Meets, Triple, Triple-bind, Triple-act, Triple-receive, Triple-clock, Triple-hand,
  Triple-with_socket,
}
use ssrfguard.Stub.Session.{
  Session, reads, asks, gets, joins, sends, waits, receives, closes, IsTicking, IsExcused,
  socket-IsExcused, wire-IsExcused, fuel-IsExcused, address-IsExcused, IsPast, IsPast-read,
  IsPast-one, IsPast-now,
}
use ssrfguard.Stub.Runs.{limit_wait-Triple}

pub smaller_first : (m n : ℕ) → smaller m n ≤ m
smaller_first m n = ground arith

pub smaller_second : (m n : ℕ) → smaller m n ≤ n
smaller_second m n = ground arith

module _ (net : Network) (r : UdpResolver) (deadline : ℕ) (start : Calls) (n : ℕ) (server : Text)
    (known : Among server r.nameservers) where
  abbrev Shut : Calls → Type 0
  Shut = Session net r deadline start n none

  abbrev Held : ℕ → Calls → Type 0
  Held sock = Session net r deadline start n (some sock)

  abbrev Fair : Trouble → Type 0
  Fair = IsExcused net server

  -- What is raised while the socket is open, and while none is.
  abbrev HeldBad : ℕ → Trouble → Calls → Type 0
  HeldBad sock e h = Held sock h × Fair e

  abbrev ShutBad : Trouble → Calls → Type 0
  ShutBad e h = Shut h × Fair e

  -- What the loop of `_over_udp` still needs: a tick of the clock for each turn.
  abbrev Enough : ℕ → ℕ → Calls → Type 0
  Enough ends fuel h = IsTicking net → (1 ≤ fuel) × (ends < net.clock h + fuel)

  -- A turn begun at `now` has been paid.
  abbrev Lasting : ℕ → ℕ → ℕ → Calls → Type 0
  Lasting sock ends fuel h =
      Held sock h
      × ((now : ℕ) × IsPast net now h × (now < ends) × (IsTicking net → ends < now + suc fuel))

  spend-Triple :
      (sock ends fuel : ℕ)
      → ends ≤ deadline
      → Triple
          (λ h. Held sock h × Enough ends (suc fuel) h)
          (limit_wait net sock ends)
          (λ _. Lasting sock ends fuel)
          (HeldBad sock)
  spend-Triple sock ends fuel bound =
      limit_wait-Triple net sock ends (λ h. Held sock h × Enough ends (suc fuel) h)
        (Lasting sock ends fuel) (HeldBad sock)
        (λ h (held, enough) time. (
          waits n sock (ends - net.clock h) h (omega arith) held,
          (
            net.clock h,
            IsPast-one net (net.clock h) (h ++ clock_read ∷ [])
                (timeout_set sock (ends - net.clock h)) (IsPast-read net h),
            time,
            λ ticks. (enough ticks).1,
          ),
        ))
        (λ h (held, enough). (reads n (some sock) h held, socket-IsExcused net server late))
        (λ x h (held, enough) time.
          (waits n sock (ends - net.clock h) h (omega arith) held, socket-IsExcused net server x))

  unless_wrong-Triple :
      (sock : ℕ) (before : Calls → Type 0) (again : Ask Answer)
      → ((h : Calls) → before h → Held sock h)
      → Triple before again (λ _. Held sock) (HeldBad sock)
      → (r : Result WireError Answer) → r ≢ raise out_of_fuel
      → Triple before (unless_wrong r again) (λ _. Held sock) (HeldBad sock)
  unfolding Triple
  unless_wrong-Triple sock before again held run (ok answer) total h b = held h b
  unless_wrong-Triple sock before again held run (raise wrong_question) total h b = run h b
  unless_wrong-Triple sock before again held run (raise malformed) total h b =
      (held h b, wire-IsExcused net server malformed (λ s. absurd (cc)))
  unless_wrong-Triple sock before again held run (raise server_failure) total h b =
      (held h b, wire-IsExcused net server server_failure (λ s. absurd (cc)))
  unless_wrong-Triple sock before again held run (raise out_of_fuel) total h b = absurd (total refl)

  turn-Triple :
      (sock ends fuel : ℕ)
      → Triple
          (Lasting sock ends fuel)
          (receive net sock udp_read_limit)
          (λ _ h. Held sock h × Enough ends fuel h)
          (HeldBad sock)
  turn-Triple sock ends fuel =
      let call = received sock udp_read_limit in
      Triple-receive net (Lasting sock ends fuel) (HeldBad sock) sock udp_read_limit
        (λ h. Held sock h × Enough ends fuel h)
        (λ h (held, (now, past, early, enough)). (
          receives n sock udp_read_limit h held,
          λ ticks.
              let later =
                IsPast-now net now (h ++ call ∷ []) (IsPast-one net now h call past) ticks in
              let bound = enough ticks in (omega arith, omega arith),
        ))
        (λ x h (held, _). (receives n sock udp_read_limit h held, socket-IsExcused net server x))

  wait_for-Triple :
      (sock ends txid : ℕ) (name : Text) (qtype fuel : ℕ)
      → ends ≤ deadline
      → Triple
          (λ h. Held sock h × Enough ends fuel h)
          (wait_for net sock ends txid name qtype fuel)
          (λ _. Held sock)
          (HeldBad sock)
  unfolding wait_for Triple
  wait_for-Triple sock ends txid name qtype zero bound h (held, enough) =
      (held, fuel-IsExcused net server (λ ticks. absurd (let (p, _) = enough ticks in omega arith)))
  wait_for-Triple sock ends txid name qtype (suc fuel) bound h both =
      Triple-bind (λ h. Held sock h × Enough ends (suc fuel) h) (λ _. Lasting sock ends fuel)
        (λ _. Held sock) (HeldBad sock) (limit_wait net sock ends) _
        (spend-Triple sock ends fuel bound)
        (λ _.
          Triple-bind (Lasting sock ends fuel) (λ _ h. Held sock h × Enough ends fuel h)
            (λ _. Held sock) (HeldBad sock) (receive net sock udp_read_limit) _
            (turn-Triple sock ends fuel)
            (λ message.
              unless_wrong-Triple sock (λ h. Held sock h × Enough ends fuel h) _ (λ h x. x.0)
                (wait_for-Triple sock ends txid name qtype fuel bound)
                (parse message txid name qtype) (parse_total message txid name qtype)))
        h both

  -- The state in which the socket is held, and the clock is past `now`.
  abbrev Since : ℕ → ℕ → Calls → Type 0
  Since now sock h = Held sock h × IsPast net now h

  ask_family-Triple :
      (now : ℕ)
      → Triple
          (λ h. Shut h × IsPast net now h)
          (ask_family (family_of net.names server))
          (λ _ h. Shut h × IsPast net now h)
          ShutBad
  unfolding Triple
  ask_family-Triple now h (shut, past) = step (family_of net.names server) refl
    where
      step :
          (x : Option ℕ)
          → family_of net.names server ≡ x
          → Meets (λ _ g. Shut g × IsPast net now g) ShutBad (ask_family x h)
      step (some family) e = (shut, past)
      step none e = (shut, address-IsExcused net server net.names e)

  ask_datagram-Triple :
      (message : Text) (txid : ℕ) (name : Text) (qtype ends now sock : ℕ)
      → ends ≤ deadline
      → ends ≤ now + r.attempt_timeout
      → Triple
          (Since now sock)
          (ask_datagram net r server message txid name qtype ends sock)
          (λ _. Held sock)
          (HeldBad sock)
  ask_datagram-Triple message txid name qtype ends now sock bound near =
      let join = joined sock server r.nameserver_port in
      let send = sent sock message in
      Triple-bind (Since now sock) (λ _. Since now sock) (λ _. Held sock) (HeldBad sock)
        (act net join) _
        (Triple-act net (Since now sock) (HeldBad sock) join (Since now sock)
          (λ h (held, past). (joins n sock server h known held, IsPast-one net now h join past))
          (λ x h (held, past). (joins n sock server h known held, socket-IsExcused net server x)))
        (λ _.
          Triple-bind (Since now sock) (λ _ h. Held sock h × Enough ends (suc r.attempt_timeout) h)
            (λ _. Held sock) (HeldBad sock) (act net send) _
            (Triple-act net (Since now sock) (HeldBad sock) send
              (λ h. Held sock h × Enough ends (suc r.attempt_timeout) h)
              (λ h (held, past). (
                sends n sock message h held,
                λ ticks.
                    let later =
                      IsPast-now net now (h ++ send ∷ []) (IsPast-one net now h send past) ticks in
                    (omega arith, omega arith),
              ))
              (λ x h (held, past). (sends n sock message h held, socket-IsExcused net server x)))
            (λ _. wait_for-Triple sock ends txid name qtype (suc r.attempt_timeout) bound))

  pub over_udp-Triple :
      (message : Text) (txid : ℕ) (name : Text) (qtype : ℕ)
      → Triple Shut (over_udp net r server message txid name qtype deadline) (λ _. Shut) ShutBad
  unfolding over_udp
  over_udp-Triple message txid name qtype =
      Triple-bind Shut (λ now h. Shut h × IsPast net now h) (λ _. Shut) ShutBad (read_clock net) _
        (Triple-clock net Shut ShutBad (λ now h. Shut h × IsPast net now h)
          (λ h shut. (reads n none h shut, IsPast-read net h)))
        (λ now.
          Triple-bind (λ h. Shut h × IsPast net now h) (λ _ h. Shut h × IsPast net now h)
            (λ _. Shut) ShutBad (ask_family (family_of net.names server)) _ (ask_family-Triple now)
            (λ family.
              Triple-bind (λ h. Shut h × IsPast net now h) (Since now) (λ _. Shut) ShutBad
                (hand net (socket_asked family)) _
                (Triple-hand net (λ h. Shut h × IsPast net now h) ShutBad (socket_asked family)
                  (Since now)
                  (λ sock h (shut, past).
                    let ask = socket_asked family in
                    (
                      gets n sock (h ++ ask ∷ []) (asks n family h shut),
                      IsPast-one net now (h ++ ask ∷ []) (handed sock)
                          (IsPast-one net now h ask past),
                    ))
                  (λ x h (shut, past). (asks n family h shut, socket-IsExcused net server x)))
                (λ sock.
                  let ends = smaller deadline (now + r.attempt_timeout) in
                  Triple-with_socket net sock (Since now sock) Shut (Held sock) Fair _
                    (λ h held. closes n sock h held) (socket-IsExcused net server)
                    (ask_datagram-Triple message txid name qtype ends now sock
                      (smaller_first deadline (now + r.attempt_timeout))
                      (smaller_second deadline (now + r.attempt_timeout))))))
