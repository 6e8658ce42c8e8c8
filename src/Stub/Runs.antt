-- ===== src/Stub/Runs.antt =====
-- The waits and reads of src/ssrfguard/resolvers.py keep the order of its calls.
use ssrfguard.Base.{
  ℕ, zero, suc, ◌-◌, ◌≤◌, ◌<◌, inl, inr, leb, [], ◌∷◌, ◌++◌, none, some, Text, length, Among, ok,
  Bool-cases, arith,
}
use ssrfguard.Dns.Names.{malformed}
use ssrfguard.Stub.Network.{
  SocketError, late, Trouble, of_socket, clock_read, sent, timeout_set, Calls, Network, Ask,
  settled, act, receive,
}
use ssrfguard.Stub.Config.{UdpResolver}
use ssrfguard.Stub.Exchange.{limit_wait, unless_closed, recv_missing}
use ssrfguard.Stub.Logic.{Triple, Triple-then, Triple-act, Triple-receive, from_socket-Meets}
use ssrfguard.Stub.Session.{
  Session, reads, sends, waits, receives, IsExcused, socket-IsExcused, wire-IsExcused,
}

-- A wait that ends by `until`, if it is not yet over.
pub limit_wait-Triple :
    (net : Network) (sock until : ℕ) (before after : Calls → Type 0)
    (bad : Trouble → Calls → Type 0)
    → ((h : Calls)
        → before h
        → net.clock h < until
        → after ((h ++ clock_read ∷ []) ++ timeout_set sock (until - net.clock h) ∷ []))
    → ((h : Calls) → before h → bad (of_socket late) (h ++ clock_read ∷ []))
    → ((x : SocketError) (h : Calls)
        → before h
        → net.clock h < until
        → bad (of_socket x) ((h ++ clock_read ∷ []) ++ timeout_set sock (until - net.clock h) ∷ []))
    → Triple before (limit_wait net sock until) (λ _. after) bad
unfolding Triple
limit_wait-Triple net sock until before after bad good over failed h held =
    elim (Bool-cases (leb until (net.clock h))) [
      | inl passed ↦ rw passed (over h held)
      | inr early ↦
          let time : net.clock h < until = ground arith in
          let wait = timeout_set sock (until - net.clock h) in
          rw early (
            from_socket-Meets (λ _. after) bad ((h ++ clock_read ∷ []) ++ wait ∷ [])
              (λ _. good h held time) (λ x. failed x h held time)
              (net.act (h ++ clock_read ∷ []) wait))
    ]

module _ (net : Network) (r : UdpResolver) (deadline : ℕ) (start : Calls) (n : ℕ) (server : Text)
    (known : Among server r.nameservers) where
  abbrev Shut : Calls → Type 0
  Shut = Session net r deadline start n none

  abbrev Held : ℕ → Calls → Type 0
  Held sock = Session net r deadline start n (some sock)

  abbrev Fair : Trouble → Type 0
  Fair = IsExcused net server

  -- What is raised while the socket is open, and while none is.
  abbrev HeldBad : ℕ → Trouble → Calls → Type 0
  HeldBad sock e h = Held sock h × Fair e

  abbrev ShutBad : Trouble → Calls → Type 0
  ShutBad e h = Shut h × Fair e

  wait-Triple :
      (sock until : ℕ)
      → until ≤ deadline
      → Triple (Held sock) (limit_wait net sock until) (λ _. Held sock) (HeldBad sock)
  wait-Triple sock until bound =
      limit_wait-Triple net sock until (Held sock) (Held sock) (HeldBad sock)
        (λ h held time. waits n sock (until - net.clock h) h (omega arith) held)
        (λ h held. (reads n (some sock) h held, socket-IsExcused net server late))
        (λ x h held time.
          (waits n sock (until - net.clock h) h (omega arith) held, socket-IsExcused net server x))

  receive-Triple :
      (sock limit : ℕ) → Triple (Held sock) (receive net sock limit) (λ _. Held sock) (HeldBad sock)
  receive-Triple sock limit =
      Triple-receive net (Held sock) (HeldBad sock) sock limit (Held sock)
        (λ h held. receives n sock limit h held)
        (λ x h held. (receives n sock limit h held, socket-IsExcused net server x))

  pub send-Triple :
      (sock : ℕ) (message : Text)
      → Triple (Held sock) (act net (sent sock message)) (λ _. Held sock) (HeldBad sock)
  send-Triple sock message =
      Triple-act net (Held sock) (HeldBad sock) (sent sock message) (Held sock)
        (λ h held. sends n sock message h held)
        (λ x h held. (sends n sock message h held, socket-IsExcused net server x))

  unless_closed-Triple :
      (sock : ℕ) (chunk : Text) (rest : Ask Text)
      → (1 ≤ length chunk → Triple (Held sock) rest (λ _. Held sock) (HeldBad sock))
      → Triple (Held sock) (unless_closed chunk rest) (λ _. Held sock) (HeldBad sock)
  unfolding Triple
  unless_closed-Triple sock [] rest run h held =
      (held, wire-IsExcused net server malformed (λ s. absurd (cc)))
  unless_closed-Triple sock (b ∷ bs) rest run h held =
      Triple-then (Held sock) (HeldBad sock) rest (λ more. settled (ok ((b ∷ bs) ++ more)))
        (run (omega arith)) (λ more g still. still) h held

  -- `_recv_exactly`: each turn reads a byte or more.
  pub recv_missing-Triple :
      (sock until fuel missing : ℕ)
      → until ≤ deadline
      → missing ≤ fuel
      → Triple
          (Held sock)
          (recv_missing net sock until fuel missing)
          (λ _. Held sock)
          (HeldBad sock)
  unfolding recv_missing Triple
  recv_missing-Triple sock until fuel zero bound enough h held = held
  recv_missing-Triple sock until zero (suc m) bound enough h held = absurd (omega arith)
  recv_missing-Triple sock until (suc fuel) (suc m) bound enough h held =
      Triple-then (Held sock) (HeldBad sock) (limit_wait net sock until) _
        (wait-Triple sock until bound)
        (λ _.
          Triple-then (Held sock) (HeldBad sock) (receive net sock (suc m)) _
            (receive-Triple sock (suc m))
            (λ chunk.
              unless_closed-Triple sock chunk
                (recv_missing net sock until fuel (suc m - length chunk))
                (λ some_bytes.
                  recv_missing-Triple sock until fuel (suc m - length chunk) bound (omega arith))))
        h held
