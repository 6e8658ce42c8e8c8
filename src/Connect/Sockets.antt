-- ===== src/Connect/Sockets.antt =====
-- The sockets that src/ssrfguard/_connect.py opens and closes, and what it connects them to.
use ssrfguard.Base.{
  ℕ, suc, ◌+◌, ◌≤◌, ◌≡◌, refl, inl, inr, List, [], ◌∷◌, ◌++◌, Option, none, some, length, All,
  All-map, All-append, Among, if◌then◌else◌, ◌==◌, arith,
}
use ssrfguard.Resolve.Defs.{Address, SockAddr}
use ssrfguard.Connect.Kernel.{
  Event, asked, opened, set_option, set_timeout, bound, connecting, asking_peer, closing, Trace,
}
use ssrfguard.Connect.Traces.{IsInner, IsAttempt, not_opened, left_open, closed}
use ssrfguard.Connect.Attempts.{IsRun}

-- How often a call on a socket occurs.
abbrev pub opens : ℕ → Trace → ℕ
opens sock [] = 0
opens sock (opened t ∷ more) = if t == sock then suc (opens sock more) else opens sock more
opens sock (_ ∷ more) = opens sock more

abbrev pub closes : ℕ → Trace → ℕ
closes sock [] = 0
closes sock (closing t ∷ more) = if t == sock then suc (closes sock more) else closes sock more
closes sock (_ ∷ more) = closes sock more

abbrev pub attempts : Trace → ℕ
attempts [] = 0
attempts (asked _ ∷ more) = suc (attempts more)
attempts (_ ∷ more) = attempts more

abbrev pub kept : Option ℕ → ℕ → ℕ
kept none sock = 0
kept (some t) sock = if t == sock then 1 else 0

opens-append : (sock : ℕ) (xs ys : Trace) → opens sock (xs ++ ys) ≡ opens sock xs + opens sock ys
opens-append sock [] ys = omega arith
opens-append sock (e ∷ xs) ys = grind (arith, opens-append sock xs ys)

closes-append :
    (sock : ℕ) (xs ys : Trace) → closes sock (xs ++ ys) ≡ closes sock xs + closes sock ys
closes-append sock [] ys = omega arith
closes-append sock (e ∷ xs) ys = grind (arith, closes-append sock xs ys)

attempts-append : (xs ys : Trace) → attempts (xs ++ ys) ≡ attempts xs + attempts ys
attempts-append [] ys = omega arith
attempts-append (e ∷ xs) ys = grind (arith, attempts-append xs ys)

inner-counts :
    (sock n : ℕ) (to : SockAddr) (inner : Trace)
    → All (IsInner sock to) inner
    → (opens n inner ≡ 0) × (closes n inner ≡ 0) × (attempts inner ≡ 0)
inner-counts sock n to [] h = (refl, refl, refl)
inner-counts sock n to (asked _ ∷ more) (e, h) = absurd e
inner-counts sock n to (opened _ ∷ more) (e, h) = absurd e
inner-counts sock n to (closing _ ∷ more) (e, h) = absurd e
inner-counts sock n to (set_option _ _ ∷ more) (e, h) = inner-counts sock n to more h
inner-counts sock n to (set_timeout _ _ ∷ more) (e, h) = inner-counts sock n to more h
inner-counts sock n to (bound _ _ ∷ more) (e, h) = inner-counts sock n to more h
inner-counts sock n to (connecting _ _ ∷ more) (e, h) = inner-counts sock n to more h
inner-counts sock n to (asking_peer _ ∷ more) (e, h) = inner-counts sock n to more h

-- Every socket opened is closed, but the one that is left; one call for a socket at most.
unfoldable pub IsBalanced : ℕ → Option ℕ → ℕ → Trace → Type 0
IsBalanced n left limit seg = (opens n seg ≡ closes n seg + kept left n) × (attempts seg ≤ limit)

attempt-IsBalanced :
    (n : ℕ) (a : Address) (left : Option ℕ) (seg : Trace)
    → IsAttempt a left seg
    → IsBalanced n left 1 seg
unfolding IsBalanced
attempt-IsBalanced n a left seg (not_opened e h) = rw (e, h) (refl, omega arith)
attempt-IsBalanced n a left seg (left_open sock inner e all h) =
    let (x, y, z) = inner-counts sock n a.sockaddr inner all in
    rw (e, h, x, y, z) (ground arith, omega arith)
attempt-IsBalanced n a left seg (closed sock inner e all h) =
    let (x, y, z) = inner-counts sock n a.sockaddr inner all in
    rw
      (
        e,
        h,
        opens-append n inner (closing sock ∷ []),
        closes-append n inner (closing sock ∷ []),
        attempts-append inner (closing sock ∷ []),
        x,
        y,
        z,
      )
      (ground arith, omega arith)

pub run-IsBalanced :
    (n : ℕ) (addresses : List Address) (left : Option ℕ) (seg : Trace)
    → IsRun addresses left seg
    → IsBalanced n left (length addresses) seg
unfolding IsBalanced IsRun
run-IsBalanced n [] left seg (e, h) = rw (e, h) (refl, omega arith)
run-IsBalanced n (a ∷ more) left seg (inl h) =
    let (x, y) = attempt-IsBalanced n a left seg h in (x, omega (arith, y))
run-IsBalanced n (a ∷ more) left seg (inr (first, rest, h, k, e)) =
    let (x, y) = attempt-IsBalanced n a none first h in
    let (u, v) = run-IsBalanced n more left rest k in
    rw (e, opens-append n first rest, closes-append n first rest, attempts-append first rest)
      (omega (arith, x, u), omega (arith, y, v))

-- A call that connects, if it does, to the socket address of one of these addresses.
abbrev pub IsPinned : List Address → Event → Type 0
IsPinned addresses (connecting sock to) = (a : Address) × Among a addresses × (to ≡ a.sockaddr)
IsPinned addresses _ = Unit {0}

inner-IsPinned :
    (sock : ℕ) (a : Address) (e : Event) → IsInner sock a.sockaddr e → IsPinned (a ∷ []) e
inner-IsPinned sock a (asked _) h = absurd h
inner-IsPinned sock a (opened _) h = absurd h
inner-IsPinned sock a (closing _) h = absurd h
inner-IsPinned sock a (set_option _ _) h = tt
inner-IsPinned sock a (set_timeout _ _) h = tt
inner-IsPinned sock a (bound _ _) h = tt
inner-IsPinned sock a (connecting _ _) (_, e) = (a, inl refl, e)
inner-IsPinned sock a (asking_peer _) h = tt

attempt-IsPinned :
    (a : Address) (left : Option ℕ) (seg : Trace)
    → IsAttempt a left seg
    → All (IsPinned (a ∷ [])) seg
attempt-IsPinned a left seg (not_opened e h) = rw h (tt, tt)
attempt-IsPinned a left seg (left_open sock inner e all h) =
    rw h (tt, (tt, All-map (inner-IsPinned sock a) inner all))
attempt-IsPinned a left seg (closed sock inner e all h) = rw h (
  tt,
  (
    tt,
    All-append (IsPinned (a ∷ [])) inner (closing sock ∷ [])
        (All-map (inner-IsPinned sock a) inner all) (tt, tt),
  ),
)

IsPinned-grow :
    (xs ys : List Address)
    → ((a : Address) → Among a xs → Among a ys)
    → (e : Event) → IsPinned xs e
    → IsPinned ys e
IsPinned-grow xs ys f (asked _) h = tt
IsPinned-grow xs ys f (opened _) h = tt
IsPinned-grow xs ys f (closing _) h = tt
IsPinned-grow xs ys f (set_option _ _) h = tt
IsPinned-grow xs ys f (set_timeout _ _) h = tt
IsPinned-grow xs ys f (bound _ _) h = tt
IsPinned-grow xs ys f (connecting _ _) (a, m, e) = (a, f a m, e)
IsPinned-grow xs ys f (asking_peer _) h = tt

head_only :
    (a : Address) (more : List Address) (b : Address) → Among b (a ∷ []) → Among b (a ∷ more)
head_only a more b m = elim m [ inl e ↦ inl e | inr n ↦ absurd (n tt) ]

pub run-IsPinned :
    (addresses : List Address) (left : Option ℕ) (seg : Trace)
    → IsRun addresses left seg
    → All (IsPinned addresses) seg
unfolding IsRun
run-IsPinned [] left seg (e, h) = rw h tt
run-IsPinned (a ∷ more) left seg (inl h) =
    All-map (IsPinned-grow (a ∷ []) (a ∷ more) (head_only a more)) seg
      (attempt-IsPinned a left seg h)
run-IsPinned (a ∷ more) left seg (inr (first, rest, h, k, e)) = rw e (
    All-append (IsPinned (a ∷ more)) first rest
      (All-map (IsPinned-grow (a ∷ []) (a ∷ more) (head_only a more)) first
        (attempt-IsPinned a none first h))
      (All-map (IsPinned-grow more (a ∷ more) (λ b m. inr m)) rest (run-IsPinned more left rest k)))
