-- ===== src/Stub/Logic.antt =====
-- Reasoning about the computations of `Network`, as src/ssrfguard/resolvers.py composes them: what
-- holds of the calls made before one, and after it returns or raises.
use ssrfguard.Base.{ℕ, [], ◌∷◌, ◌++◌, Result, ok, raise}
use ssrfguard.Stub.Network.{
  SocketError, Trouble, of_socket, Call, Calls, clock_read, received, handed, closed, Network, Ask,
  then_do, ◌>>=◌, from_socket, read_clock, act, receive, after_hand, hand, after_close, with_socket,
}

abbrev pub Meets {ℓ} :
    {A : Type ℓ}
    → (A → Calls → Type 0)
    → (Trouble → Calls → Type 0)
    → Result Trouble A × Calls
    → Type 0
Meets good bad (ok a, h) = good a h
Meets good bad (raise e, h) = bad e h

-- From calls of which `before` holds, the computation returns what is `good` or raises what is `bad`.
unfoldable pub Triple {ℓ} :
    {A : Type ℓ}
    → (Calls → Type 0)
    → Ask A
    → (A → Calls → Type 0)
    → (Trouble → Calls → Type 0)
    → Type 0
Triple before m good bad = (h : Calls) → before h → Meets good bad (m h)

then_do-Meets {ℓ κ} :
    {A : Type ℓ} {B : Type κ} (middle : A → Calls → Type 0) (good : B → Calls → Type 0)
    (bad : Trouble → Calls → Type 0) (f : A → Ask B)
    → ((a : A) → Triple (middle a) (f a) good bad)
    → (x : Result Trouble A × Calls) → Meets middle bad x
    → Meets good bad (then_do x f)
unfolding Triple
then_do-Meets middle good bad f k (ok a, h) held = k a h held
then_do-Meets middle good bad f k (raise e, h) held = held

pub Triple-bind {ℓ κ} :
    {A : Type ℓ} {B : Type κ} (before : Calls → Type 0) (middle : A → Calls → Type 0)
    (good : B → Calls → Type 0) (bad : Trouble → Calls → Type 0) (m : Ask A) (f : A → Ask B)
    → Triple before m middle bad
    → ((a : A) → Triple (middle a) (f a) good bad)
    → Triple before (m >>= f) good bad
unfolding Triple
Triple-bind before middle good bad m f first k h held =
    then_do-Meets middle good bad f k (m h) (first h held)

-- A step that keeps what held before it, before one that does.
pub Triple-then {ℓ κ} :
    {A : Type ℓ} {B : Type κ} (kept : Calls → Type 0) (bad : Trouble → Calls → Type 0) (m : Ask A)
    (f : A → Ask B)
    → Triple kept m (λ _. kept) bad
    → ((a : A) → Triple kept (f a) (λ _. kept) bad)
    → Triple kept (m >>= f) (λ _. kept) bad
Triple-then kept bad m f first k = Triple-bind kept (λ _. kept) (λ _. kept) bad m f first k

pub from_socket-Meets {ℓ} :
    {A : Type ℓ} (good : A → Calls → Type 0) (bad : Trouble → Calls → Type 0) (h : Calls)
    → ((a : A) → good a h)
    → ((x : SocketError) → bad (of_socket x) h)
    → (r : Result SocketError A) → Meets good bad (from_socket r, h)
from_socket-Meets good bad h fine failed (ok a) = fine a
from_socket-Meets good bad h fine failed (raise x) = failed x

module _ (net : Network) (before : Calls → Type 0) (bad : Trouble → Calls → Type 0) where
  pub Triple-act :
      (e : Call) (after : Calls → Type 0)
      → ((h : Calls) → before h → after (h ++ e ∷ []))
      → ((x : SocketError) (h : Calls) → before h → bad (of_socket x) (h ++ e ∷ []))
      → Triple before (act net e) (λ _. after) bad
  unfolding Triple
  Triple-act e after good failed h held =
      from_socket-Meets (λ _. after) bad (h ++ e ∷ []) (λ _. good h held) (λ x. failed x h held)
        (net.act h e)

  pub Triple-receive :
      (sock limit : ℕ) (after : Calls → Type 0)
      → ((h : Calls) → before h → after (h ++ received sock limit ∷ []))
      → ((x : SocketError) (h : Calls)
          → before h
          → bad (of_socket x) (h ++ received sock limit ∷ []))
      → Triple before (receive net sock limit) (λ _. after) bad
  unfolding Triple
  Triple-receive sock limit after good failed h held =
      from_socket-Meets (λ _. after) bad (h ++ received sock limit ∷ []) (λ _. good h held)
        (λ x. failed x h held) (net.recv h sock limit)

  pub Triple-clock :
      (after : ℕ → Calls → Type 0)
      → ((h : Calls) → before h → after (net.clock h) (h ++ clock_read ∷ []))
      → Triple before (read_clock net) after bad
  unfolding Triple
  Triple-clock after good h held = good h held

  pub Triple-hand :
      (e : Call) (after : ℕ → Calls → Type 0)
      → ((sock : ℕ) (h : Calls) → before h → after sock ((h ++ e ∷ []) ++ handed sock ∷ []))
      → ((x : SocketError) (h : Calls) → before h → bad (of_socket x) (h ++ e ∷ []))
      → Triple before (hand net e) after bad
  unfolding Triple
  Triple-hand e after good failed h held = step (net.hand h e)
    where
      step : (x : Result SocketError ℕ) → Meets after bad (after_hand x (h ++ e ∷ []))
      step (ok sock) = good sock h held
      step (raise x) = failed x h held

-- The body of a `with` leaves calls of which `inside` holds, and the closing restores `outside`.
pub Triple-with_socket {ℓ} :
    {A : Type ℓ} (net : Network) (sock : ℕ) (before outside inside : Calls → Type 0)
    (fair : Trouble → Type 0) (body : Ask A)
    → ((h : Calls) → inside h → outside (h ++ closed sock ∷ []))
    → ((x : SocketError) → fair (of_socket x))
    → Triple before body (λ _. inside) (λ e h. inside h × fair e)
    → Triple before (with_socket net sock body) (λ _. outside) (λ e h. outside h × fair e)
unfolding Triple
Triple-with_socket {A} net sock before outside inside fair body closes broken run h held =
    step (body h) (run h held)
  where
    shut :
        (r : Result Trouble A) (g : Calls)
        → Meets (λ _. inside) (λ e h. inside h × fair e) (r, g)
        → (c : Result SocketError (Unit {0}))
        → Meets (λ _. outside) (λ e h. outside h × fair e) (after_close r c, g ++ closed sock ∷ [])
    shut (ok a) g good (ok _) = closes g good
    shut (ok a) g good (raise x) = (closes g good, broken x)
    shut (raise e) g (good, excuse) (ok _) = (closes g good, excuse)
    shut (raise e) g (good, excuse) (raise x) = (closes g good, broken x)

    step :
        (x : Result Trouble A × Calls)
        → Meets (λ _. inside) (λ e h. inside h × fair e) x
        → Meets
            (λ _. outside)
            (λ e h. outside h × fair e)
            (after_close x.0 (net.act x.1 (closed sock)), x.1 ++ closed sock ∷ [])
    step (r, g) good = shut r g good (net.act g (closed sock))
