-- ===== src/Connect/Traces.antt =====
-- The calls that one attempt of src/ssrfguard/_connect.py makes on the operating system.
use ssrfguard.Base.{
  ℕ, ◌≡◌, refl, ap, ◌∙◌, Bool, true, false, List, [], ◌∷◌, ◌++◌, Option, none, some, Text, All,
  All-append, Result, ok, raise, if◌then◌else◌,
}
use mathlib.Core.List.{append_assoc, append-nil}
use ssrfguard.Net.{IpAddress, ip_eq}
use ssrfguard.Net.Parse.{ip_address}
use ssrfguard.Errors.{Exception, an_ip, blocked_address, peer_moved, refused, value_error}
use ssrfguard.Observer.Decision.{Decision}
use ssrfguard.Observer.Report.{Observer}
use ssrfguard.Resolve.Defs.{Address, SockAddr}
use ssrfguard.Connect.Kernel.{
  SocketOption, Event, asked, opened, set_option, set_timeout, bound, connecting, asking_peer,
  closing, Trace, Kernel, World, Io, traced, after, ◌>>=◌, give, act, after_open, peer_name, tell,
}
use ssrfguard.Connect.Defs.{
  Settings, peer_decision, judge_peer, verify_peer, set_options, set_timeout_if, bind_if,
  options_of, prepare, or_close, open_to,
}

-- A computation that only adds calls of one kind.
unfoldable pub Keeps {ℓ} : {A : Type ℓ} → (Event → Type 0) → Io A → Type 0
Keeps P m = (w : World) → (seg : Trace) × ((m w).1.trace ≡ w.trace ++ seg) × All P seg

module _ (P : Event → Type 0) where
  Keeps-give {ℓ} : {A : Type ℓ} (r : Result Exception A) → Keeps P (give r)
  unfolding Keeps
  Keeps-give r w = ([], simp append-nil, tt)

  Keeps-act : (k : Kernel) (e : Event) → P e → Keeps P (act k e)
  unfolding Keeps
  Keeps-act k e h w = (e ∷ [], refl, (h, tt))

  Keeps-tell : (observer : Option Observer) (d : Decision) → Keeps P (tell observer d)
  unfolding Keeps
  Keeps-tell observer d w = ([], simp append-nil, tt)

  after-Keeps {ℓ κ} :
      {A : Type ℓ} {B : Type κ} (x : Result Exception A × World) (f : A → Io B) (trace seg : Trace)
      → ((a : A) → Keeps P (f a))
      → x.1.trace ≡ trace ++ seg
      → All P seg
      → (more : Trace) × ((after x f).1.trace ≡ trace ++ more) × All P more
  unfolding Keeps
  after-Keeps (ok a, w) f trace seg k h all =
      let (rest, e, later) = k a w in
      (
        seg ++ rest,
        e ∙ ap (λ t. t ++ rest) h ∙ append_assoc trace seg rest,
        All-append P seg rest all later,
      )
  after-Keeps (raise e, w) f trace seg k h all = (seg, h, all)

  Keeps-bind {ℓ κ} :
      {A : Type ℓ} {B : Type κ} (m : Io A) (f : A → Io B)
      → Keeps P m
      → ((a : A) → Keeps P (f a))
      → Keeps P (m >>= f)
  unfolding Keeps
  Keeps-bind m f h k w = let (seg, e, all) = h w in after-Keeps (m w) f w.trace seg k e all

-- A call between the opening of a socket and its end: on that socket, and if it connects it
-- connects to that socket address.
abbrev pub IsInner : ℕ → SockAddr → Event → Type 0
IsInner sock target (asked _) = ⊥
IsInner sock target (opened _) = ⊥
IsInner sock target (set_option s _) = s ≡ sock
IsInner sock target (set_timeout s _) = s ≡ sock
IsInner sock target (bound s _) = s ≡ sock
IsInner sock target (connecting s to) = (s ≡ sock) × (to ≡ target)
IsInner sock target (asking_peer s) = s ≡ sock
IsInner sock target (closing _) = ⊥

module _ (k : Kernel) (sock : ℕ) (target : SockAddr) where
  pub set_options-Keeps :
      (options : List SocketOption) → Keeps (IsInner sock target) (set_options k sock options)
  set_options-Keeps [] = Keeps-give (IsInner sock target) (ok tt)
  set_options-Keeps (o ∷ more) =
      Keeps-bind (IsInner sock target) (act k (set_option sock o)) (λ _. set_options k sock more)
        (Keeps-act (IsInner sock target) k (set_option sock o) refl) (λ _. set_options-Keeps more)

  pub set_timeout_if-Keeps : (t : Option ℕ) → Keeps (IsInner sock target) (set_timeout_if k sock t)
  set_timeout_if-Keeps none = Keeps-give (IsInner sock target) (ok tt)
  set_timeout_if-Keeps (some t) = Keeps-act (IsInner sock target) k (set_timeout sock t) refl

  pub bind_if-Keeps :
      (source : Option (Text × ℕ)) → Keeps (IsInner sock target) (bind_if k sock source)
  bind_if-Keeps none = Keeps-give (IsInner sock target) (ok tt)
  bind_if-Keeps (some source) = Keeps-act (IsInner sock target) k (bound sock source) refl

Keeps-if {ℓ} :
    {A : Type ℓ} (P : Event → Type 0) (b : Bool) (m n : Io A)
    → Keeps P m
    → Keeps P n
    → Keeps P (if b then m else n)
Keeps-if P true m n h k = h
Keeps-if P false m n h k = k

pub judge_peer-Keeps :
    (P : Event → Type 0) (a : Address) (observer : Option Observer) (o : Option IpAddress)
    → Keeps P (judge_peer a observer o)
judge_peer-Keeps P a observer none = Keeps-give P (raise value_error)
judge_peer-Keeps P a observer (some peer) =
    Keeps-if P (ip_eq peer a.ip) _ _ (Keeps-tell P observer (peer_decision a peer none)) (
      Keeps-bind P (tell observer (peer_decision a peer (some (peer_moved peer a.ip)))) _
        (Keeps-tell P observer (peer_decision a peer (some (peer_moved peer a.ip))))
        (λ _. Keeps-give P (raise (refused (blocked_address (an_ip peer) (peer_moved peer a.ip))))))

verify_peer-Keeps :
    (k : Kernel) (sock : ℕ) (target : SockAddr) (a : Address) (observer : Option Observer)
    → Keeps (IsInner sock target) (verify_peer k sock a observer)
unfolding Keeps
verify_peer-Keeps k sock target a observer =
    Keeps-bind (IsInner sock target) (peer_name k sock)
      (λ text. judge_peer a observer (ip_address text))
      (λ w. (asking_peer sock ∷ [], refl, (refl, tt)))
      (λ text. judge_peer-Keeps (IsInner sock target) a observer (ip_address text))

pub prepare-Keeps :
    (k : Kernel) (s : Settings) (sock : ℕ) (a : Address)
    → Keeps (IsInner sock a.sockaddr) (prepare k s sock a)
unfolding prepare
prepare-Keeps k s sock a =
    let P = IsInner sock a.sockaddr in
    Keeps-bind P (set_options k sock (options_of s.socket_options)) _
      (set_options-Keeps k sock a.sockaddr (options_of s.socket_options))
      (λ _.
        Keeps-bind P (set_timeout_if k sock s.timeout) _
          (set_timeout_if-Keeps k sock a.sockaddr s.timeout)
          (λ _.
            Keeps-bind P (bind_if k sock s.source_address) _
              (bind_if-Keeps k sock a.sockaddr s.source_address)
              (λ _.
                Keeps-bind P (act k (connecting sock a.sockaddr)) _
                  (Keeps-act P k (connecting sock a.sockaddr) (refl, refl))
                  (λ _. verify_peer-Keeps k sock a.sockaddr a s.observer))))

-- The calls of one attempt at an address, by the socket that it leaves open.
pub data IsAttempt (a : Address) (left : Option ℕ) (seg : Trace) : Type 0 where
  not_opened : left ≡ none → seg ≡ asked a.family ∷ [] → IsAttempt a left seg
  left_open :
      (sock : ℕ) (inner : Trace)
      → left ≡ some sock
      → All (IsInner sock a.sockaddr) inner
      → seg ≡ asked a.family ∷ (opened sock ∷ inner)
      → IsAttempt a left seg
  closed :
      (sock : ℕ) (inner : Trace)
      → left ≡ none
      → All (IsInner sock a.sockaddr) inner
      → seg ≡ asked a.family ∷ (opened sock ∷ (inner ++ closing sock ∷ []))
      → IsAttempt a left seg

abbrev pub socket_of {ℓ} : {E : Type ℓ} → Result E ℕ → Option ℕ
socket_of (ok sock) = some sock
socket_of (raise _) = none

after-raise :
    (r : Result Exception (Unit {0})) (w : World) (e : Exception)
    → ((after {B = ℕ} (r, w) (λ _. give (raise e))).1 ≡ w)
      × (socket_of (after {B = ℕ} (r, w) (λ _. give (raise e))).0 ≡ none)
after-raise (ok tt) w e = (refl, refl)
after-raise (raise f) w e = (refl, refl)

or_close-IsAttempt :
    (k : Kernel) (a : Address) (sock : ℕ) (x : Result Exception (Unit {0}) × World)
    (trace inner : Trace)
    → x.1.trace ≡ (trace ++ asked a.family ∷ (opened sock ∷ [])) ++ inner
    → All (IsInner sock a.sockaddr) inner
    → (seg : Trace) × ((or_close k sock x).1.trace ≡ trace ++ seg)
      × IsAttempt a (socket_of (or_close k sock x).0) seg
or_close-IsAttempt k a sock (ok tt, w) trace inner h all = (
  asked a.family ∷ (opened sock ∷ inner),
  h ∙ append_assoc trace _ inner,
  left_open sock inner refl all refl,
)
or_close-IsAttempt k a sock (raise e, w) trace inner h all =
    let (same, none_left) =
      after-raise (k.act w.trace (closing sock)) (traced w (closing sock)) e in
    (
      asked a.family ∷ (opened sock ∷ (inner ++ closing sock ∷ [])),
      ap (λ v. v.trace) same ∙ ap (λ t. t ++ closing sock ∷ []) h ∙ simp append_assoc,
      closed sock inner none_left all refl,
    )

-- An attempt from the answer of `socket.socket` on.
attempt_of : Kernel → Settings → Address → World → Result Exception ℕ → Result Exception ℕ × World
attempt_of k s a w r =
    after (after_open r (traced w (asked a.family)))
      (λ sock v. or_close k sock (prepare k s sock a v))

attempt_of-IsAttempt :
    (k : Kernel) (s : Settings) (a : Address) (w : World) (r : Result Exception ℕ)
    → (seg : Trace) × ((attempt_of k s a w r).1.trace ≡ w.trace ++ seg)
      × IsAttempt a (socket_of (attempt_of k s a w r).0) seg
unfolding attempt_of Keeps
attempt_of-IsAttempt k s a w (raise e) = (asked a.family ∷ [], refl, not_opened refl refl)
attempt_of-IsAttempt k s a w (ok sock) =
    let v = traced (traced w (asked a.family)) (opened sock) in
    let (inner, h, all) = prepare-Keeps k s sock a v in
    or_close-IsAttempt k a sock (prepare k s sock a v) w.trace inner (h ∙ simp append_assoc) all

pub open_to-IsAttempt :
    (k : Kernel) (s : Settings) (a : Address) (w : World)
    → (seg : Trace) × ((open_to k s a w).1.trace ≡ w.trace ++ seg)
      × IsAttempt a (socket_of (open_to k s a w).0) seg
unfolding open_to attempt_of
open_to-IsAttempt k s a w = attempt_of-IsAttempt k s a w (k.socket w.trace a.family)
