-- ===== src/Connect/Peer.antt =====
-- One attempt of src/ssrfguard/_connect.py: its socket is connected, and its peer checked.
use ssrfguard.Base.{
  ℕ, ◌≡◌, refl, sym, ap, subst, ◌∙◌, inl, inr, true, [], ◌∷◌, ◌++◌, Option, none, some, Text, all,
  All, Result, ok, raise, Bool-cases,
}
use mathlib.Core.List.{append_assoc, append-nil}
use ssrfguard.Net.{IpAddress, ip_eq}
use ssrfguard.Net.Parse.{ip_address}
use ssrfguard.Errors.{Exception}
use ssrfguard.Observer.Report.{Observer}
use ssrfguard.Resolve.Defs.{Address}
use ssrfguard.Connect.Kernel.{
  Trace, Kernel, World, Io, after, ◌>>=◌, give, tell, act, socket, peer_name, connecting, closing,
  asking_peer, opened, asked, traced, after_open, Event,
}
use ssrfguard.Connect.Defs.{
  Settings, set_options, options_of, set_timeout_if, bind_if, judge_peer, verify_peer, prepare,
  or_close, open_to,
}
use ssrfguard.Connect.Traces.{
  Keeps, judge_peer-Keeps, IsInner, set_options-Keeps, set_timeout_if-Keeps, bind_if-Keeps,
}

pub after-ok :
    {A : Type 0} {B : Type 0} (x : Result Exception A × World) (f : A → Io B) {b : B}
    → (after x f).0 ≡ ok b
    → (a : A) × (x.0 ≡ ok a) × ((f a x.1).0 ≡ ok b)
after-ok (ok a, w) f h = (a, refl, h)
after-ok (raise e, w) f h = absurd (cc)

judge_peer-ok :
    (a : Address) (observer : Option Observer) (o : Option IpAddress) (w : World)
    → (judge_peer a observer o w).0 ≡ ok tt
    → (peer : IpAddress) × (o ≡ some peer) × (ip_eq peer a.ip ≡ true)
judge_peer-ok a observer none w h = absurd (cc)
judge_peer-ok a observer (some peer) w h = elim (Bool-cases (ip_eq peer a.ip)) [
  | inl e ↦ (peer, refl, e)
  | inr n ↦ let (u, x, y) = after-ok (tell observer _ w) _ (rw n at h) in absurd (cc y)
]

-- A computation that makes no call leaves the trace as it was.
judge_peer-trace :
    (a : Address) (observer : Option Observer) (o : Option IpAddress) (w : World)
    → (judge_peer a observer o w).1.trace ≡ w.trace
unfolding Keeps
judge_peer-trace a observer o w =
    let (seg, e, quiet) = judge_peer-Keeps (λ _. ⊥) a observer o w in
    e ∙ ap (λ t. w.trace ++ t) (none_of seg quiet) ∙ append-nil w.trace
  where
    none_of : (seg : Trace) → All (λ _. ⊥) seg → seg ≡ []
    none_of [] quiet = refl
    none_of (e ∷ more) (here, all) = absurd here

-- What holds of the calls before and after a computation that returns.
Ends {ℓ} : {A : Type ℓ} → (Trace → Trace → Type 0) → Io A → Type ℓ
Ends {A = A} Q m = (w : World) (b : A) → (m w).0 ≡ ok b → Q w.trace (m w).1.trace

module _ (Q : Trace → Trace → Type 0)
    (later : (before seg trace : Trace) → Q (before ++ seg) trace → Q before trace) where
  after-Ends :
      {A B : Type 0} (x : Result Exception A × World) (f : A → Io B) (before seg : Trace)
      → x.1.trace ≡ before ++ seg
      → ((a : A) → Ends Q (f a))
      → (b : B) → (after x f).0 ≡ ok b
      → Q before (after x f).1.trace
  unfolding Ends
  after-Ends (ok a, w) f before seg e k b h =
      later before seg (f a w).1.trace (subst (λ t. Q t (f a w).1.trace) e (k a w b h))
  after-Ends (raise e, w) f before seg same k b h = absurd (cc)

  Ends-bind :
      {A B : Type 0} (P : Event → Type 0) (m : Io A) (f : A → Io B)
      → Keeps P m
      → ((a : A) → Ends Q (f a))
      → Ends Q (m >>= f)
  unfolding Ends Keeps
  Ends-bind P m f keeps k w b h =
      let (seg, e, all) = keeps w in after-Ends (m w) f w.trace seg e k b h

-- How the calls that follow `before`, and end with all of `trace`, leave a socket: connecting it to
-- the address returned; then the operating system, asked for its peer, named the address that was
-- validated; and no call came after.
pub record IsVerified (k : Kernel) (sock : ℕ) (a : Address) (before trace : Trace) : Type 0 where
  pub earlier : Trace
  pub since : Trace
  pub begun : earlier ≡ before ++ since
  pub connects : k.act earlier (connecting sock a.sockaddr) ≡ ok tt
  pub text : Text
  pub peer : IpAddress
  pub named : k.peer_name (earlier ++ connecting sock a.sockaddr ∷ []) sock ≡ ok text
  pub parsed : ip_address text ≡ some peer
  pub same : ip_eq peer a.ip ≡ true
  pub last : trace ≡ (earlier ++ connecting sock a.sockaddr ∷ []) ++ asking_peer sock ∷ []

-- A run that begins after the calls `before` and ends with all of `trace` opens a socket and leaves it
-- connected to the address, by the operating system's own account.
pub record IsPeer (k : Kernel) (before trace : Trace) (sock : ℕ) (a : Address) : Type 0 where
  pub until_opened : Trace
  pub verified : IsVerified k sock a ((before ++ until_opened) ++ opened sock ∷ []) trace

pub IsPeer-later :
    (k : Kernel) (before seg trace : Trace) (sock : ℕ) (a : Address)
    → IsPeer k (before ++ seg) trace sock a
    → IsPeer k before trace sock a
IsPeer-later k before seg trace sock a p = record {
  until_opened = seg ++ p.until_opened;
  verified =
      subst (λ t. IsVerified k sock a (t ++ opened sock ∷ []) trace)
        (append_assoc before seg p.until_opened) p.verified;
}

pub IsVerified-later :
    (k : Kernel) (sock : ℕ) (a : Address) (before seg trace : Trace)
    → IsVerified k sock a (before ++ seg) trace
    → IsVerified k sock a before trace
IsVerified-later k sock a before seg trace p = record {
  earlier = p.earlier;
  since = seg ++ p.since;
  begun = p.begun ∙ append_assoc before seg p.since;
  connects = p.connects;
  text = p.text;
  peer = p.peer;
  named = p.named;
  parsed = p.parsed;
  same = p.same;
  last = p.last;
}

connect_and_verify-IsVerified :
    (k : Kernel) (s : Settings) (sock : ℕ) (a : Address)
    → Ends
        (IsVerified k sock a)
        (act k (connecting sock a.sockaddr) >>= λ _. verify_peer k sock a s.observer)
unfolding Ends
connect_and_verify-IsVerified k s sock a w u h =
    let c = connecting sock a.sockaddr in
    let (_, connects, h1) = after-ok (act k c w) (λ _. verify_peer k sock a s.observer) h in
    let v = traced w c in
    let (text, named, h2) =
      after-ok (peer_name k sock v) (λ text. judge_peer a s.observer (ip_address text)) h1 in
    let asked_of = traced v (asking_peer sock) in
    let (peer, parsed, same) = judge_peer-ok a s.observer (ip_address text) asked_of h2 in
    record {
      earlier = w.trace;
      since = [];
      begun = sym (append-nil w.trace);
      connects = connects;
      text = text;
      peer = peer;
      named = named;
      parsed = parsed;
      same = same;
      last = rw (connects, named) (judge_peer-trace a s.observer (ip_address text) asked_of);
    }

prepare-IsVerified :
    (k : Kernel) (s : Settings) (sock : ℕ) (a : Address)
    → Ends (IsVerified k sock a) (prepare k s sock a)
unfolding prepare
prepare-IsVerified k s sock a =
    let Q = IsVerified k sock a in
    let later = IsVerified-later k sock a in
    let P = IsInner sock a.sockaddr in
    Ends-bind Q later P (set_options k sock (options_of s.socket_options)) _
      (set_options-Keeps k sock a.sockaddr (options_of s.socket_options))
      (λ _.
        Ends-bind Q later P (set_timeout_if k sock s.timeout) _
          (set_timeout_if-Keeps k sock a.sockaddr s.timeout)
          (λ _.
            Ends-bind Q later P (bind_if k sock s.source_address) _
              (bind_if-Keeps k sock a.sockaddr s.source_address)
              (λ _. connect_and_verify-IsVerified k s sock a)))

or_close-ok :
    (k : Kernel) (sock : ℕ) (x : Result Exception (Unit {0}) × World) {n : ℕ}
    → (or_close k sock x).0 ≡ ok n
    → (n ≡ sock) × (x.0 ≡ ok tt)
or_close-ok k sock (ok tt, w) h = (cc, refl)
or_close-ok k sock (raise e, w) h =
    let (u, x, y) = after-ok (act k (closing sock) w) (λ _. give (raise e)) h in absurd (cc y)

after_open-trace :
    (r : Result Exception ℕ) (w : World) (sock : ℕ)
    → (after_open r w).0 ≡ ok sock
    → (after_open r w).1.trace ≡ w.trace ++ opened sock ∷ []
after_open-trace (ok n) w sock h = let same : n ≡ sock = cc in rw same refl
after_open-trace (raise e) w sock h = absurd (cc)

pub after-next :
    {A : Type 0} {B : Type 0} (x : Result Exception A × World) (f : A → Io B) (a : A)
    → x.0 ≡ ok a
    → after x f ≡ f a x.1
after-next (ok b, w) f a h = let same : b ≡ a = cc in rw same refl
after-next (raise e, w) f a h = absurd (cc)

or_close-trace :
    (k : Kernel) (sock : ℕ) (x : Result Exception (Unit {0}) × World)
    → x.0 ≡ ok tt
    → (or_close k sock x).1 ≡ x.1
or_close-trace k sock (ok tt, w) h = refl
or_close-trace k sock (raise e, w) h = absurd (cc)

pub open_to-IsPeer :
    (k : Kernel) (s : Settings) (a : Address) (w : World) (n : ℕ)
    → (open_to k s a w).0 ≡ ok n
    → IsPeer k w.trace (open_to k s a w).1.trace n a
unfolding open_to Ends
open_to-IsPeer k s a w n h =
    let first = traced w (asked a.family) in
    let opening = socket k a.family w in
    let (sock, e, h') = after-ok opening (λ sock v. or_close k sock (prepare k s sock a v)) h in
    let done = prepare k s sock a opening.1 in
    let (same, ready) = or_close-ok k sock done h' in
    let ends : (open_to k s a w).1.trace ≡ done.1.trace =
      ap (λ x. x.1.trace)
        (after-next opening (λ sock v. or_close k sock (prepare k s sock a v)) sock e)
      ∙ ap (λ v. v.trace) (or_close-trace k sock done ready) in
    subst (λ m. IsPeer k w.trace (open_to k s a w).1.trace m a) (sym same)
      (record {
        until_opened = asked a.family ∷ [];
        verified =
            subst (λ t. IsVerified k sock a t (open_to k s a w).1.trace)
              (after_open-trace (k.socket w.trace a.family) first sock e)
              (subst (IsVerified k sock a opening.1.trace) (sym ends)
                (prepare-IsVerified k s sock a opening.1 tt ready));
      })
