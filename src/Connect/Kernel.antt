-- ===== src/Connect/Kernel.antt =====
-- The operating system's sockets, which src/ssrfguard/_connect.py calls: a parameter that answers
-- each call from the calls made so far, and the state that a computation passes on.
use ssrfguard.Base.{ℕ, List, [], ◌∷◌, ◌++◌, Option, Text, Result, ok, raise}
use ssrfguard.Errors.{Exception}
use ssrfguard.Observer.Decision.{Decision}
use ssrfguard.Observer.Report.{Observer, Log, report}
use ssrfguard.Resolve.Defs.{SockAddr}

pub data OptionValue : Type 0 where
  an_int : ℕ → OptionValue
  some_bytes : List ℕ → OptionValue

-- `SocketOption`: the arguments of one `setsockopt` call.
pub data SocketOption : Type 0 where
  with_value : ℕ → ℕ → OptionValue → SocketOption
  with_length : ℕ → ℕ → ℕ → SocketOption

-- A call on a socket, which is a number. `asked` is the call of `socket.socket`, and `opened` its return.
pub data Event : Type 0 where
  asked : ℕ → Event
  opened : ℕ → Event
  set_option : ℕ → SocketOption → Event
  set_timeout : ℕ → ℕ → Event
  bound : ℕ → Text × ℕ → Event
  connecting : ℕ → SockAddr → Event
  asking_peer : ℕ → Event
  closing : ℕ → Event

abbrev pub Trace : Type 0
Trace = List Event

-- What the operating system does on a call, after the calls made so far.
pub record Kernel : Type 0 where
  pub socket : Trace → ℕ → Result Exception ℕ
  pub act : Trace → Event → Result Exception (Unit {0})
  pub peer_name : Trace → ℕ → Result Exception Text

-- The calls made so far and the records reported so far.
pub record World : Type 0 where
  pub trace : Trace
  pub log : Log

abbrev pub Io {ℓ} : Type ℓ → Type ℓ
Io A = World → Result Exception A × World

abbrev pub traced : World → Event → World
traced w e = record w { trace = w.trace ++ e ∷ [] }

abbrev pub after {ℓ κ} :
    {A : Type ℓ} {B : Type κ} → Result Exception A × World → (A → Io B) → Result Exception B × World
after (ok a, w) f = f a w
after (raise e, w) f = (raise e, w)

infixl 5 ◌>>=◌ ◌>>◌
abbrev pub ◌>>=◌ {ℓ κ} : {A : Type ℓ} {B : Type κ} → Io A → (A → Io B) → Io B
(m >>= f) w = after (m w) f

abbrev pub ◌>>◌ {κ} : {B : Type κ} → Io (Unit {0}) → Io B → Io B
m >> k = m >>= λ _. k

abbrev pub give {ℓ} : {A : Type ℓ} → Result Exception A → Io A
give r w = (r, w)

-- `sock.setsockopt`, `settimeout`, `bind`, `connect` and `close`
abbrev pub act : Kernel → Event → Io (Unit {0})
act k e w = (k.act w.trace e, traced w e)

abbrev pub after_open : Result Exception ℕ → World → Result Exception ℕ × World
after_open (ok sock) w = (ok sock, traced w (opened sock))
after_open (raise e) w = (raise e, w)

-- `socket.socket`
abbrev pub socket : Kernel → ℕ → Io ℕ
socket k family w = after_open (k.socket w.trace family) (traced w (asked family))

-- `sock.getpeername()[0]`
abbrev pub peer_name : Kernel → ℕ → Io Text
peer_name k sock w = (k.peer_name w.trace sock, traced w (asking_peer sock))

abbrev pub tell : Option Observer → Decision → Io (Unit {0})
tell observer d w = let (r, log) = report observer d w.log in (r, record w { log = log })
