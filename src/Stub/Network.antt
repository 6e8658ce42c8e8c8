-- ===== src/Stub/Network.antt =====
-- What src/ssrfguard/resolvers.py calls of Python's `socket`, `time` and `secrets`: a parameter that
-- answers each call from the calls made so far, and the state that a computation passes on. Times
-- are whole numbers of clock ticks.
use ssrfguard.Base.{ℕ, List, [], ◌∷◌, ◌++◌, Text, Result, ok, raise}
use ssrfguard.Net.{IpAddress}
use ssrfguard.Dns.Names.{WireError}

-- `TimeoutError`, and any other `OSError`.
pub data SocketError : Type 0 where
  late broken : SocketError

-- What asking one server can raise; `bad_server` is the `ValueError` of `_family_of`.
pub data Trouble : Type 0 where
  of_socket : SocketError → Trouble
  of_wire : WireError → Trouble
  bad_server : Trouble

-- A call. A socket is a number; `handed` is the return of `socket.socket` or `create_connection`.
pub data Call : Type 0 where
  clock_read txid_drawn : Call
  socket_asked : ℕ → Call
  dialled : Text → ℕ → ℕ → Call
  handed : ℕ → Call
  joined : ℕ → Text → ℕ → Call
  sent : ℕ → Text → Call
  timeout_set : ℕ → ℕ → Call
  received : ℕ → ℕ → Call
  closed : ℕ → Call

abbrev pub Calls : Type 0
Calls = List Call

-- The numbers that `socket` names, and `str` of an address.
pub record Names : Type 0 where
  pub af_inet : ℕ
  pub af_inet6 : ℕ
  pub sock_stream : ℕ
  pub sock_dgram : ℕ
  pub ipproto_tcp : ℕ
  pub ipproto_udp : ℕ
  pub str_of : IpAddress → Text

-- `time.monotonic`, `secrets.randbits(16)`, the two ways to get a socket, and its methods.
pub record Network : Type 0 where
  pub names : Names
  pub clock : Calls → ℕ
  pub txid : Calls → ℕ
  pub hand : Calls → Call → Result SocketError ℕ
  pub act : Calls → Call → Result SocketError (Unit {0})
  pub recv : Calls → ℕ → ℕ → Result SocketError Text

abbrev pub Ask {ℓ} : Type ℓ → Type ℓ
Ask A = Calls → Result Trouble A × Calls

abbrev pub then_do {ℓ κ} :
    {A : Type ℓ} {B : Type κ} → Result Trouble A × Calls → (A → Ask B) → Result Trouble B × Calls
then_do (ok a, h) f = f a h
then_do (raise e, h) f = (raise e, h)

infixl 5 ◌>>=◌ ◌>>◌
abbrev pub ◌>>=◌ {ℓ κ} : {A : Type ℓ} {B : Type κ} → Ask A → (A → Ask B) → Ask B
(m >>= f) h = then_do (m h) f

abbrev pub ◌>>◌ {κ} : {B : Type κ} → Ask (Unit {0}) → Ask B → Ask B
m >> k = m >>= λ _. k

abbrev pub settled {ℓ} : {A : Type ℓ} → Result Trouble A → Ask A
settled r h = (r, h)

abbrev pub from_socket {ℓ} : {A : Type ℓ} → Result SocketError A → Result Trouble A
from_socket (ok a) = ok a
from_socket (raise e) = raise (of_socket e)

abbrev pub from_wire {ℓ} : {A : Type ℓ} → Result WireError A → Result Trouble A
from_wire (ok a) = ok a
from_wire (raise e) = raise (of_wire e)

-- `time.monotonic()`
abbrev pub read_clock : Network → Ask ℕ
read_clock net h = (ok (net.clock h), h ++ clock_read ∷ [])

-- `secrets.randbits(16)`
abbrev pub draw_txid : Network → Ask ℕ
draw_txid net h = (ok (net.txid h), h ++ txid_drawn ∷ [])

-- `connect`, `send`, `sendall`, `settimeout` and `close`
abbrev pub act : Network → Call → Ask (Unit {0})
act net e h = (from_socket (net.act h e), h ++ e ∷ [])

-- `recv`
abbrev pub receive : Network → ℕ → ℕ → Ask Text
receive net sock limit h = (from_socket (net.recv h sock limit), h ++ received sock limit ∷ [])

abbrev pub after_hand : Result SocketError ℕ → Ask ℕ
after_hand (ok sock) h = (ok sock, h ++ handed sock ∷ [])
after_hand (raise e) h = (raise (of_socket e), h)

-- `socket.socket` and `socket.create_connection`
abbrev pub hand : Network → Call → Ask ℕ
hand net e h = after_hand (net.hand h e) (h ++ e ∷ [])

abbrev pub after_close {ℓ} :
    {A : Type ℓ} → Result Trouble A → Result SocketError (Unit {0}) → Result Trouble A
after_close r (ok _) = r
after_close r (raise e) = raise (of_socket e)

abbrev pub close_with {ℓ} :
    {A : Type ℓ} → Network → ℕ → Result Trouble A × Calls → Result Trouble A × Calls
close_with net sock (r, h) = (after_close r (net.act h (closed sock)), h ++ closed sock ∷ [])

-- `with ... as sock:`, which closes the socket however its body ends
abbrev pub with_socket {ℓ} : {A : Type ℓ} → Network → ℕ → Ask A → Ask A
with_socket net sock body h = close_with net sock (body h)
