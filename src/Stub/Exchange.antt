-- ===== src/Stub/Exchange.antt =====
-- One question put to one server: `_ask`, `_over_udp`, `_over_tcp`, `_recv_exactly`, `_time_left` and
-- `_name_of` of src/ssrfguard/resolvers.py.
use ssrfguard.Base.{
  ℕ, zero, suc, ◌-◌, ◌+◌, ◌/◌, ◌%◌, ltb, leb, [], ◌∷◌, ◌++◌, Option, none, some, Text, length,
  Result, ok, raise, if◌then◌else◌,
}
use ssrfguard.Dns.Names.{
  WireError, malformed, wrong_question, server_failure, out_of_fuel, u16_at, decode_name,
}
use ssrfguard.Dns.Reply.{class_in, Answer, parse}
use ssrfguard.Stub.Network.{
  late, of_socket, of_wire, bad_server, socket_asked, dialled, joined, sent, timeout_set, Network,
  Ask, ◌>>=◌, ◌>>◌, settled, from_wire, read_clock, draw_txid, act, receive, hand, with_socket,
}
use ssrfguard.Stub.Config.{UdpResolver, family_of}

abbrev pub udp_read_limit : ℕ
udp_read_limit = 4096

abbrev pub tcp_read_limit : ℕ
tcp_read_limit = 65535

abbrev pub query_flags : ℕ
query_flags = 256

abbrev pub smaller : ℕ → ℕ → ℕ
smaller m n = if ltb n m then n else m

-- `_time_left`
abbrev pub time_left : Network → ℕ → Ask ℕ
time_left net until = read_clock net >>= λ now.
    settled (if leb until now then raise (of_socket late) else ok (until - now))

-- `sock.settimeout(_time_left(until, ...))`
abbrev pub limit_wait : Network → ℕ → ℕ → Ask (Unit {0})
limit_wait net sock until = time_left net until >>= λ left. act net (timeout_set sock left)

-- What a turn of the loop of `_recv_exactly` makes of a chunk.
abbrev pub unless_closed : Text → Ask Text → Ask Text
unless_closed [] rest = settled (raise (of_wire malformed))
unless_closed (b ∷ bs) rest = rest >>= λ more. settled (ok ((b ∷ bs) ++ more))

-- The loop of `_recv_exactly`, which has `missing` bytes to read.
unfoldable pub recv_missing : Network → ℕ → ℕ → ℕ → ℕ → Ask Text
recv_missing net sock until fuel zero = settled (ok [])
recv_missing net sock until zero (suc m) = settled (raise (of_wire out_of_fuel))
recv_missing net sock until (suc fuel) (suc m) = do
  limit_wait net sock until
  chunk ← receive net sock (suc m)
  unless_closed chunk (recv_missing net sock until fuel (suc m - length chunk))

-- `_recv_exactly`; every turn reads one byte or more.
abbrev pub recv_exactly : Network → ℕ → ℕ → ℕ → Ask Text
recv_exactly net sock count until = recv_missing net sock until count count

-- What a turn of the loop of `_over_udp` makes of a datagram.
abbrev pub unless_wrong : Result WireError Answer → Ask Answer → Ask Answer
unless_wrong (ok answer) again = settled (ok answer)
unless_wrong (raise wrong_question) again = again
unless_wrong (raise malformed) again = settled (raise (of_wire malformed))
unless_wrong (raise server_failure) again = settled (raise (of_wire server_failure))
unless_wrong (raise out_of_fuel) again = settled (raise (of_wire out_of_fuel))

-- The loop of `_over_udp`.
unfoldable pub wait_for : Network → ℕ → ℕ → ℕ → Text → ℕ → ℕ → Ask Answer
wait_for net sock ends txid name qtype zero = settled (raise (of_wire out_of_fuel))
wait_for net sock ends txid name qtype (suc fuel) = do
  limit_wait net sock ends
  message ← receive net sock udp_read_limit
  unless_wrong (parse message txid name qtype) (wait_for net sock ends txid name qtype fuel)

-- The body of the `with` of `_over_udp`; the clock ticks in every turn of the loop.
abbrev pub ask_datagram : Network → UdpResolver → Text → Text → ℕ → Text → ℕ → ℕ → ℕ → Ask Answer
ask_datagram net r server message txid name qtype ends sock = do
  act net (joined sock server r.nameserver_port)
  act net (sent sock message)
  wait_for net sock ends txid name qtype (suc r.attempt_timeout)

abbrev pub ask_family : Option ℕ → Ask ℕ
ask_family none = settled (raise bad_server)
ask_family (some family) = settled (ok family)

-- `_over_udp`
unfoldable pub over_udp : Network → UdpResolver → Text → Text → ℕ → Text → ℕ → ℕ → Ask Answer
over_udp net r server message txid name qtype until = do
  now ← read_clock net
  family ← ask_family (family_of net.names server)
  sock ← hand net (socket_asked family)
  with_socket net sock (
      ask_datagram net r server message txid name qtype (smaller until (now + r.attempt_timeout))
        sock)

-- `struct.pack("!H", n)`
abbrev pub packed : ℕ → Text
packed n = n / 256 ∷ (n % 256 ∷ [])

abbrev pub recv_reply : Network → ℕ → ℕ → ℕ → Ask Text
recv_reply net size until sock =
    if ltb tcp_read_limit size
    then settled (raise (of_wire malformed))
    else recv_exactly net sock size until

-- The body of the `with` of `_over_tcp`.
abbrev pub ask_stream : Network → Text → ℕ → Text → ℕ → ℕ → ℕ → Ask Answer
ask_stream net message txid name qtype until sock = do
  act net (sent sock (packed (length message) ++ message))
  prefix ← recv_exactly net sock 2 until
  reply ← recv_reply net (u16_at prefix 0) until sock
  settled (from_wire (parse reply txid name qtype))

abbrev pub refuse_truncated : Answer → Ask Answer
refuse_truncated answer =
    settled (if answer.truncated then raise (of_wire malformed) else ok answer)

-- `_over_tcp`
unfoldable pub over_tcp : Network → UdpResolver → Text → Text → ℕ → Text → ℕ → ℕ → Ask Answer
over_tcp net r server message txid name qtype until = do
  left ← time_left net until
  sock ← hand net (dialled server r.nameserver_port (smaller left r.attempt_timeout))
  answer ← with_socket net sock (ask_stream net message txid name qtype until sock)
  refuse_truncated answer

-- The query of `_ask`.
unfoldable pub query_message : ℕ → Text → ℕ → Text
query_message txid question qtype =
    packed txid
    ++ (packed query_flags
        ++ (packed 1
            ++ (packed 0
                ++ (packed 0 ++ (packed 0 ++ (question ++ (packed qtype ++ packed class_in)))))))

-- `_name_of`
unfoldable pub name_of : Text → Result WireError Text
name_of question = elim (decode_name question 0) [ ok (name, _) ↦ ok name | raise e ↦ raise e ]

abbrev pub if_truncated : Answer → Ask Answer → Ask Answer
if_truncated answer again = if answer.truncated then again else settled (ok answer)

-- `_ask` from the transaction id and the name on.
unfoldable pub ask_named : Network → UdpResolver → Text → Text → ℕ → Text → ℕ → ℕ → Ask Answer
ask_named net r server question txid name qtype deadline = do
  answer ← over_udp net r server (query_message txid question qtype) txid name qtype deadline
  if_truncated answer
      (over_tcp net r server (query_message txid question qtype) txid name qtype deadline)

-- `_ask`
unfoldable pub ask : Network → UdpResolver → Text → Text → ℕ → ℕ → Ask Answer
ask net r server question qtype deadline = do
  txid ← draw_txid net
  name ← settled (from_wire (name_of question))
  ask_named net r server question txid name qtype deadline
