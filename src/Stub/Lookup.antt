-- ===== src/Stub/Lookup.antt =====
-- A call of `UdpResolver` of src/ssrfguard/resolvers.py: `__call__`, `records`, `_lookup`, `_query`,
-- `_give_up` and `_row`.
use ssrfguard.Base.{
  ℕ, zero, suc, ◌+◌, Bool, true, false, not, ◌||◌, ◌==◌, leb, List, [], ◌∷◌, ◌++◌, none, some, Text,
  map, Result, ok, raise, if◌then◌else◌,
}
use ssrfguard.Net.{IpAddress, v4, v6}
use ssrfguard.Resolve.Defs.{SockAddr, ResolverAnswer}
use ssrfguard.Dns.Names.{malformed, wrong_question, server_failure, out_of_fuel, encode_name}
use ssrfguard.Dns.Reply.{type_a, type_aaaa, Record}
use ssrfguard.Stub.Network.{
  Trouble, of_socket, of_wire, bad_server, clock_read, Calls, Names, Network,
}
use ssrfguard.Stub.Config.{UdpResolver, an_address, a_name, not_numeric, literal}
use ssrfguard.Stub.Exchange.{ask}

-- What an attempt did instead of answering.
pub data Failing : Type 0 where
  deadline_passed : Failing
  failed_with : Trouble → Failing

abbrev pub Failed : Type 0
Failed = List (Text × Failing)

-- What a call raises: a `gaierror` of four kinds, or what no handler of `_query` catches.
pub data Unresolved : Type 0 where
  unusable_name needs_literal no_records : Text → Unresolved
  gave_up : Text → ℕ → Failed → Unresolved
  escaped : Trouble → Unresolved

-- Whether `_query` catches it.
abbrev pub is_caught : Trouble → Bool
is_caught (of_socket _) = true
is_caught (of_wire malformed) = true
is_caught (of_wire server_failure) = true
is_caught (of_wire wrong_question) = false
is_caught (of_wire out_of_fuel) = false
is_caught bad_server = false

-- How the attempts at one server, or at all of them, end.
pub data Ending : Type 0 where
  answered : List Record → Ending
  stopped : Failed → Ending
  unanswered : Failed → Ending
  broke_off : Trouble → Ending

-- The inner loop of `_query`, over the attempts left at one server.
unfoldable pub try_server :
    Network → UdpResolver → Text → ℕ → ℕ → Text → ℕ → Failed → Calls → Ending × Calls
try_server net r question qtype deadline server zero failures h = (unanswered failures, h)
try_server net r question qtype deadline server (suc n) failures h =
    if leb deadline (net.clock h)
    then (stopped (failures ++ (server, deadline_passed) ∷ []), h ++ clock_read ∷ [])
    else let (result, h') = ask net r server question qtype deadline (h ++ clock_read ∷ []) in
      elim result [
        | ok answer ↦ (answered answer.records, h')
        | raise e ↦
            let again =
              try_server net r question qtype deadline server n
                (failures ++ (server, failed_with e) ∷ []) h' in
            if is_caught e then again else (broke_off e, h')
      ]

-- The outer loop of `_query`, over the servers.
unfoldable pub try_servers :
    Network → UdpResolver → Text → ℕ → ℕ → List Text → Failed → Calls → Ending × Calls
try_servers net r question qtype deadline [] failures h = (unanswered failures, h)
try_servers net r question qtype deadline (server ∷ more) failures h =
    let (ending, h') = try_server net r question qtype deadline server r.attempts failures h in
    elim ending [
      | answered records ↦ (answered records, h')
      | stopped all ↦ (stopped all, h')
      | unanswered all ↦ try_servers net r question qtype deadline more all h'
      | broke_off e ↦ (broke_off e, h')
    ]

-- What `_query` makes of the loops' end, with `_give_up`.
abbrev pub concluded : Text → ℕ → Ending → Result Unresolved (List Record)
concluded host qtype (answered records) = ok records
concluded host qtype (stopped failures) = raise (gave_up host qtype failures)
concluded host qtype (unanswered failures) = raise (gave_up host qtype failures)
concluded host qtype (broke_off e) = raise (escaped e)

-- `_query`
unfoldable pub query :
    Network → UdpResolver → Text → Text → ℕ → ℕ → Calls → Result Unresolved (List Record) × Calls
query net r host question qtype deadline h =
    let (ending, h') = try_servers net r question qtype deadline r.nameservers [] h in
    (concluded host qtype ending, h')

abbrev pub qtype_of : Names → ℕ → ℕ
qtype_of names family = if family == names.af_inet6 then type_aaaa else type_a

-- Appending what one family gave to what the later ones give.
abbrev pub joined_with :
    List Record → Result Unresolved (List Record) × Calls → Result Unresolved (List Record) × Calls
joined_with records (ok more, h) = (ok (records ++ more), h)
joined_with records (raise e, h) = (raise e, h)

-- The loop of `_lookup` over the configured families; `family` is the one asked for, or 0.
unfoldable pub ask_families :
    Network
    → UdpResolver
    → Text
    → Text
    → ℕ
    → ℕ
    → List ℕ
    → Calls
    → Result Unresolved (List Record) × Calls
ask_families net r host question family deadline [] h = (ok [], h)
ask_families net r host question family deadline (wanted ∷ more) h =
    let skipped = ask_families net r host question family deadline more h in
    let (result, h') = query net r host question (qtype_of net.names wanted) deadline h in
    if not (family == 0 || family == wanted) then skipped else elim result [
      | raise e ↦ (raise e, h')
      | ok records ↦ joined_with records (ask_families net r host question family deadline more h')
    ]

-- `_lookup`
unfoldable pub lookup :
    Network → UdpResolver → Text → ℕ → ℕ → Calls → Result Unresolved (List Record) × Calls
lookup net r host family deadline h = elim (encode_name host) [
  | none ↦ (raise (unusable_name host), h)
  | some question ↦ ask_families net r host question family deadline r.families h
]

-- `records`
unfoldable pub records_of :
    Network → UdpResolver → Text → ℕ → Calls → Result Unresolved (List Record) × Calls
records_of net r host family h =
    lookup net r host family (net.clock h + r.timeout) (h ++ clock_read ∷ [])

-- `a or b` on numbers
abbrev pub or_number : ℕ → ℕ → ℕ
or_number zero n = n
or_number (suc m) n = suc m

abbrev pub proto_of : Names → ℕ → ℕ → ℕ
proto_of names kind proto =
    or_number proto (if kind == names.sock_dgram then names.ipproto_udp else names.ipproto_tcp)

abbrev pub sockaddr_of : Names → IpAddress → ℕ → SockAddr
sockaddr_of names (v4 n) port = record { host = names.str_of (v4 n); port = port; rest = [] }
sockaddr_of names (v6 n zone) port = record {
  host = names.str_of (v6 n zone);
  port = port;
  rest = 0 ∷ (0 ∷ []);
}

abbrev pub ip_family : Names → IpAddress → ℕ
ip_family names (v4 _) = names.af_inet
ip_family names (v6 _ _) = names.af_inet6

-- `_row`
unfoldable pub row_of : Names → ℕ → ℕ → ℕ → IpAddress → ResolverAnswer
row_of names port socktype proto ip =
    let kind = or_number socktype names.sock_stream in
    record {
      family = ip_family names ip;
      socktype = kind;
      proto = proto_of names kind proto;
      canonname = [];
      sockaddr = sockaddr_of names ip port;
    }

-- The arguments of `__call__`; of its flags it reads `AI_NUMERICHOST`.
pub record Request : Type 0 where
  pub host : Text
  pub port : ℕ
  pub family : ℕ
  pub socktype : ℕ
  pub proto : ℕ
  pub numeric : Bool

-- The rows of the records that a lookup gave.
abbrev pub rows_of :
    Names → Request → Result Unresolved (List Record) → Result Unresolved (List ResolverAnswer)
rows_of names q (raise e) = raise e
rows_of names q (ok []) = raise (no_records q.host)
rows_of names q (ok (r ∷ more)) =
    ok (map (λ x. row_of names q.port q.socktype q.proto x.ip) (r ∷ more))

-- `UdpResolver.__call__`
unfoldable pub call :
    Network → UdpResolver → Request → Calls → Result Unresolved (List ResolverAnswer) × Calls
call net r q h =
    let deadline = net.clock h + r.timeout in
    let looked = lookup net r q.host q.family deadline (h ++ clock_read ∷ []) in
    elim (literal q.host q.numeric) [
      | an_address ip ↦
          (ok (row_of net.names q.port q.socktype q.proto ip ∷ []), h ++ clock_read ∷ [])
      | not_numeric ↦ (raise (needs_literal q.host), h ++ clock_read ∷ [])
      | a_name ↦ (rows_of net.names q looked.0, looked.1)
    ]
