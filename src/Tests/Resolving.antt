-- ===== src/Tests/Resolving.antt =====
-- A call of `UdpResolver` over a network that answers.
use ssrfguard.Base.{
  ℕ, zero, suc, ◌==◌, if◌then◌else◌, ◌+◌, ◌≡◌, refl, sym, subst, ap, inl, inr, Bool, true, false,
  List, [], ◌∷◌, ◌++◌, Option, none, some, Among, ok-injective, ◌∙◌, codes, Text, length, rstrip, ℤ,
  pos, Result, ok, raise, All,
}
use ssrfguard.Net.{IpAddress, v4}
use ssrfguard.Net.Parse.{ip_address}
use ssrfguard.Resolve.Defs.{ResolverAnswer, Resolver, Address, addresses_from}
use ssrfguard.Dns.Names.{wrong_question}
use ssrfguard.Dns.Reply.{Record}
use ssrfguard.Tests.Messages.{question, response, answer}
use ssrfguard.Stub.Network.{of_wire, clock_read, Names, Network}
use ssrfguard.Stub.Config.{
  ResolverArgs, UdpResolver, a_name, an_address, literal, resolver_of, new_resolver,
  nameservers_from_resolv_conf, check_fields, check_numbers,
}
use ssrfguard.Stub.Lookup.{Request, escaped, lookup, call}
use ssrfguard.Stub.Complete.{IsComplete, types_in_scope, lookup-IsComplete}
use ssrfguard.Stub.Rows.{IsSource, call-resolves}
use ssrfguard.Stub.Ready.{IsReady, new_resolver-IsReady}

abbrev names : Names
names = record {
  af_inet = 2;
  af_inet6 = 10;
  sock_stream = 1;
  sock_dgram = 2;
  ipproto_tcp = 6;
  ipproto_udp = 17;
  str_of = λ _. codes "1.2.3.4";
}

-- A tick for every call, and the response to the question for `a.bc` in every datagram.
abbrev net : Network
net = record {
  names = names;
  clock = λ h. length h;
  txid = λ _. 5;
  hand = λ _ _. ok 3;
  act = λ _ _. ok tt;
  recv = λ _ _ _. ok response;
}

abbrev args : ResolverArgs
args = record {
  nameservers = codes "9.9.9.9" ∷ [];
  timeout = pos 50;
  attempt_timeout = pos 20;
  attempts = pos 2;
  families = 2 ∷ [];
  nameserver_port = 53;
}

abbrev resolver : UdpResolver
resolver = resolver_of args

constructed : new_resolver names args ≡ ok resolver
unfolding new_resolver check_fields ip_address
constructed = refl

new_resolver-IsReady_example : IsReady names args resolver
new_resolver-IsReady_example = new_resolver-IsReady names args resolver constructed

abbrev lines : List (List Text)
lines =
    (codes "#" ∷ (codes "nameserver" ∷ []))
    ∷ ((codes "nameserver" ∷ (codes "resolver" ∷ []))
        ∷ ((codes "nameserver" ∷ (codes "9.9.9.9" ∷ [])) ∷ []))

read_lines : nameservers_from_resolv_conf lines ≡ some (codes "9.9.9.9" ∷ [])
unfolding nameservers_from_resolv_conf ssrfguard.Stub.Config.servers_of_lines
    ssrfguard.Stub.Config.servers_of_line ssrfguard.Base.text_eq ip_address
read_lines = refl

looked : (lookup net resolver (codes "a.bc.") 0 40 []).0 ≡ ok answer.records
unfolding lookup ssrfguard.Dns.Names.encode_name rstrip ssrfguard.Dns.Names.encode_labels
    ssrfguard.Base.split_on ssrfguard.Stub.Lookup.ask_families ssrfguard.Stub.Lookup.query
    ssrfguard.Stub.Lookup.try_servers ssrfguard.Stub.Lookup.try_server ssrfguard.Stub.Exchange.ask
    ssrfguard.Stub.Exchange.name_of ssrfguard.Dns.Names.decode_name ssrfguard.Dns.Names.decode_from
    ssrfguard.Dns.Names.turn ssrfguard.Dns.Names.read_label ssrfguard.Stub.Exchange.ask_named
    ssrfguard.Stub.Exchange.over_udp ssrfguard.Base.text_eq ssrfguard.Base.lower
    ssrfguard.Dns.Names.follow_pointer ssrfguard.Dns.Reply.address_from
    ssrfguard.Dns.Reply.check_question ssrfguard.Dns.Reply.parse ssrfguard.Dns.Reply.read_answer
    ssrfguard.Dns.Reply.read_record ssrfguard.Dns.Reply.read_rows ssrfguard.Dns.Reply.use_of
    ip_address ssrfguard.Stub.Config.family_of ssrfguard.Stub.Exchange.query_message
    ssrfguard.Stub.Exchange.wait_for
looked = refl

lookup-IsComplete_example :
    IsComplete net []
      (lookup net resolver (codes "a.bc.") 0 40 []).1
      (rstrip b'.' (codes "a.bc."))
      (types_in_scope names resolver 0)
      answer.records
lookup-IsComplete_example =
    lookup-IsComplete net resolver (codes "a.bc.") 0 40 [] answer.records looked

-- A network whose datagrams are truncated and whose streams answer another question, and a second
-- server: the lookup ends with the private exception, and the second server is not asked.
abbrev truncated_response : Text
truncated_response =
    0 ∷ (5 ∷ (0x83 ∷ (0x80 ∷ (0 ∷ (1 ∷ (0 ∷ (0 ∷ (0 ∷ (0 ∷ (0 ∷ (0 ∷ question)))))))))))

abbrev zeros : ℕ → Text
zeros zero = []
zeros (suc n) = 0 ∷ zeros n

abbrev stray_net : Network
stray_net = record net {
  recv = λ _ _ limit. ok (
      if limit == 4096 then truncated_response else if limit == 2 then 0 ∷ (12 ∷ []) else zeros 12);
}

abbrev two_servers : UdpResolver
two_servers = record resolver { nameservers = codes "9.9.9.9" ∷ (codes "8.8.8.8" ∷ []) }

strays :
    (lookup stray_net two_servers (codes "a.bc") 0 50 []).0
    ≡ raise (escaped (of_wire wrong_question))
unfolding lookup ssrfguard.Dns.Names.encode_name rstrip ssrfguard.Dns.Names.encode_labels
    ssrfguard.Base.split_on ssrfguard.Stub.Lookup.ask_families ssrfguard.Stub.Lookup.query
    ssrfguard.Stub.Lookup.try_servers ssrfguard.Stub.Lookup.try_server ssrfguard.Stub.Exchange.ask
    ssrfguard.Stub.Exchange.name_of ssrfguard.Dns.Names.decode_name ssrfguard.Dns.Names.decode_from
    ssrfguard.Dns.Names.turn ssrfguard.Dns.Names.read_label ssrfguard.Stub.Exchange.ask_named
    ssrfguard.Stub.Exchange.over_udp ssrfguard.Base.text_eq ssrfguard.Base.lower
    ssrfguard.Dns.Names.follow_pointer ssrfguard.Dns.Reply.address_from
    ssrfguard.Dns.Reply.check_question ssrfguard.Dns.Reply.parse ssrfguard.Dns.Reply.read_answer
    ssrfguard.Dns.Reply.read_record ssrfguard.Dns.Reply.read_rows ssrfguard.Dns.Reply.use_of
    ip_address ssrfguard.Stub.Config.family_of ssrfguard.Stub.Exchange.query_message
    ssrfguard.Stub.Exchange.wait_for ssrfguard.Stub.Exchange.over_tcp
    ssrfguard.Stub.Exchange.recv_missing
strays = refl

abbrev request : Request
request = record {
  host = codes "a.bc";
  port = 443;
  family = 0;
  socktype = 1;
  proto = 0;
  numeric = false;
}

abbrev row : ResolverAnswer
row = record {
  family = 2;
  socktype = 1;
  proto = 6;
  canonname = [];
  sockaddr = record { host = codes "1.2.3.4"; port = 443; rest = [] };
}

called : (call net resolver request []).0 ≡ ok (row ∷ [])
unfolding lookup ssrfguard.Dns.Names.encode_name rstrip ssrfguard.Dns.Names.encode_labels
    ssrfguard.Base.split_on ssrfguard.Stub.Lookup.ask_families ssrfguard.Stub.Lookup.query
    ssrfguard.Stub.Lookup.try_servers ssrfguard.Stub.Lookup.try_server ssrfguard.Stub.Exchange.ask
    ssrfguard.Stub.Exchange.name_of ssrfguard.Dns.Names.decode_name ssrfguard.Dns.Names.decode_from
    ssrfguard.Dns.Names.turn ssrfguard.Dns.Names.read_label ssrfguard.Stub.Exchange.ask_named
    ssrfguard.Stub.Exchange.over_udp ssrfguard.Base.text_eq ssrfguard.Base.lower
    ssrfguard.Dns.Names.follow_pointer ssrfguard.Dns.Reply.address_from
    ssrfguard.Dns.Reply.check_question ssrfguard.Dns.Reply.parse ssrfguard.Dns.Reply.read_answer
    ssrfguard.Dns.Reply.read_record ssrfguard.Dns.Reply.read_rows ssrfguard.Dns.Reply.use_of
    ip_address ssrfguard.Stub.Config.family_of ssrfguard.Stub.Exchange.query_message
    ssrfguard.Stub.Exchange.wait_for call ssrfguard.Stub.Config.literal
    ssrfguard.Stub.Config.lstrip_brackets ssrfguard.Stub.Config.rstrip_brackets
    ssrfguard.Stub.Lookup.row_of
called = refl

abbrev platform : Resolver
platform = record { lookup = λ _ _ _. ok []; is_family = λ _. true }

looked_later : (lookup net resolver (codes "a.bc") 0 50 (clock_read ∷ [])).0 ≡ ok answer.records
unfolding lookup ssrfguard.Dns.Names.encode_name rstrip ssrfguard.Dns.Names.encode_labels
    ssrfguard.Base.split_on ssrfguard.Stub.Lookup.ask_families ssrfguard.Stub.Lookup.query
    ssrfguard.Stub.Lookup.try_servers ssrfguard.Stub.Lookup.try_server ssrfguard.Stub.Exchange.ask
    ssrfguard.Stub.Exchange.name_of ssrfguard.Dns.Names.decode_name ssrfguard.Dns.Names.decode_from
    ssrfguard.Dns.Names.turn ssrfguard.Dns.Names.read_label ssrfguard.Stub.Exchange.ask_named
    ssrfguard.Stub.Exchange.over_udp ssrfguard.Base.text_eq ssrfguard.Base.lower
    ssrfguard.Dns.Names.follow_pointer ssrfguard.Dns.Reply.address_from
    ssrfguard.Dns.Reply.check_question ssrfguard.Dns.Reply.parse ssrfguard.Dns.Reply.read_answer
    ssrfguard.Dns.Reply.read_record ssrfguard.Dns.Reply.read_rows ssrfguard.Dns.Reply.use_of
    ip_address ssrfguard.Stub.Config.family_of ssrfguard.Stub.Exchange.query_message
    ssrfguard.Stub.Exchange.wait_for
looked_later = refl

not_literal : literal (codes "a.bc") false ≡ a_name
unfolding literal ssrfguard.Stub.Config.lstrip_brackets ssrfguard.Stub.Config.rstrip_brackets
    ip_address
not_literal = refl

only_record :
    (ip : IpAddress) (x : Record) → Among x answer.records → x.ip ≡ ip → v4 0x01020304 ≡ ip
only_record ip x (inl e) same = ap (λ y. y.ip) (sym e) ∙ same
only_record ip x (inr none_left) same = absurd (none_left tt)

read : ip_address (codes "1.2.3.4") ≡ some (v4 0x01020304)
unfolding ip_address
read = refl

source :
    (ip : IpAddress) → IsSource net resolver request [] ip → ip_address (codes "1.2.3.4") ≡ some ip
unfolding IsSource
source ip (inl host) = absurd (cc (sym not_literal ∙ host))
source ip (inr (records, given, x, among, same)) =
    let e = ok-injective (sym given ∙ looked_later) in
    read ∙ ap some (only_record ip x (subst (Among x) e among) same)

call-resolves_example :
    (answers : List Address) × (addresses_from platform (row ∷ []) (codes "a.bc") ≡ ok answers)
    × All (λ a. IsSource net resolver request [] a.ip) answers
call-resolves_example =
    call-resolves net resolver request [] platform (row ∷ []) refl refl source called
