-- ===== src/Stub/Rows.antt =====
-- The rows that `UdpResolver.__call__` of src/ssrfguard/resolvers.py returns, as `resolve` of
-- src/ssrfguard/_resolve.py reads them.
use ssrfguard.Base.{
  ℕ, ◌+◌, ◌≡◌, refl, sym, ap, ◌∙◌, subst, ◌⊎◌, inl, inr, true, any, List, [], ◌∷◌, ◌++◌, Option,
  some, Text, map, Among, All, All-of_Among, All-among, Result, ok, raise, Bool-cases,
}
use ssrfguard.Net.{IpAddress, v4, v6}
use ssrfguard.Net.Parse.{ip_address}
use ssrfguard.Resolve.Defs.{
  ResolverAnswer, Resolver, Address, Key, key_of, key_eq, addresses_after, addresses_from,
}
use ssrfguard.Resolve.Answers.{addresses_from_complete}
use ssrfguard.Dns.Reply.{Record}
use ssrfguard.Stub.Network.{clock_read, Calls, Names, Network}
use ssrfguard.Stub.Config.{UdpResolver, an_address, a_name, not_numeric, HostKind, literal}
use ssrfguard.Stub.Lookup.{
  Unresolved, lookup, sockaddr_of, ip_family, row_of, Request, rows_of, call,
}

some-injective {ℓ} : {A : Type ℓ} {a b : A} → ◌≡◌ {A = Option A} (some a) (some b) → a ≡ b
some-injective h = cc

-- A row for an address, for a port.
IsRowOf : Names → ℕ → IpAddress → ResolverAnswer → Type 0
IsRowOf names port ip row =
    (row.family ≡ ip_family names ip) × (row.sockaddr ≡ sockaddr_of names ip port)

-- Where the addresses of a call come from: the host is a literal that is read, or they are those of
-- the records that its lookup gave.
unfoldable pub IsSource : Network → UdpResolver → Request → Calls → IpAddress → Type 0
IsSource net r q h ip =
    (literal q.host q.numeric ≡ an_address ip)
    ⊎ ((records : List Record) × ((lookup net r q.host q.family (net.clock h + r.timeout)
            (h ++ clock_read ∷ [])).0
          ≡ ok records)
        × (record' : Record) × Among record' records
        × (record'.ip ≡ ip))

-- A row that can be read: its family is known, and its text is an address.
IsReadable : Resolver → ResolverAnswer → Type 0
IsReadable resolver row =
    (resolver.is_family row.family ≡ true)
    × ((ip : IpAddress) × (ip_address row.sockaddr.host ≡ some ip))

addresses_after-readable :
    (resolver : Resolver) (host : Text) (seen : List Key) (rows : List ResolverAnswer)
    → All (IsReadable resolver) rows
    → (answers : List Address) × (addresses_after resolver host seen rows ≡ ok answers)
unfolding addresses_after IsReadable
addresses_after-readable resolver host seen [] all = ([], refl)
addresses_after-readable resolver host seen (row ∷ more) ((known, (ip, parsed)), rest) =
    elim (Bool-cases (any (key_eq (key_of row)) seen)) [
      | inl old ↦
          let (answers, e) = addresses_after-readable resolver host seen more rest in
          (answers, rw (addresses_after, old) e)
      | inr new ↦
          let (answers, e) = addresses_after-readable resolver host (key_of row ∷ seen) more rest in
          let a : Address = record {
            family = row.family;
            sockaddr = row.sockaddr;
            ip = ip;
            hostname = host;
          } in
          (a ∷ answers, rw (addresses_after, new, known, parsed, e) refl)
    ]

All-mapped :
    (f : Record → ResolverAnswer) (P : ResolverAnswer → Type 0) (records : List Record)
    → All (λ x. P (f x)) records
    → All P (map f records)
All-mapped f P [] all = tt
All-mapped f P (x ∷ more) (here, rest) = (here, All-mapped f P more rest)

row_of-IsRowOf :
    (names : Names) (port socktype proto : ℕ) (ip : IpAddress)
    → IsRowOf names port ip (row_of names port socktype proto ip)
unfolding row_of IsRowOf
row_of-IsRowOf names port socktype proto ip = (refl, refl)

module _ (net : Network) (r : UdpResolver) (q : Request) (h : Calls) where
  -- A row of the answer.
  IsGiven : ResolverAnswer → Type 0
  IsGiven row = (ip : IpAddress) × IsRowOf net.names q.port ip row × IsSource net r q h ip

  rows_of-IsGiven :
      (result : Result Unresolved (List Record)) (rows : List ResolverAnswer)
      → (lookup net r q.host q.family (net.clock h + r.timeout) (h ++ clock_read ∷ [])).0 ≡ result
      → rows_of net.names q result ≡ ok rows
      → All IsGiven rows
  unfolding IsGiven IsSource
  rows_of-IsGiven (raise e) rows looked done = absurd (cc)
  rows_of-IsGiven (ok []) rows looked done = absurd (cc)
  rows_of-IsGiven (ok (x ∷ more)) rows looked done =
      let f = λ (y : Record). row_of net.names q.port q.socktype q.proto y.ip in
      let same : map f (x ∷ more) ≡ rows = cc in
      subst (All IsGiven) same (
        All-mapped f IsGiven (x ∷ more) (
          All-of_Among (λ y. IsGiven (f y)) (x ∷ more)
            (λ y among. (
              y.ip,
              row_of-IsRowOf net.names q.port q.socktype q.proto y.ip,
              inr (x ∷ more, looked, y, among, refl),
            ))))

  call-IsGiven :
      (kind : HostKind) (rows : List ResolverAnswer)
      → literal q.host q.numeric ≡ kind
      → (call net r q h).0 ≡ ok rows
      → All IsGiven rows
  unfolding call IsGiven IsSource
  call-IsGiven (an_address ip) rows e done =
      let row = row_of net.names q.port q.socktype q.proto ip in
      let same : row ∷ [] ≡ rows = cc (rw (call, e) at done) in
      subst (All IsGiven) same
        ((ip, row_of-IsRowOf net.names q.port q.socktype q.proto ip, inl e), tt)
  call-IsGiven not_numeric rows e done = absurd (cc (rw (call, e) at done))
  call-IsGiven a_name rows e done = rows_of-IsGiven _ rows refl (rw (call, e) at done)

module _ (resolver : Resolver) (names : Names) where
  -- The families that a row may have are ones that `socket.AddressFamily` knows.
  knows-family :
      resolver.is_family names.af_inet ≡ true
      → resolver.is_family names.af_inet6 ≡ true
      → (ip : IpAddress) → resolver.is_family (ip_family names ip) ≡ true
  knows-family four six (v4 _) = four
  knows-family four six (v6 _ _) = six

  host_of-sockaddr :
      (ip : IpAddress) (port : ℕ) → (sockaddr_of names ip port).host ≡ names.str_of ip
  host_of-sockaddr (v4 _) port = refl
  host_of-sockaddr (v6 _ _) port = refl

  reads-row :
      (port : ℕ) (ip : IpAddress) (row : ResolverAnswer)
      → IsRowOf names port ip row
      → ip_address (names.str_of ip) ≡ some ip
      → ip_address row.sockaddr.host ≡ some ip
  unfolding IsRowOf
  reads-row port ip row (_, sockaddr) reads =
      ap (λ s. ip_address s.host) sockaddr ∙ ap ip_address (host_of-sockaddr ip port) ∙ reads

-- What `resolve` reads from the rows of a call of `UdpResolver`, if `AddressFamily` knows the two
-- families and each address of the call is read back from its text: it raises no `ValueError` on
-- them, and every address read is the literal that the host is,
-- or that of a record of the lookup of the host.
pub call-resolves :
    (net : Network) (r : UdpResolver) (q : Request) (h : Calls) (resolver : Resolver)
    (rows : List ResolverAnswer)
    → resolver.is_family net.names.af_inet ≡ true
    → resolver.is_family net.names.af_inet6 ≡ true
    → ((ip : IpAddress) → IsSource net r q h ip → ip_address (net.names.str_of ip) ≡ some ip)
    → (call net r q h).0 ≡ ok rows
    → (answers : List Address) × (addresses_from resolver rows q.host ≡ ok answers)
      × All (λ a. IsSource net r q h a.ip) answers
unfolding IsGiven IsRowOf IsReadable
call-resolves net r q h resolver rows four six reads done =
    let given = call-IsGiven net r q h (literal q.host q.numeric) rows refl done in
    let readable : All (IsReadable resolver) rows =
      All-of_Among (IsReadable resolver) rows (λ row among.
        let (ip, (family, sockaddr), source) = All-among (IsGiven net r q h) rows given row among in
        (
          subst (λ f. resolver.is_family f ≡ true) (sym family)
              (knows-family resolver net.names four six ip),
          (ip, reads-row resolver net.names q.port ip row (family, sockaddr) (reads ip source)),
        )) in
    let (answers, e) = addresses_after-readable resolver q.host [] rows readable in
    let (_, from) = addresses_from_complete resolver q.host rows answers e in
    (
      answers,
      e,
      All-of_Among (λ a. IsSource net r q h a.ip) answers
          (λ a among.
            let (row, in_rows, origin) = All-among _ answers from a among in
            let (ip, is_row, source) = All-among (IsGiven net r q h) rows given row in_rows in
            let read = reads-row resolver net.names q.port ip row is_row (reads ip source) in
            let same : ip ≡ a.ip =
              some-injective (
                sym read
                ∙ ap (λ s. ip_address s.host) (sym origin.same_sockaddr)
                ∙ origin.parsed) in
            subst (IsSource net r q h) same source),
    )
