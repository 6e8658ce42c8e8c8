-- ===== src/Resolve/Answers.antt =====
-- `_addresses_from` of src/ssrfguard/_resolve.py: which addresses it makes of a lookup's rows.
use ssrfguard.Base.{
  ◌==◌, ==_iff, text_eq_iff, text_eq, split_and, any-Among, ap, ◌∙◌, ◌≡◌, refl, sym, subst, ◌⊎◌,
  inl, inr, Bool, true, List, [], ◌∷◌, some, All, All-map, Among, any, Text, arith, ==_refl,
  text_eq_refl, ok, >>=-eq-ok, Bool-cases, Option-cases, ok-injective,
}
use ssrfguard.Net.{IpAddress}
use ssrfguard.Net.Parse.{ip_address}
use ssrfguard.Resolve.Defs.{
  Resolver, ResolverAnswer, Address, Key, key_of, key_of_address, key_eq, addresses_after,
  addresses_from,
}

pub key_eq_refl : (k : Key) → key_eq k k ≡ true
unfolding key_eq
key_eq_refl k = simp (
  ==_refl k.family,
  text_eq_refl k.sockaddr.host,
  ==_refl k.sockaddr.port,
  text_eq_refl k.sockaddr.rest,
)

-- Rows and addresses with equal keys have one family and one socket address.
key_eq_sound :
    (info : ResolverAnswer) (a : Address)
    → key_eq (key_of info) (key_of_address a) ≡ true
    → (a.family ≡ info.family) × (a.sockaddr ≡ info.sockaddr)
unfolding key_eq
key_eq_sound info a h =
    let (family, rest) = split_and (info.family == a.family) _ h in
    let (host, rest) = split_and (text_eq info.sockaddr.host a.sockaddr.host) _ rest in
    let (port, more) = split_and (info.sockaddr.port == a.sockaddr.port) _ rest in
    let same_host = (text_eq_iff info.sockaddr.host a.sockaddr.host).0 host in
    let same_port = (==_iff info.sockaddr.port a.sockaddr.port).0 port in
    let same_rest = (text_eq_iff info.sockaddr.rest a.sockaddr.rest).0 more in
    (
      sym ((==_iff info.family a.family).0 family),
      sym (
          ap (λ x. record { host = x; port = info.sockaddr.port; rest = info.sockaddr.rest })
            same_host
          ∙ ap (λ x. record { host = a.sockaddr.host; port = x; rest = info.sockaddr.rest })
              same_port
          ∙ ap (λ x. record { host = a.sockaddr.host; port = a.sockaddr.port; rest = x })
              same_rest),
    )

-- An address that was read from a row: the same family and socket address, and the IP address is
-- the one that the socket address spells.
pub record IsFrom (r : Resolver) (hostname : Text) (info : ResolverAnswer) (a : Address)
    : Type 0 where
  pub known : r.is_family a.family ≡ true
  pub same_family : a.family ≡ info.family
  pub same_sockaddr : a.sockaddr ≡ info.sockaddr
  pub parsed : ip_address a.sockaddr.host ≡ some a.ip
  pub named : a.hostname ≡ hostname

-- A row whose key one of the addresses has, and whose family and socket address it therefore has.
abbrev has_key : List Address → ResolverAnswer → Bool
has_key found info = any (λ a. key_eq (key_of info) (key_of_address a)) found

abbrev made : Text → ResolverAnswer → IpAddress → Address
made hostname info ip = record {
  family = info.family;
  sockaddr = info.sockaddr;
  ip = ip;
  hostname = hostname;
}

module _ (r : Resolver) (hostname : Text) where
  -- The three ways on from one row.
  addresses_after-cons :
      (seen : List Key) (info : ResolverAnswer) (infos : List ResolverAnswer) (found : List Address)
      → addresses_after r hostname seen (info ∷ infos) ≡ ok found
      → ((any (key_eq (key_of info)) seen ≡ true)
          × (addresses_after r hostname seen infos ≡ ok found))
        ⊎ ((ip : IpAddress) × (rest : List Address) × (r.is_family info.family ≡ true)
            × (ip_address info.sockaddr.host ≡ some ip)
            × (addresses_after r hostname (key_of info ∷ seen) infos ≡ ok rest)
            × (found ≡ made hostname info ip ∷ rest))
  unfolding addresses_after
  addresses_after-cons seen info infos found h =
      elim (Bool-cases (any (key_eq (key_of info)) seen)) [
        | inl e ↦ inl (e, rw (addresses_after, e) at h)
        | inr e ↦ elim (Bool-cases (r.is_family info.family)) [
          | inr n ↦ absurd (cc (rw (addresses_after, e, n) at h))
          | inl y ↦ elim (Option-cases (ip_address info.sockaddr.host)) [
            | inl w ↦ absurd (cc (rw (addresses_after, e, y, w) at h))
            | inr (ip, w) ↦
                let (rest, later, same) =
                  >>=-eq-ok (addresses_after r hostname (key_of info ∷ seen) infos) _
                    (rw (addresses_after, e, y, w) at h) in
                inr (ip, rest, y, w, later, sym (ok-injective same))
          ]
        ]
      ]

  IsSeen : List Key → List Address → ResolverAnswer → Type 0
  IsSeen seen found info = (any (key_eq (key_of info)) seen ≡ true) ⊎ (has_key found info ≡ true)

  IsRead : List ResolverAnswer → Address → Type 0
  IsRead infos a = (info : ResolverAnswer) × Among info infos × IsFrom r hostname info a

  IsSeen-on :
      (seen : List Key) (info : ResolverAnswer) (ip : IpAddress) (rest : List Address)
      (i : ResolverAnswer)
      → IsSeen (key_of info ∷ seen) rest i
      → IsSeen seen (made hostname info ip ∷ rest) i
  unfolding IsSeen
  IsSeen-on seen info ip rest i h = ground arith

  addresses_after-IsSeen :
      (seen : List Key) (infos : List ResolverAnswer) (found : List Address)
      → addresses_after r hostname seen infos ≡ ok found
      → All (IsSeen seen found) infos
  unfolding IsSeen
  addresses_after-IsSeen seen [] found h = tt
  addresses_after-IsSeen seen (info ∷ infos) found h =
      elim (addresses_after-cons seen info infos found h) [
        | inl (e, k) ↦ (inl e, addresses_after-IsSeen seen infos found k)
        | inr (ip, rest, y, w, later, same) ↦
            subst (λ f. All (IsSeen seen f) (info ∷ infos)) (sym same)
              (
                inr (simp (key_eq_refl (key_of info))),
                All-map (IsSeen-on seen info ip rest) infos
                    (addresses_after-IsSeen (key_of info ∷ seen) infos rest later),
              )
      ]

  addresses_after-IsRead :
      (seen : List Key) (infos : List ResolverAnswer) (found : List Address)
      → addresses_after r hostname seen infos ≡ ok found
      → All (IsRead infos) found
  unfolding addresses_after IsRead
  addresses_after-IsRead seen [] found h = subst (All (IsRead [])) (ok-injective h) tt
  addresses_after-IsRead seen (info ∷ infos) found h =
      elim (addresses_after-cons seen info infos found h) [
        | inl (e, k) ↦
            All-map (λ a (i, m, from). (i, inr m, from)) found
              (addresses_after-IsRead seen infos found k)
        | inr (ip, rest, y, w, later, same) ↦ subst (All (IsRead (info ∷ infos))) (sym same) (
          (
            info,
            inl refl,
            record {
              known = y;
              same_family = refl;
              same_sockaddr = refl;
              parsed = w;
              named = refl;
            },
          ),
          All-map (λ a (i, m, from). (i, inr m, from)) rest
              (addresses_after-IsRead (key_of info ∷ seen) infos rest later),
        )
      ]

-- One of the addresses has the family and the socket address of a row.
abbrev pub IsCovered : List Address → ResolverAnswer → Type 0
IsCovered found info =
    (a : Address) × Among a found × (a.family ≡ info.family) × (a.sockaddr ≡ info.sockaddr)

has_key-IsCovered :
    (found : List Address) (info : ResolverAnswer)
    → has_key found info ≡ true
    → IsCovered found info
has_key-IsCovered found info h =
    let (a, there, same) = any-Among (λ a. key_eq (key_of info) (key_of_address a)) found h in
    let (family, sockaddr) = key_eq_sound info a same in (a, there, family, sockaddr)

-- No row of a lookup's answer escapes: one of the addresses has its family and socket address.
-- And every address is read from a row, with its family, socket address and IP address.
pub addresses_from_complete :
    (r : Resolver) (hostname : Text) (infos : List ResolverAnswer) (found : List Address)
    → addresses_from r infos hostname ≡ ok found
    → All (IsCovered found) infos
      × All (λ a. (info : ResolverAnswer) × Among info infos × IsFrom r hostname info a) found
unfolding IsSeen IsRead
addresses_from_complete r hostname infos found h = (
  All-map (λ info s. elim s [ inl e ↦ absurd (cc) | inr e ↦ has_key-IsCovered found info e ]) infos
      (addresses_after-IsSeen r hostname [] infos found h),
  addresses_after-IsRead r hostname [] infos found h,
)
