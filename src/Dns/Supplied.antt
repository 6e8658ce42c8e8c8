-- ===== src/Dns/Supplied.antt =====
-- What the rows of an answer section must hold for `_parse` of src/ssrfguard/resolvers.py to take
-- records from them.
use ssrfguard.Base.{
  ℕ, zero, suc, ◌-◌, ◌≡◌, refl, sym, ap, subst, ◌∙◌, ◌⊎◌, inl, inr, true, ◌==◌, ==_iff, List, [],
  ◌∷◌, Text, text_eq, text_eq_iff, lower, any, any-Among, length, All, All-among, Among, Result, ok,
  ◌>>=◌, >>=-eq-ok, ok-injective, Bool-cases, arith,
}
use ssrfguard.Dns.Names.{WireError, decode_name}
use ssrfguard.Dns.Reply.{
  type_cname, class_in, Record, Row, read_record, address_from, Use, skips, accepts, adds, use_of,
  read_rows,
}

-- The rows of an answer section, read one after the other.
pub rows_from : ℕ → Text → ℕ → Result WireError (List Row)
rows_from zero message offset = ok []
rows_from (suc count) message offset = do
  row ← read_record message offset
  rest ← rows_from count message row.after
  ok (row ∷ rest)

-- A name that the question reaches: the one asked for, or the target of a `CNAME` row whose owner it reaches.
pub data IsReached (message name : Text) (rows : List Row) : Text → Type 0 where
  asked_for : (t : Text) → t ≡ lower name → IsReached message name rows t
  aliased :
      (t target : Text) (after : ℕ) (row : Row)
      → Among row rows
      → row.rtype ≡ type_cname
      → row.rclass ≡ class_in
      → IsReached message name rows row.owner
      → decode_name message (row.after - length row.rdata) ≡ ok (target, after)
      → t ≡ lower target
      → IsReached message name rows t

-- A record that is read from a row of the type asked for, whose owner the question reaches.
pub record IsRecord (message name : Text) (qtype : ℕ) (rows : List Row) (r : Record) : Type 0 where
  pub row : Row
  pub among : Among row rows
  pub right_type : row.rtype ≡ qtype
  pub internet : row.rclass ≡ class_in
  pub reached : IsReached message name rows row.owner
  pub address : address_from row.rdata qtype ≡ ok r.ip
  pub lifetime : r.ttl ≡ row.ttl

use_of-cases :
    (message : Text) (accepted : List Text) (qtype : ℕ) (row : Row) (used : Use)
    → use_of message accepted qtype row ≡ ok used
    → (used ≡ skips)
      ⊎ ((row.rclass ≡ class_in)
          × (any (text_eq row.owner) accepted ≡ true)
          × (((target : Text) × (after : ℕ) × (row.rtype ≡ type_cname)
                × (used ≡ accepts (lower target))
                × (decode_name message (row.after - length row.rdata) ≡ ok (target, after)))
              ⊎ ((r : Record) × (row.rtype ≡ qtype)
                  × (used ≡ adds r)
                  × (address_from row.rdata qtype ≡ ok r.ip)
                  × (r.ttl ≡ row.ttl))))
unfolding use_of
use_of-cases message accepted qtype row used h = elim (Bool-cases (row.rclass == class_in)) [
  | inr n ↦ inl (ground arith)
  | inl y ↦ elim (Bool-cases (any (text_eq row.owner) accepted)) [
    | inr n ↦ inl (ground arith)
    | inl k ↦ elim (Bool-cases (row.rtype == type_cname)) [
      | inl c ↦
          let ((target, after), d, same) =
            >>=-eq-ok (decode_name message (row.after - length row.rdata)) _
              (rw (use_of, y, k, c) at h) in
          inr (
            (==_iff row.rclass class_in).0 y,
            k,
            inl (target, after, (==_iff row.rtype type_cname).0 c, sym (ok-injective same), d),
          )
      | inr c ↦ elim (Bool-cases (row.rtype == qtype)) [
        | inl q ↦
            let (ip, d, same) =
              >>=-eq-ok (address_from row.rdata qtype) _ (rw (use_of, y, k, c, q) at h) in
            inr (
              (==_iff row.rclass class_in).0 y,
              k,
              inr (
                record { ip = ip; ttl = row.ttl },
                (==_iff row.rtype qtype).0 q,
                sym (ok-injective same),
                d,
                refl,
              ),
            )
        | inr q ↦ inl (sym (ok-injective (rw (use_of, y, k, c, q) at h)))
      ]
    ]
  ]
]

unfoldable pub IsSupplied : Text → ℕ → List Row → List Text → List Record → Type 0
IsSupplied message qtype rows accepted out =
    (name : Text) (every : List Row)
    → ((row : Row) → Among row rows → Among row every)
    → All (IsReached message name every) accepted
    → All (IsRecord message name qtype every) out

-- What the rest of the loop does after a row.
Rest-cases :
    (count : ℕ) (message : Text) (row : Row) (accepted : List Text) (qtype : ℕ) (out : List Record)
    (used : Use)
    → elim used [
      | skips ↦ read_rows count message row.after accepted qtype
      | accepts target ↦ read_rows count message row.after (target ∷ accepted) qtype
      | adds r ↦ read_rows count message row.after accepted qtype >>= λ rest. ok (r ∷ rest)
    ]
      ≡ ok out
    → ((used ≡ skips) × (read_rows count message row.after accepted qtype ≡ ok out))
      ⊎ ((target : Text) × (used ≡ accepts target)
          × (read_rows count message row.after (target ∷ accepted) qtype ≡ ok out))
      ⊎ ((r : Record) × (rest : List Record) × (used ≡ adds r)
          × (read_rows count message row.after accepted qtype ≡ ok rest)
          × (out ≡ r ∷ rest))
Rest-cases count message row accepted qtype out skips h = inl (refl, h)
Rest-cases count message row accepted qtype out (accepts target) h = inr (inl (target, refl, h))
Rest-cases count message row accepted qtype out (adds r) h =
    let (rest, k, same) = >>=-eq-ok (read_rows count message row.after accepted qtype) _ h in
    inr (inr (r, rest, refl, k, sym (ok-injective same)))

IsReached-any :
    (message name : Text) (every : List Row) (accepted : List Text) (owner : Text)
    → any (text_eq owner) accepted ≡ true
    → All (IsReached message name every) accepted
    → IsReached message name every owner
IsReached-any message name every accepted owner h all =
    let (t, m, e) = any-Among (text_eq owner) accepted h in
    subst (IsReached message name every) (sym ((text_eq_iff owner t).0 e))
      (All-among (IsReached message name every) accepted all t m)

module _ (message name : Text) (every : List Row) (accepted : List Text) (qtype : ℕ)
    (row : Row) where
  accepts-IsReached :
      (target : Text)
      → use_of message accepted qtype row ≡ ok (accepts target)
      → Among row every
      → All (IsReached message name every) accepted
      → IsReached message name every target
  accepts-IsReached target h m all =
      elim (use_of-cases message accepted qtype row (accepts target) h) [
        | inl e ↦ absurd (cc)
        | inr (c, k, inr (r, t, same, a, l)) ↦ absurd (cc)
        | inr (c, k, inl (asked, after, t, same, d)) ↦
            aliased target asked after row m t c
              (IsReached-any message name every accepted row.owner k all) d (cc)
      ]

  adds-IsRecord :
      (r : Record)
      → use_of message accepted qtype row ≡ ok (adds r)
      → Among row every
      → All (IsReached message name every) accepted
      → IsRecord message name qtype every r
  adds-IsRecord r h m all = elim (use_of-cases message accepted qtype row (adds r) h) [
    | inl e ↦ absurd (cc)
    | inr (c, k, inl (asked, after, t, same, d)) ↦ absurd (cc)
    | inr (c, k, inr (x, t, same, a, l)) ↦
        let this : x ≡ r = cc in
        record {
          row = row;
          among = m;
          right_type = t;
          internet = c;
          reached = IsReached-any message name every accepted row.owner k all;
          address = a ∙ ap (λ y. ok y.ip) this;
          lifetime = ap (λ y. y.ttl) (sym this) ∙ l;
        }
  ]

pub read_rows-IsSupplied :
    (count : ℕ) (message : Text) (offset : ℕ) (accepted : List Text) (qtype : ℕ) (out : List Record)
    → read_rows count message offset accepted qtype ≡ ok out
    → (rows : List Row) × (rows_from count message offset ≡ ok rows)
      × IsSupplied message qtype rows accepted out
unfolding read_rows rows_from IsSupplied
read_rows-IsSupplied zero message offset accepted qtype out h = (
  [],
  refl,
  λ name every f all. subst (All (IsRecord message name qtype every)) (ok-injective h) tt,
)
read_rows-IsSupplied (suc count) message offset accepted qtype out h =
    let (row, e, h1) = >>=-eq-ok (read_record message offset) _ h in
    let (used, u, h2) = >>=-eq-ok (use_of message accepted qtype row) _ h1 in
    elim (Rest-cases count message row accepted qtype out used h2) [
      | inl (w, k) ↦
          let (rows, r, supply) =
            read_rows-IsSupplied count message row.after accepted qtype out k in
          (
            row ∷ rows,
            rw (e, r) refl,
            λ name every f all. supply name every (λ x m. f x (inr m)) all,
          )
      | inr (inl (target, w, k)) ↦
          let (rows, r, supply) =
            read_rows-IsSupplied count message row.after (target ∷ accepted) qtype out k in
          (
            row ∷ rows,
            rw (e, r) refl,
            λ name every f all.
                supply name every (λ x m. f x (inr m))
                  (
                    accepts-IsReached message name every accepted qtype row target (u ∙ ap ok w)
                        (f row (inl refl)) all,
                    all,
                  ),
          )
      | inr (inr (x, rest, w, k, same)) ↦
          let (rows, r, supply) =
            read_rows-IsSupplied count message row.after accepted qtype rest k in
          (
            row ∷ rows,
            rw (e, r) refl,
            λ name every f all. subst (All (IsRecord message name qtype every)) (sym same) (
              adds-IsRecord message name every accepted qtype row x (u ∙ ap ok w) (f row (inl refl))
                  all,
              supply name every (λ y m. f y (inr m)) all,
            ),
          )
    ]
