-- ===== src/Dns/Total.antt =====
-- The reading of a response in src/ssrfguard/resolvers.py never runs out of fuel.
use ssrfguard.Base.{
  ℕ, zero, suc, ◌-◌, ◌≢◌, Bool, true, false, List, [], ◌∷◌, Text, lower, length, Result, ok, raise,
  ◌>>=◌, if◌then◌else◌,
}
use ssrfguard.Dns.Names.{
  WireError, malformed, wrong_question, server_failure, out_of_fuel, u16_at, decode_name,
}
use ssrfguard.Dns.Bounded.{IsDecoded, decode_name-IsDecoded}
use ssrfguard.Dns.Reply.{
  header_size, Row, read_record, address_from, Use, skips, accepts, adds, use_of, read_rows,
  read_records, check_question, read_answer, parse,
}

-- A result that is no lack of fuel.
IsFueled {ℓ} : {A : Type ℓ} → Result WireError A → Type ℓ
IsFueled {A = A} r = r ≢ raise out_of_fuel

bind-IsFueled :
    {A B : Type 0} (m : Result WireError A) (f : A → Result WireError B)
    → IsFueled m
    → ((a : A) → IsFueled (f a))
    → IsFueled (m >>= f)
unfolding IsFueled
bind-IsFueled (ok a) f h k = k a
bind-IsFueled (raise e) f h k = λ same. h (cc)

if-IsFueled :
    {A : Type 0} (b : Bool) (x y : Result WireError A)
    → IsFueled x
    → IsFueled y
    → IsFueled (if b then x else y)
if-IsFueled true x y h k = h
if-IsFueled false x y h k = k

ok-IsFueled : {A : Type 0} (a : A) → IsFueled (ok a)
unfolding IsFueled
ok-IsFueled a same = absurd (cc)

raise-IsFueled : (A : Type 0) (e : WireError) → e ≢ out_of_fuel → IsFueled {A = A} (raise e)
unfolding IsFueled
raise-IsFueled A e h same = h (cc)

malformed-IsFueled : (A : Type 0) → IsFueled {A = A} (raise malformed)
malformed-IsFueled A = raise-IsFueled A malformed (λ h. absurd (cc))

wrong-IsFueled : (A : Type 0) → IsFueled {A = A} (raise wrong_question)
wrong-IsFueled A = raise-IsFueled A wrong_question (λ h. absurd (cc))

decoded-IsFueled :
    (message : Text) (r : Result WireError (Text × ℕ)) → IsDecoded message r → IsFueled r
unfolding IsFueled
decoded-IsFueled message (ok x) h same = absurd (cc)
decoded-IsFueled message (raise e) h same = absurd (cc)

decode_name-IsFueled : (message : Text) (offset : ℕ) → IsFueled (decode_name message offset)
decode_name-IsFueled message offset =
    decoded-IsFueled message (decode_name message offset) (decode_name-IsDecoded message offset)

read_record-IsFueled : (message : Text) (offset : ℕ) → IsFueled (read_record message offset)
unfolding read_record
read_record-IsFueled message offset =
    bind-IsFueled (decode_name message offset) _ (decode_name-IsFueled message offset)
      (λ (owner, start).
        if-IsFueled _ _ _ (malformed-IsFueled _)
          (if-IsFueled _ _ _ (malformed-IsFueled _) (ok-IsFueled _)))

address_from-IsFueled : (rdata : Text) (qtype : ℕ) → IsFueled (address_from rdata qtype)
unfolding address_from
address_from-IsFueled rdata qtype =
    if-IsFueled _ _ _ (malformed-IsFueled _) (if-IsFueled _ _ _ (ok-IsFueled _) (ok-IsFueled _))

use_of-IsFueled :
    (message : Text) (accepted : List Text) (qtype : ℕ) (row : Row)
    → IsFueled (use_of message accepted qtype row)
unfolding use_of
use_of-IsFueled message accepted qtype row = if-IsFueled _ _ _ (ok-IsFueled skips) (
    if-IsFueled _ _ _
      (bind-IsFueled (decode_name message (row.after - length row.rdata)) _
        (decode_name-IsFueled message (row.after - length row.rdata)) (λ x. ok-IsFueled _))
      (if-IsFueled _ _ _
        (bind-IsFueled (address_from row.rdata qtype) _ (address_from-IsFueled row.rdata qtype)
          (λ ip. ok-IsFueled _))
        (ok-IsFueled skips)))

next-IsFueled :
    (count : ℕ) (message : Text) (accepted : List Text) (qtype : ℕ) (row : Row) (used : Use)
    → ((names : List Text) → IsFueled (read_rows count message row.after names qtype))
    → IsFueled (elim used [
      | skips ↦ read_rows count message row.after accepted qtype
      | accepts target ↦ read_rows count message row.after (target ∷ accepted) qtype
      | adds r ↦ read_rows count message row.after accepted qtype >>= λ rest. ok (r ∷ rest)
    ])
next-IsFueled count message accepted qtype row skips h = h accepted
next-IsFueled count message accepted qtype row (accepts target) h = h (target ∷ accepted)
next-IsFueled count message accepted qtype row (adds r) h =
    bind-IsFueled (read_rows count message row.after accepted qtype) _ (h accepted)
      (λ rest. ok-IsFueled _)

read_rows-IsFueled :
    (count : ℕ) (message : Text) (offset : ℕ) (accepted : List Text) (qtype : ℕ)
    → IsFueled (read_rows count message offset accepted qtype)
unfolding read_rows
read_rows-IsFueled zero message offset accepted qtype = ok-IsFueled []
read_rows-IsFueled (suc count) message offset accepted qtype =
    bind-IsFueled (read_record message offset) _ (read_record-IsFueled message offset) (λ row.
      bind-IsFueled (use_of message accepted qtype row) _
        (use_of-IsFueled message accepted qtype row)
        (λ used.
          next-IsFueled count message accepted qtype row used
            (λ names. read_rows-IsFueled count message row.after names qtype)))

check_question-IsFueled :
    (message : Text) (n : ℕ) (name : Text) (qtype : ℕ)
    → IsFueled (check_question message n name qtype)
unfolding check_question
check_question-IsFueled message n name qtype = if-IsFueled _ _ _ (wrong-IsFueled _) (
    bind-IsFueled (decode_name message header_size) _ (decode_name-IsFueled message header_size)
      (λ (asked, offset). if-IsFueled _ _ _ (malformed-IsFueled _) (
        if-IsFueled _ _ _ (wrong-IsFueled _)
          (if-IsFueled _ _ _ (wrong-IsFueled _) (ok-IsFueled _)))))

read_answer-IsFueled :
    (message : Text) (flags n offset : ℕ) (name : Text) (qtype : ℕ)
    → IsFueled (read_answer message flags n offset name qtype)
unfolding read_answer
read_answer-IsFueled message flags n offset name qtype = if-IsFueled _ _ _ (ok-IsFueled _) (
    if-IsFueled _ _ _ (raise-IsFueled _ server_failure (λ h. absurd (cc))) (
      bind-IsFueled (read_records message offset n name qtype) _
        (read_rows-IsFueled n message offset (lower name ∷ []) qtype) (λ records. ok-IsFueled _)))

-- Reading a response ends on any bytes: `_parse` returns, or raises one of the three errors that
-- the code has, and never for want of fuel.
pub parse_total :
    (message : Text) (txid : ℕ) (name : Text) (qtype : ℕ)
    → parse message txid name qtype ≢ raise out_of_fuel
unfolding parse IsFueled
parse_total message txid name qtype = if-IsFueled _ _ _ (malformed-IsFueled _) (
    if-IsFueled _ _ _ (wrong-IsFueled _) (
      if-IsFueled _ _ _ (wrong-IsFueled _) (
        bind-IsFueled (check_question message (u16_at message 4) name qtype) _
          (check_question-IsFueled message (u16_at message 4) name qtype)
          (λ offset.
            read_answer-IsFueled message (u16_at message 2) (u16_at message 6) offset name qtype))))
