-- ===== src/Dns/Reply.antt =====
-- `_parse` of src/ssrfguard/resolvers.py and the functions it calls.
use ssrfguard.Base.{
  ℕ, zero, suc, ◌+◌, ◌-◌, ◌*◌, ◌/◌, ◌%◌, Bool, false, not, ◌||◌, ◌==◌, ltb, List, [], ◌∷◌, Text,
  text_eq, lower, any, length, Result, ok, raise, ◌>>=◌, if◌then◌else◌,
}
use ssrfguard.Net.{IpAddress, v4, v6}
use ssrfguard.Dns.Names.{
  WireError, malformed, wrong_question, server_failure, u16_at, u32_at, slice, decode_name,
}

abbrev pub type_a : ℕ
type_a = 1

abbrev pub type_cname : ℕ
type_cname = 5

abbrev pub type_aaaa : ℕ
type_aaaa = 28

abbrev pub class_in : ℕ
class_in = 1

abbrev pub header_size : ℕ
header_size = 12

-- The fixed part of a resource record, after its owner.
abbrev pub record_size : ℕ
record_size = 10

-- `Record`: an address and its lifetime.
pub record Record : Type 0 where
  pub ip : IpAddress
  pub ttl : ℕ

-- `_Answer`
pub record Answer : Type 0 where
  pub records : List Record
  pub truncated : Bool

-- What `_read_record` returns.
pub record Row : Type 0 where
  pub owner : Text
  pub rtype : ℕ
  pub rclass : ℕ
  pub ttl : ℕ
  pub rdata : Text
  pub after : ℕ

-- `_read_record`
unfoldable pub read_record : Text → ℕ → Result WireError Row
read_record message offset = decode_name message offset >>= λ (owner, start).
    if ltb (length message) (start + record_size)
    then raise malformed
    else let rdlength = u16_at message (start + 8) in
      let data_start = start + record_size in
      if ltb (length message) (data_start + rdlength)
      then raise malformed
      else ok (record {
        owner = lower owner;
        rtype = u16_at message start;
        rclass = u16_at message (start + 2);
        ttl = u32_at message (start + 4);
        rdata = slice message data_start rdlength;
        after = data_start + rdlength;
      })

abbrev big_endian : ℕ → Text → ℕ
big_endian n [] = n
big_endian n (b ∷ bs) = big_endian (n * 256 + b) bs

-- `_address_from`
unfoldable pub address_from : Text → ℕ → Result WireError IpAddress
address_from rdata qtype =
    let expected = if qtype == type_a then 4 else 16 in
    if not (length rdata == expected)
    then raise malformed
    else if expected == 4
    then ok (v4 (big_endian 0 rdata))
    else ok (v6 (big_endian 0 rdata) [])

-- What the loop of `_read_records` does with one row.
pub data Use : Type 0 where
  skips : Use
  accepts : Text → Use
  adds : Record → Use

unfoldable pub use_of : Text → List Text → ℕ → Row → Result WireError Use
use_of message accepted qtype row =
    if not (row.rclass == class_in) || not (any (text_eq row.owner) accepted)
    then ok skips
    else if row.rtype == type_cname
    then (decode_name message (row.after - length row.rdata) >>= λ (target, _).
        ok (accepts (lower target)))
    else if row.rtype == qtype
    then (address_from row.rdata qtype >>= λ ip. ok (adds (record { ip = ip; ttl = row.ttl })))
    else ok skips

-- The loop of `_read_records`.
unfoldable pub read_rows : ℕ → Text → ℕ → List Text → ℕ → Result WireError (List Record)
read_rows zero message offset accepted qtype = ok []
read_rows (suc count) message offset accepted qtype = do
  row ← read_record message offset
  used ← use_of message accepted qtype row
  elim used [
    | skips ↦ read_rows count message row.after accepted qtype
    | accepts target ↦ read_rows count message row.after (target ∷ accepted) qtype
    | adds r ↦ do rest ← read_rows count message row.after accepted qtype; ok (r ∷ rest)
  ]

-- `_read_records`
abbrev pub read_records : Text → ℕ → ℕ → Text → ℕ → Result WireError (List Record)
read_records message offset count name qtype =
    read_rows count message offset (lower name ∷ []) qtype

-- `_check_question`
unfoldable pub check_question : Text → ℕ → Text → ℕ → Result WireError ℕ
check_question message qdcount name qtype =
    if not (qdcount == 1)
    then raise wrong_question
    else (decode_name message header_size >>= λ (asked, offset).
        if ltb (length message) (offset + 4)
        then raise malformed
        else if not (text_eq (lower asked) (lower name))
        then raise wrong_question
        else if not (u16_at message offset == qtype)
            || not (u16_at message (offset + 2) == class_in)
        then raise wrong_question
        else ok (offset + 4))

-- `flags & _FLAG_RESPONSE`, `flags & _FLAG_TRUNCATED` and `flags & _RCODE_MASK`
abbrev pub is_response : ℕ → Bool
is_response flags = flags / 32768 % 2 == 1

abbrev pub is_truncated : ℕ → Bool
is_truncated flags = flags / 512 % 2 == 1

abbrev pub rcode_of : ℕ → ℕ
rcode_of flags = flags % 16

-- `_parse` from the answer section on.
unfoldable pub read_answer : Text → ℕ → ℕ → ℕ → Text → ℕ → Result WireError Answer
read_answer message flags ancount offset name qtype =
    if rcode_of flags == 3
    then ok (record { records = []; truncated = false })
    else if not (rcode_of flags == 0)
    then raise server_failure
    else (do
      records ← read_records message offset ancount name qtype
      ok (record { records = records; truncated = is_truncated flags }))

-- `_parse`
unfoldable pub parse : Text → ℕ → Text → ℕ → Result WireError Answer
parse message txid name qtype =
    if ltb (length message) header_size
    then raise malformed
    else if not (u16_at message 0 == txid)
    then raise wrong_question
    else if not (is_response (u16_at message 2))
    then raise wrong_question
    else (do
      offset ← check_question message (u16_at message 4) name qtype
      read_answer message (u16_at message 2) (u16_at message 6) offset name qtype)
