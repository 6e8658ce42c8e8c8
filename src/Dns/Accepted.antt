-- ===== src/Dns/Accepted.antt =====
-- What a response must hold for `_parse` of src/ssrfguard/resolvers.py to take records from it.
use ssrfguard.Base.{
  ℕ, ◌+◌, ◌≡◌, refl, sym, ap, subst, ◌⊎◌, inl, inr, Bool, true, false, not, ◌||◌, ◌==◌, ==_iff, ltb,
  List, [], ◌∷◌, Text, text_eq, text_eq_iff, lower, length, All, ok, raise, >>=-eq-ok, ok-injective,
  Bool-cases, if◌then◌else◌, arith,
}
use ssrfguard.Dns.Names.{malformed, wrong_question, u16_at, decode_name}
use ssrfguard.Dns.Reply.{
  class_in, header_size, Answer, Row, read_records, check_question, is_response, is_truncated,
  rcode_of, read_answer, parse,
}
use ssrfguard.Dns.Supplied.{rows_from, asked_for, IsRecord, IsSupplied, read_rows-IsSupplied}

-- What a response says when records are taken from it: it answers, with the transaction id that
-- was sent, the one question that was asked.
pub record IsEcho (message : Text) (txid : ℕ) (name : Text) (qtype : ℕ) : Type 0 where
  pub same_id : u16_at message 0 ≡ txid
  pub response : is_response (u16_at message 2) ≡ true
  pub one_question : u16_at message 4 ≡ 1
  pub asked : Text
  pub question_end : ℕ
  pub question : decode_name message header_size ≡ ok (asked, question_end)
  pub same_name : lower asked ≡ lower name
  pub same_type : u16_at message question_end ≡ qtype
  pub same_class : u16_at message (question_end + 2) ≡ class_in

question_tail :
    (same : Bool) (short wrong : Bool) (after offset : ℕ)
    → (if short
        then raise malformed
        else if not same
        then raise wrong_question
        else if wrong
        then raise wrong_question
        else ok (after + 4))
      ≡ ok offset
    → (same ≡ true) × (wrong ≡ false) × (offset ≡ after + 4)
question_tail same short wrong after offset h = ground arith

check_question-ok :
    (message : Text) (qdcount : ℕ) (name : Text) (qtype offset : ℕ)
    → check_question message qdcount name qtype ≡ ok offset
    → (qdcount ≡ 1)
      × ((asked : Text) × (after : ℕ) × (decode_name message header_size ≡ ok (asked, after))
          × (lower asked ≡ lower name)
          × (u16_at message after ≡ qtype)
          × (u16_at message (after + 2) ≡ class_in)
          × (offset ≡ after + 4))
unfolding check_question
check_question-ok message qdcount name qtype offset h = elim (Bool-cases (qdcount == 1)) [
  | inr n ↦ absurd (cc (rw (check_question, n) at h))
  | inl y ↦
      let ((asked, after), d, k) =
        >>=-eq-ok (decode_name message header_size) _ (rw (check_question, y) at h) in
      let (same, right, there) =
        question_tail (text_eq (lower asked) (lower name)) (ltb (length message) (after + 4))
          (not (u16_at message after == qtype) || not (u16_at message (after + 2) == class_in))
          after offset k in
      (
        (==_iff qdcount 1).0 y,
        (
          asked,
          after,
          d,
          (text_eq_iff (lower asked) (lower name)).0 same,
          ground arith,
          ground arith,
          there,
        ),
      )
]

-- The records of an answer are those that the answer section justifies, unless the name does not exist.
abbrev pub IsJustified : Text → Text → ℕ → ℕ → Answer → Type 0
IsJustified message name qtype offset answer =
    ((rcode_of (u16_at message 2) ≡ 3) × (answer.records ≡ []) × (answer.truncated ≡ false))
    ⊎ ((rcode_of (u16_at message 2) ≡ 0)
        × (answer.truncated ≡ is_truncated (u16_at message 2))
        × ((rows : List Row) × (rows_from (u16_at message 6) message offset ≡ ok rows)
            × All (IsRecord message name qtype rows) answer.records))

read_answer-ok :
    (message : Text) (offset : ℕ) (name : Text) (qtype : ℕ) (answer : Answer)
    → read_answer message (u16_at message 2) (u16_at message 6) offset name qtype ≡ ok answer
    → IsJustified message name qtype offset answer
unfolding read_answer IsSupplied
read_answer-ok message offset name qtype answer h =
    elim (Bool-cases (rcode_of (u16_at message 2) == 3)) [
      | inl y ↦
          let this = ok-injective (rw (read_answer, y) at h) in
          inl (
            (==_iff (rcode_of (u16_at message 2)) 3).0 y,
            ap (λ a. a.records) (sym this),
            ap (λ a. a.truncated) (sym this),
          )
      | inr n ↦ elim (Bool-cases (rcode_of (u16_at message 2) == 0)) [
        | inr m ↦ absurd (cc (rw (read_answer, n, m) at h))
        | inl z ↦
            let (records, r, same) =
              >>=-eq-ok (read_records message offset (u16_at message 6) name qtype) _
                (rw (read_answer, n, z) at h) in
            let this = sym (ok-injective same) in
            let (rows, listed, supply) =
              read_rows-IsSupplied (u16_at message 6) message offset (lower name ∷ []) qtype records
                r in
            inr (
              (==_iff (rcode_of (u16_at message 2)) 0).0 z,
              ap (λ a. a.truncated) this,
              (
                rows,
                listed,
                subst (λ a. All (IsRecord message name qtype rows) a.records) (sym this)
                    (supply name rows (λ x m. m) (asked_for (lower name) refl, tt)),
              ),
            )
      ]
    ]

-- When `_parse` returns, the message answers the question that was sent: it is a response with
-- the transaction id that was sent and the one question that was asked, in the type and class
-- asked for. Each record is read from a row of the answer section of that type and class whose owner is the
-- name asked for, or a name that a chain of `CNAME` rows of the section leads to from it; no
-- record of another owner is taken. When the server says that the name does not exist there is none.
pub parse-IsEcho :
    (message : Text) (txid : ℕ) (name : Text) (qtype : ℕ) (answer : Answer)
    → parse message txid name qtype ≡ ok answer
    → (echo : IsEcho message txid name qtype) × IsJustified message name qtype
        (echo.question_end + 4)
        answer
unfolding parse
parse-IsEcho message txid name qtype answer h =
    elim (Bool-cases (ltb (length message) header_size)) [
      | inl short ↦ absurd (cc (rw (parse, short) at h))
      | inr long ↦ elim (Bool-cases (u16_at message 0 == txid)) [
        | inr other ↦ absurd (cc (rw (parse, long, other) at h))
        | inl same ↦ elim (Bool-cases (is_response (u16_at message 2))) [
          | inr query ↦ absurd (cc (rw (parse, long, same, query) at h))
          | inl response ↦
              let (offset, c, r) =
                >>=-eq-ok (check_question message (u16_at message 4) name qtype) _
                  (rw (parse, long, same, response) at h) in
              let (one, (asked, after, d, same_name, same_type, same_class, there)) =
                check_question-ok message (u16_at message 4) name qtype offset c in
              (
                record {
                  same_id = (==_iff (u16_at message 0) txid).0 same;
                  response = response;
                  one_question = one;
                  asked = asked;
                  question_end = after;
                  question = d;
                  same_name = same_name;
                  same_type = same_type;
                  same_class = same_class;
                },
                subst (λ o. IsJustified message name qtype o answer) there
                    (read_answer-ok message offset name qtype answer r),
              )
        ]
      ]
    ]
