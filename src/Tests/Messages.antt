-- ===== src/Tests/Messages.antt =====
-- A name on the wire, and a response to a question.
use ssrfguard.Base.{
  ℕ, ◌+◌, ◌≡◌, ◌≢◌, refl, Bool, true, false, List, [], ◌∷◌, ◌++◌, Option, none, some, codes, Text,
  length, rstrip, Result, ok, raise,
}
use ssrfguard.Net.{v4}
use ssrfguard.Dns.Names.{encode_name, decode_name, out_of_fuel}
use ssrfguard.Dns.Bounded.{IsDecoded, decode_name-IsDecoded}
use ssrfguard.Dns.Trip.{decode_name-encode_name}
use ssrfguard.Dns.Reply.{Answer, parse}
use ssrfguard.Dns.Accepted.{IsEcho, IsJustified, parse-IsEcho}

-- A pointer to itself.
decode_name-IsDecoded_example : IsDecoded (192 ∷ (0 ∷ [])) (decode_name (192 ∷ (0 ∷ [])) 0)
decode_name-IsDecoded_example = decode_name-IsDecoded (192 ∷ (0 ∷ [])) 0

abbrev pub wire : Text
wire = 1 ∷ (b'a' ∷ (2 ∷ (b'b' ∷ (b'c' ∷ (0 ∷ [])))))

encodes : encode_name (codes "a.bc.") ≡ some wire
unfolding encode_name rstrip ssrfguard.Dns.Names.encode_labels ssrfguard.Base.split_on
encodes = refl

decode_name-encode_name_example :
    decode_name (7 ∷ [] ++ (wire ++ 9 ∷ [])) (length {A = ℕ} (7 ∷ []))
    ≡ ok (rstrip b'.' (codes "a.bc."), length {A = ℕ} (7 ∷ []) + length wire)
decode_name-encode_name_example =
    decode_name-encode_name (codes "a.bc.") wire (7 ∷ []) (9 ∷ []) encodes

-- A response to the question for the address of `a.bc`: an alias to `d`, which has the address
-- 1.2.3.4, and a row of another owner.
abbrev pub header : Text
header = 0 ∷ (5 ∷ (0x81 ∷ (0x80 ∷ (0 ∷ (1 ∷ (0 ∷ (3 ∷ (0 ∷ (0 ∷ (0 ∷ (0 ∷ [])))))))))))

abbrev pub question : Text
question = wire ++ 0 ∷ (1 ∷ (0 ∷ (1 ∷ [])))

abbrev pub alias : Text
alias =
    192 ∷ (12 ∷ (0 ∷ (5 ∷ (0 ∷ (1 ∷ (0 ∷ (0 ∷ (0 ∷ (9 ∷ (0 ∷ (3 ∷ (1 ∷ (b'd' ∷ (0 ∷ []))))))))))))))

abbrev pub address_row : ℕ → ℕ → Text
address_row c d =
    1
    ∷ (c
        ∷ (0
            ∷ (0
                ∷ (1
                    ∷ (0 ∷ (1 ∷ (0 ∷ (0 ∷ (0 ∷ (9 ∷ (0 ∷ (4 ∷ (1 ∷ (2 ∷ (3 ∷ (d ∷ []))))))))))))))))

abbrev pub response : Text
response = header ++ (question ++ (alias ++ (address_row b'x' 9 ++ address_row b'd' 4)))

abbrev pub answer : Answer
answer = record { records = record { ip = v4 0x01020304; ttl = 9 } ∷ []; truncated = false }

parses : parse response 5 (codes "A.bc") 1 ≡ ok answer
unfolding parse ssrfguard.Dns.Reply.check_question decode_name ssrfguard.Dns.Names.decode_from
    ssrfguard.Dns.Names.turn ssrfguard.Dns.Names.read_label ssrfguard.Base.text_eq
    ssrfguard.Base.lower ssrfguard.Dns.Reply.read_answer ssrfguard.Dns.Reply.read_rows
    ssrfguard.Dns.Reply.read_record ssrfguard.Dns.Names.follow_pointer ssrfguard.Dns.Reply.use_of
    ssrfguard.Dns.Reply.address_from
parses = refl

parse-IsEcho_example :
    (echo : IsEcho response 5 (codes "A.bc") 1) × IsJustified response
      (codes "A.bc")
      1
      (echo.question_end + 4)
      answer
parse-IsEcho_example = parse-IsEcho response 5 (codes "A.bc") 1 answer parses
