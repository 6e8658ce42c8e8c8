-- ===== src/Net/Parse.antt =====
-- `ipaddress.ip_address` on text: strict dotted quads, and IPv6 with `::`, an IPv4 tail and a zone.
-- It is what src/ssrfguard/_policy.py asks of a host, and _resolve.py of an answer.
use ssrfguard.Base.{
  ℕ, ◌+◌, ◌*◌, ◌-◌, ◌/◌, ◌%◌, ◌^◌, ◌≡◌, refl, Bool, true, false, not, ◌&&◌, ◌||◌, leb, ltb, ◌==◌,
  List, [], ◌∷◌, Option, none, some, Text, codes, is_digit, has_char, split_on, partition, all,
  length, take, drop, if◌then◌else◌,
}
use ssrfguard.Net.{IpAddress, v4, v6}

infixl 5 ◌>>=◌
abbrev pub ◌>>=◌ {ℓ κ} : {A : Type ℓ} {B : Type κ} → Option A → (A → Option B) → Option B
none >>= f = none
some a >>= f = f a

abbrev pub require {ℓ} : {A : Type ℓ} → Bool → Option A → Option A
require true a = a
require false a = none

-- `int(text, 10)` on digits
abbrev pub decimal_from : ℕ → Text → ℕ
decimal_from acc [] = acc
decimal_from acc (c ∷ cs) = decimal_from (acc * 10 + (c - b'0')) cs

abbrev pub decimal : Text → ℕ
decimal t = decimal_from 0 t

abbrev pub is_nil {ℓ} : {A : Type ℓ} → List A → Bool
is_nil [] = true
is_nil (_ ∷ _) = false

abbrev leading_zero : Text → Bool
leading_zero [] = false
leading_zero (c ∷ []) = false
leading_zero (c ∷ (_ ∷ _)) = c == b'0'

-- `_parse_octet`
unfoldable pub parse_octet : Text → Option ℕ
parse_octet t =
    if not (is_nil t)
      && (all is_digit t && (leb (length t) 3 && (not (leading_zero t) && leb (decimal t) 255)))
    then some (decimal t)
    else none

unfoldable pub quad : List Text → Option ℕ
unfolding parse_octet
quad (a ∷ b ∷ c ∷ d ∷ []) = do
  p ← parse_octet a
  q ← parse_octet b
  r ← parse_octet c
  s ← parse_octet d
  some (((p * 256 + q) * 256 + r) * 256 + s)
quad _ = none

-- `IPv4Address(text)`, as a number
unfoldable pub parse_v4 : Text → Option ℕ
unfolding quad split_on
parse_v4 t = quad (split_on b'.' t)

-- A part of an IPv6 text: written out, or a half of an IPv4 tail.
pub data Part : Type 0 where
  written : Text → Part
  half : ℕ → Part

abbrev is_empty : Part → Bool
is_empty (written t) = is_nil t
is_empty (half n) = false

abbrev is_hex : ℕ → Bool
is_hex c = is_digit c || ((leb b'a' c && leb c b'f') || (leb b'A' c && leb c b'F'))

abbrev hex_value : ℕ → ℕ
hex_value c = if is_digit c then c - b'0' else if leb b'a' c then c - b'a' + 10 else c - b'A' + 10

hex_from : ℕ → Text → ℕ
hex_from acc [] = acc
hex_from acc (c ∷ cs) = hex_from (acc * 16 + hex_value c) cs

-- `_parse_hextet`
parse_hextet : Part → Option ℕ
unfolding hex_from
parse_hextet (half n) = some n
parse_hextet (written t) =
    if not (is_nil t) && (all is_hex t && leb (length t) 4) then some (hex_from 0 t) else none

hextets : ℕ → List Part → Option ℕ
unfolding parse_hextet
hextets acc [] = some acc
hextets acc (p ∷ ps) = elim (parse_hextet p) [ none ↦ none | some h ↦ hextets (acc * 65536 + h) ps ]

-- `parts`, its last one replaced by two halves if it is an IPv4 tail
parts_of : List Text → Option (List Part)
parts_of [] = some []
parts_of (t ∷ []) =
    if has_char b'.' t
    then (parse_v4 t >>= λ n. some (half (n / 65536) ∷ half (n % 65536) ∷ []))
    else some (written t ∷ [])
parts_of (t ∷ (u ∷ us)) = do rest ← parts_of (u ∷ us); some (written t ∷ rest)

-- The positions, from `i`, of the empty parts before the last one.
empties_from : ℕ → List Part → List ℕ
empties_from i [] = []
empties_from i (p ∷ []) = []
empties_from i (p ∷ (q ∷ qs)) =
    let rest = empties_from (i + 1) (q ∷ qs) in if is_empty p then i ∷ rest else rest

abbrev first_empty : List Part → Bool
first_empty [] = false
first_empty (p ∷ ps) = is_empty p

last_empty : List Part → Bool
last_empty [] = false
last_empty (p ∷ []) = is_empty p
last_empty (p ∷ (q ∷ qs)) = last_empty (q ∷ qs)

-- With `::` at position `skip`: `parts_hi` from the left, `parts_lo` from the right.
with_skip : ℕ → List Part → Option ℕ
unfolding last_empty hextets
with_skip skip ps =
    let count = length ps in
    let hi = if first_empty ps then skip - 1 else skip in
    let lo = if last_empty ps then count - skip - 1 - 1 else count - skip - 1 in
    require (not (first_empty ps) || hi == 0) (
      require (not (last_empty ps) || lo == 0) (
        require (ltb (hi + lo) 8) (
          hextets 0 (take hi ps) >>= λ high.
          hextets (high * 65536 ^ (8 - (hi + lo))) (drop (count - lo) ps))))

interior : List Part → List ℕ
unfolding empties_from
interior [] = []
interior (p ∷ ps) = empties_from 1 ps

number_of : List Part → Option ℕ
unfolding interior with_skip
number_of ps = elim (interior ps) [
  | [] ↦ require (length ps == 8 && (not (first_empty ps) && not (last_empty ps))) (hextets 0 ps)
  | i ∷ is ↦ elim is [ [] ↦ with_skip i ps | _ ∷ _ ↦ none ]
]

-- `IPv6Address._ip_int_from_string`
unfoldable pub parse_v6_number : Text → Option ℕ
unfolding parts_of parse_v4 number_of split_on
parse_v6_number t =
    let fields = split_on b':' t in
    require (leb 3 (length fields))
      (parts_of fields >>= λ ps. require (leb (length ps) 9) (number_of ps))

-- `IPv6Address(text)`: the zone, when there is one, is not empty and holds no '%'
unfoldable pub parse_v6 : Text → Option IpAddress
unfolding parse_v6_number partition
parse_v6 t =
    let split = partition b'%' t in
    require (not (has_char b'/' t)) (
      require (not split.found || (not (is_nil split.after) && not (has_char b'%' split.after)))
        (parse_v6_number split.before >>= λ n. some (v6 n split.after)))

-- `ip_address(text)`: none where it raises `ValueError`
unfoldable pub ip_address : Text → Option IpAddress
unfolding parse_v4 parse_v6
ip_address t = elim (parse_v4 t) [ some n ↦ some (v4 n) | none ↦ parse_v6 t ]

loopback : ip_address (codes "127.0.0.1") ≡ some (v4 0x7f000001)
unfolding ip_address
loopback = refl

wrapped : ip_address (codes "64:ff9b::7f00:1") ≡ some (v6 0x64ff9b00000000000000007f000001 [])
unfolding ip_address
wrapped = refl

tail_of_quad : ip_address (codes "::ffff:10.0.0.1%eth0") ≡ some (v6 0xffff0a000001 (codes "eth0"))
unfolding ip_address
tail_of_quad = refl

octal : ip_address (codes "0177.0.0.1") ≡ none
unfolding ip_address
octal = refl

short_form : ip_address (codes "127.1") ≡ none
unfolding ip_address
short_form = refl

unspecified : ip_address (codes "::") ≡ some (v6 0 [])
unfolding ip_address
unspecified = refl
