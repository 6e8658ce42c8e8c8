-- ===== src/Dns/Trip.antt =====
-- A name that `_encode_name` of src/ssrfguard/resolvers.py encodes, read back by `_decode_name`.
use ssrfguard.Base.{
  ℕ, zero, suc, ◌+◌, ◌/◌, ◌≤◌, ◌≡◌, ◌≢◌, refl, ap, subst, ◌∙◌, inl, inr, true, false, ◌==◌, ltb,
  leb, List, [], ◌∷◌, ◌++◌, Option, none, some, Text, length, length-append, take, drop, split_on,
  onto_first, rstrip, is_ascii, ok, Bool-cases, Option-cases, List-cases, ==_iff, arith,
}
use mathlib.Core.List.{append_assoc, append-nil}
use ssrfguard.Dns.Names.{
  max_name_bytes, max_label_bytes, encode_labels, finish_name, encode_name, byte_at, slice, Cursor,
  or_else, dotted, goes_on, ends, taken, read_label, turn, decode_from, at_start, decode_fuel,
  decode_name,
}
use ssrfguard.Dns.Bounded.{wire_bytes}

-- Reading at the end of a prefix.
byte_at-append : (pre : Text) (b : ℕ) (rest : Text) → byte_at (pre ++ b ∷ rest) (length pre) ≡ b
byte_at-append [] b rest = refl
byte_at-append (x ∷ pre) b rest = byte_at-append pre b rest

drop-append : (pre : Text) (b : ℕ) (rest : Text) → drop (suc (length pre)) (pre ++ b ∷ rest) ≡ rest
drop-append [] b rest = refl
drop-append (x ∷ pre) b rest = drop-append pre b rest

take-append : (label rest : Text) → take (length label) (label ++ rest) ≡ label
take-append [] rest = refl
take-append (x ∷ label) rest = ap (λ l. x ∷ l) (take-append label rest)

split_on-nonempty : (c : ℕ) (t : Text) → split_on c t ≢ []
unfolding split_on
split_on-nonempty c [] h = absurd (cc)
split_on-nonempty c (x ∷ xs) h = elim (List-cases (split_on c xs)) [
  | inl e ↦ split_on-nonempty c xs e
  | inr (p, ps, e) ↦ ground arith
]

dotted-onto_first : (x : ℕ) (ps : List Text) → ps ≢ [] → dotted (onto_first x ps) ≡ x ∷ dotted ps
dotted-onto_first x [] h = absurd (h refl)
dotted-onto_first x (p ∷ []) h = refl
dotted-onto_first x (p ∷ (q ∷ more)) h = refl

dotted-cons : (ps : List Text) → ps ≢ [] → dotted ([] ∷ ps) ≡ b'.' ∷ dotted ps
dotted-cons [] h = absurd (h refl)
dotted-cons (p ∷ ps) h = refl

-- Joining undoes splitting.
pub dotted-split_on : (t : Text) → dotted (split_on b'.' t) ≡ t
unfolding split_on
dotted-split_on [] = refl
dotted-split_on (x ∷ xs) = elim (Bool-cases (x == b'.')) [
  | inl e ↦
      rw
        (
          e,
          dotted-cons (split_on b'.' xs) (split_on-nonempty b'.' xs),
          dotted-split_on xs,
          (==_iff x b'.').0 e,
        )
        refl
  | inr e ↦
      rw (e, dotted-onto_first x (split_on b'.' xs) (split_on-nonempty b'.' xs), dotted-split_on xs)
        refl
]

-- What encoding one label needs.
encode_labels-cons :
    (label : Text) (more : List Text) (bytes : Text)
    → encode_labels (label ∷ more) ≡ some bytes
    → (rest : Text) × (encode_labels more ≡ some rest)
      × (bytes ≡ length label ∷ (label ++ rest))
      × (is_ascii label ≡ true)
      × (1 ≤ length label)
      × (length label ≤ max_label_bytes)
unfolding encode_labels
encode_labels-cons [] more bytes h = ground arith
encode_labels-cons (x ∷ xs) more bytes h = elim (Option-cases (encode_labels more)) [
  | inl e ↦ ground arith
  | inr (rest, e) ↦ (rest, e, ground arith, ground arith, omega arith, ground arith)
]

encode_labels-length :
    (ls : List Text) (bytes : Text)
    → encode_labels ls ≡ some bytes
    → (length bytes ≡ wire_bytes ls) × (length ls ≤ wire_bytes ls)
unfolding encode_labels
encode_labels-length [] bytes h = let e : [] ≡ bytes = cc in rw (← e) (refl, omega arith)
encode_labels-length (l ∷ more) bytes h =
    let (rest, k, same, plain, some_left, few) = encode_labels-cons l more bytes h in
    let (x, y) = encode_labels-length more rest k in
    rw same (omega (arith, length-append l rest, x), omega (arith, y))

-- A short byte has neither of the two high bits.
high_clear : (n : ℕ) → n ≤ max_label_bytes → n / 64 ≡ 0
high_clear n h = omega arith

turn-plain :
    (message : Text) (c : Cursor) (n : ℕ)
    → suc c.offset ≤ length message
    → byte_at message c.offset ≡ n
    → n / 64 ≡ 0
    → turn message c ≡ read_label message c n
unfolding turn
turn-plain message c n inside here clear =
    let there : leb (length message) c.offset ≡ false = ground (arith, inside) in
    rw (turn, there, here, clear) refl

read_label-taken :
    (message : Text) (c : Cursor) (m : ℕ) (label : Text)
    → is_ascii label ≡ true
    → c.total + suc (suc m) ≤ max_name_bytes
    → suc c.offset + suc m ≤ length message
    → slice message (suc c.offset) (suc m) ≡ label
    → read_label message c (suc m) ≡ ok (goes_on (taken message c (suc m) label))
unfolding read_label
read_label-taken message c m label plain room inside text =
    let fits : ltb max_name_bytes (c.total + suc (suc m)) ≡ false = ground (arith, room) in
    let whole : ltb (length message) (suc c.offset + suc m) ≡ false = ground (arith, inside) in
    rw (read_label, fits, whole, text, plain) refl

module _ (pre rest : Text) (c : Cursor) (here : c.offset ≡ length pre) where
  turn-end : turn (pre ++ 0 ∷ rest) c ≡ ok (ends (dotted c.labels) (or_else c.after (suc c.offset)))
  unfolding turn read_label
  turn-end =
      let inside : leb (length (pre ++ 0 ∷ rest)) (length pre) ≡ false =
        ground (arith, length-append pre (0 ∷ rest)) in
      rw (turn, here, inside, byte_at-append pre 0 rest) refl

  turn-label :
      (label : Text)
      → is_ascii label ≡ true
      → 1 ≤ length label
      → length label ≤ max_label_bytes
      → c.total + suc (length label) ≤ max_name_bytes
      → turn (pre ++ length label ∷ (label ++ rest)) c
        ≡ ok (goes_on (taken (pre ++ length label ∷ (label ++ rest)) c (length label) label))
  unfolding turn read_label
  turn-label [] plain some_left few room = absurd (omega (arith, some_left))
  turn-label (x ∷ xs) plain some_left few room =
      let label = x ∷ xs in
      let message = pre ++ length label ∷ (label ++ rest) in
      let size : length message ≡ length pre + suc (length label + length rest) =
        omega
          (arith, length-append pre (length label ∷ (label ++ rest)), length-append label rest) in
      let text : slice message (suc (length pre)) (length label) ≡ label =
        rw (drop-append pre (length label) (label ++ rest)) (take-append label rest) in
      turn-plain message c (length label) (omega (arith, size, here))
        (rw here (byte_at-append pre (length label) (label ++ rest)))
        (high_clear (length label) few)
      ∙ read_label-taken message c (length xs) label plain room (omega (arith, size, here))
          (rw here text)

plus_zero : (n : ℕ) → n + 0 ≡ n
plus_zero n = omega arith

decode-step :
    (fuel : ℕ) (message : Text) (c next : Cursor)
    → turn message c ≡ ok (goes_on next)
    → decode_from (suc fuel) message c ≡ decode_from fuel message next
unfolding decode_from
decode-step fuel message c next h = rw (decode_from, h) refl

-- Decoding what was encoded, from a cursor that has read some labels already.
decode-labels :
    (ls : List Text) (bytes pre rest : Text) (c : Cursor) (fuel : ℕ)
    → encode_labels ls ≡ some bytes
    → c.offset ≡ length pre
    → c.after ≡ none
    → c.total + wire_bytes ls ≤ max_name_bytes
    → suc (length ls) ≤ fuel
    → decode_from fuel (pre ++ (bytes ++ 0 ∷ rest)) c
      ≡ ok (dotted (c.labels ++ ls), suc (length pre + length bytes))
unfolding encode_labels decode_from
decode-labels ls bytes pre rest c zero e here first room k = absurd (omega (arith, k))
decode-labels [] bytes pre rest c (suc fuel) e here first room k =
    let none_left : [] ≡ bytes = cc in
    rw
      (
        ← none_left,
        decode_from,
        turn-end pre rest c here,
        first,
        here,
        append-nil c.labels,
        plus_zero (length pre),
      )
      refl
decode-labels (l ∷ more) bytes pre rest c (suc fuel) e here first room k =
    let (later, h, same, plain, some_left, few) = encode_labels-cons l more bytes e in
    let tail = later ++ 0 ∷ rest in
    let next = taken (pre ++ length l ∷ (l ++ tail)) c (length l) l in
    let regroup : pre ++ (bytes ++ 0 ∷ rest) ≡ pre ++ length l ∷ (l ++ tail) =
      rw same (simp append_assoc) in
    let longer : (pre ++ length l ∷ l) ++ tail ≡ pre ++ length l ∷ (l ++ tail) =
      simp append_assoc in
    let place : length (pre ++ length l ∷ l) + length later ≡ length pre + length bytes =
      rw same (omega (arith, length-append pre (length l ∷ l), length-append l later)) in
    let rest_of : decode_from fuel (pre ++ length l ∷ (l ++ tail)) next
        ≡ ok (
          dotted ((c.labels ++ l ∷ []) ++ more),
          suc (length (pre ++ length l ∷ l) + length later),
        ) =
      subst
        (λ m.
          decode_from fuel m next
          ≡ ok (
            dotted ((c.labels ++ l ∷ []) ++ more),
            suc (length (pre ++ length l ∷ l) + length later),
          ))
        longer
        (decode-labels more later (pre ++ length l ∷ l) rest next fuel h
          (omega (arith, here, length-append pre (length l ∷ l))) first (omega (arith, room))
          (omega (arith, k))) in
    let step : decode_from (suc fuel) (pre ++ length l ∷ (l ++ tail)) c
        ≡ decode_from fuel (pre ++ length l ∷ (l ++ tail)) next =
      decode-step fuel _ c next
        (turn-label pre tail c here l plain some_left few (omega (arith, room))) in
    ap (λ m. decode_from (suc fuel) m c) regroup
    ∙ step
    ∙ rest_of
    ∙ ap (λ ls. ok (dotted ls, suc (length (pre ++ length l ∷ l) + length later)))
        (append_assoc c.labels (l ∷ []) more)
    ∙ ap (λ n. ok (dotted (c.labels ++ l ∷ more), suc n)) place

finish_name-some :
    (o : Option Text) (bytes : Text)
    → finish_name o ≡ some bytes
    → (out : Text) × (o ≡ some out) × (bytes ≡ out ++ 0 ∷ []) × (suc (length out) ≤ max_name_bytes)
finish_name-some none bytes h = absurd (cc)
finish_name-some (some out) bytes h =
    (out, refl, ground arith, ground (arith, length-append out (0 ∷ [])))

-- A name that `_encode_name` accepts is read back from wherever its bytes stand in a message:
-- `_decode_name` gives the name without its trailing dots and the offset after the bytes.
pub decode_name-encode_name :
    (name bytes pre rest : Text)
    → encode_name name ≡ some bytes
    → decode_name (pre ++ (bytes ++ rest)) (length pre)
      ≡ ok (rstrip b'.' name, length pre + length bytes)
unfolding encode_name decode_name
decode_name-encode_name name bytes pre rest h =
    let stripped = rstrip b'.' name in
    let labels = split_on b'.' stripped in
    let encoded : finish_name (encode_labels labels) ≡ some bytes = ground arith in
    let (out, e, same, short) = finish_name-some (encode_labels labels) bytes encoded in
    let (size, few) = encode_labels-length labels out e in
    let read =
      decode-labels labels out pre rest (at_start (length pre)) decode_fuel e refl refl
        (omega (arith, size, short)) (omega (arith, size, short, few)) in
    let regroup : pre ++ (bytes ++ rest) ≡ pre ++ (out ++ 0 ∷ rest) = rw same (simp append_assoc) in
    let size_of : suc (length pre + length out) ≡ length pre + length bytes =
      rw same (omega (arith, length-append out (0 ∷ []))) in
    ap (λ m. decode_name m (length pre)) regroup
    ∙ read
    ∙ ap (λ t. ok (t, suc (length pre + length out))) (dotted-split_on stripped)
    ∙ ap (λ n. ok (stripped, n)) size_of
