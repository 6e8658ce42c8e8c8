-- ===== src/Dns/Names.antt =====
-- `_encode_name`, `_decode_name`, `_follow_pointer` and `_label_text` of src/ssrfguard/resolvers.py.
-- A message is the list of its bytes.
use ssrfguard.Base.{
  ℕ, zero, suc, ◌+◌, ◌*◌, ◌/◌, ◌%◌, Bool, true, false, not, ◌||◌, ◌==◌, ltb, leb, List, [], ◌∷◌,
  ◌++◌, Option, none, some, Text, length, take, drop, split_on, rstrip, is_ascii, Result, ok, raise,
  ◌>>=◌, if◌then◌else◌,
}

-- What reading a message can raise. `_decode_name` never raises `out_of_fuel`.
pub data WireError : Type 0 where
  malformed wrong_question server_failure out_of_fuel : WireError

abbrev pub max_name_bytes : ℕ
max_name_bytes = 255

abbrev pub max_label_bytes : ℕ
max_label_bytes = 63

abbrev pub max_jumps : ℕ
max_jumps = 64

abbrev pub is_empty : Text → Bool
is_empty [] = true
is_empty (_ ∷ _) = false

-- The loop of `_encode_name` over the labels; `none` is its `ValueError`.
unfoldable pub encode_labels : List Text → Option Text
encode_labels [] = some []
encode_labels (label ∷ more) =
    let rest = encode_labels more in
    if not (is_ascii label) || (is_empty label || ltb max_label_bytes (length label))
    then none
    else elim rest [ none ↦ none | some bytes ↦ some (length label ∷ (label ++ bytes)) ]

abbrev pub finish_name : Option Text → Option Text
finish_name none = none
finish_name (some out) =
    let whole = out ++ 0 ∷ [] in if ltb max_name_bytes (length whole) then none else some whole

-- `_encode_name`
unfoldable pub encode_name : Text → Option Text
encode_name name =
    let stripped = rstrip b'.' name in
    if is_empty stripped then none else finish_name (encode_labels (split_on b'.' stripped))

-- `message[offset]`. It is total, and gives 0 past the end, where the source raises: every read below comes
-- after the test of the source that the message is long enough.
abbrev pub byte_at : Text → ℕ → ℕ
byte_at [] n = 0
byte_at (b ∷ bs) zero = b
byte_at (b ∷ bs) (suc n) = byte_at bs n

-- A big-endian number of two bytes, and of four.
abbrev pub u16_at : Text → ℕ → ℕ
u16_at message offset = byte_at message offset * 256 + byte_at message (offset + 1)

abbrev pub u32_at : Text → ℕ → ℕ
u32_at message offset = u16_at message offset * 65536 + u16_at message (offset + 2)

-- `message[offset : offset + length]`
abbrev pub slice : Text → ℕ → ℕ → Text
slice message offset n = take n (drop offset message)

-- The variables of the loop of `_decode_name`.
pub record Cursor : Type 0 where
  pub offset : ℕ
  pub labels : List Text
  pub total : ℕ
  pub jumps : ℕ
  pub after : Option ℕ

abbrev pub or_else : Option ℕ → ℕ → ℕ
or_else none d = d
or_else (some n) d = n

-- `_follow_pointer`
unfoldable pub follow_pointer : Text → Cursor → Result WireError Cursor
follow_pointer message c =
    if leb (length message) (c.offset + 1)
    then raise malformed
    else if leb max_jumps c.jumps
    then raise malformed
    else let target = u16_at message c.offset % 16384 in
      if leb (length message) target
      then raise malformed
      else ok (record c {
        offset = target;
        jumps = suc c.jumps;
        after = some (or_else c.after (c.offset + 2));
      })

-- `_label_text`
abbrev pub label_text : Text → Result WireError Text
label_text raw = if is_ascii raw then ok raw else raise malformed

-- `".".join(labels)`
abbrev pub dotted : List Text → Text
dotted [] = []
dotted (l ∷ []) = l
dotted (l ∷ (m ∷ more)) = l ++ b'.' ∷ dotted (m ∷ more)

-- What one turn of the loop does: goes on, or ends with the name and the offset after it.
pub data Turn : Type 0 where
  goes_on : Cursor → Turn
  ends : Text → ℕ → Turn

abbrev pub taken : Text → Cursor → ℕ → Text → Cursor
taken message c n label = record c {
  offset = suc c.offset + n;
  labels = c.labels ++ label ∷ [];
  total = c.total + suc n;
}

-- The body of the loop, from the length of a plain label on.
unfoldable pub read_label : Text → Cursor → ℕ → Result WireError Turn
read_label message c zero = ok (ends (dotted c.labels) (or_else c.after (suc c.offset)))
read_label message c (suc m) =
    if ltb max_name_bytes (c.total + suc (suc m))
    then raise malformed
    else if ltb (length message) (suc c.offset + suc m)
    then raise malformed
    else (do
      label ← label_text (slice message (suc c.offset) (suc m))
      ok (goes_on (taken message c (suc m) label)))

-- The body of the loop of `_decode_name`.
unfoldable pub turn : Text → Cursor → Result WireError Turn
turn message c =
    if leb (length message) c.offset
    then raise malformed
    else let high = byte_at message c.offset / 64 in
      if high == 3
      then (do next ← follow_pointer message c; ok (goes_on next))
      else if not (high == 0)
      then raise malformed
      else read_label message c (byte_at message c.offset)

-- The loop of `_decode_name`.
unfoldable pub decode_from : ℕ → Text → Cursor → Result WireError (Text × ℕ)
decode_from zero message c = raise out_of_fuel
decode_from (suc fuel) message c = elim (turn message c) [
  | raise e ↦ raise e
  | ok (ends name after) ↦ ok (name, after)
  | ok (goes_on next) ↦ decode_from fuel message next
]

abbrev pub at_start : ℕ → Cursor
at_start offset = record { offset = offset; labels = []; total = 0; jumps = 0; after = none }

-- One turn for each pointer, one for each byte of a name, and one more.
abbrev pub decode_fuel : ℕ
decode_fuel = 320

-- `_decode_name`
unfoldable pub decode_name : Text → ℕ → Result WireError (Text × ℕ)
decode_name message offset = decode_from decode_fuel message (at_start offset)
