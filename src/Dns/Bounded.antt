-- ===== src/Dns/Bounded.antt =====
-- The decoding of names in src/ssrfguard/resolvers.py, on bytes that the sender chose.
use ssrfguard.Base.{
  ℕ, zero, suc, ◌+◌, ◌-◌, ◌≤◌, ◌≡◌, refl, ◌⊎◌, inl, inr, true, List, [], ◌∷◌, ◌++◌, Option, none,
  some, Text, length, drop, all, is_ascii, Result, ok, raise, ok-injective, length-append,
  length-take-le, all-append, split_and, arith,
}
use ssrfguard.Dns.Names.{
  WireError, dotted, or_else, slice, taken, malformed, max_name_bytes, max_jumps, byte_at, Cursor,
  follow_pointer, Turn, goes_on, ends, read_label, turn, decode_from, at_start, decode_fuel,
  decode_name,
}

-- What following a pointer and reading a label need, and what they change.
pub follow_pointer-ok :
    (message : Text) (c next : Cursor)
    → follow_pointer message c ≡ ok next
    → (suc c.jumps ≤ max_jumps)
      × (c.offset + 2 ≤ length message)
      × (suc next.offset ≤ length message)
      × (next ≡ record c {
        offset = next.offset;
        jumps = suc c.jumps;
        after = some (or_else c.after (c.offset + 2));
      })
unfolding follow_pointer
follow_pointer-ok message c next h = ground arith

pub read_label-ok :
    (message : Text) (c next : Cursor) (m : ℕ)
    → read_label message c (suc m) ≡ ok (goes_on next)
    → (is_ascii (slice message (suc c.offset) (suc m)) ≡ true)
      × (c.total + suc (suc m) ≤ max_name_bytes)
      × (suc c.offset + suc m ≤ length message)
      × (next ≡ taken message c (suc m) (slice message (suc c.offset) (suc m)))
unfolding read_label
read_label-ok message c next m h = ground arith

read_label-done :
    (message : Text) (c : Cursor) (n : ℕ) (name : Text) (after : ℕ)
    → read_label message c n ≡ ok (ends name after)
    → (n ≡ 0) × (name ≡ dotted c.labels) × (after ≡ or_else c.after (suc c.offset))
unfolding read_label
read_label-done message c zero name after h = ground arith
read_label-done message c (suc m) name after h = ground arith

read_label-raise :
    (message : Text) (c : Cursor) (n : ℕ) (e : WireError)
    → read_label message c n ≡ raise e
    → e ≡ malformed
unfolding read_label
read_label-raise message c zero e h = absurd (cc)
read_label-raise message c (suc m) e h = ground arith

-- The bytes that labels take on the wire.
abbrev pub wire_bytes : List Text → ℕ
wire_bytes [] = 0
wire_bytes (l ∷ more) = suc (length l) + wire_bytes more

wire_bytes-append : (xs ys : List Text) → wire_bytes (xs ++ ys) ≡ wire_bytes xs + wire_bytes ys
wire_bytes-append [] ys = omega arith
wire_bytes-append (x ∷ xs) ys = omega (arith, wire_bytes-append xs ys)

dotted-length : (ls : List Text) → length (dotted ls) ≤ wire_bytes ls - 1
dotted-length [] = omega arith
dotted-length (l ∷ []) = omega arith
dotted-length (l ∷ (m ∷ more)) =
    omega (arith, length-append l (b'.' ∷ dotted (m ∷ more)), dotted-length (m ∷ more))

dotted-is_ascii : (ls : List Text) → all is_ascii ls ≡ true → is_ascii (dotted ls) ≡ true
dotted-is_ascii [] h = refl
dotted-is_ascii (l ∷ []) h = ground arith
dotted-is_ascii (l ∷ (m ∷ more)) h =
    let (first, rest) = split_and (is_ascii l) (all is_ascii (m ∷ more)) h in
    all-append _ l (b'.' ∷ dotted (m ∷ more)) first (dotted-is_ascii (m ∷ more) rest)

-- The turns that a cursor has left.
measure : Cursor → ℕ
measure c = (max_name_bytes - c.total) + (max_jumps - c.jumps)

-- What holds of a cursor at every turn of the loop.
record IsSound (message : Text) (c : Cursor) : Type 0 where
  short : c.total ≤ max_name_bytes
  counted : wire_bytes c.labels ≤ c.total
  ascii : all is_ascii c.labels ≡ true
  inside : or_else c.after 0 ≤ length message
  few_jumps : c.jumps ≤ max_jumps

turn-cases :
    (message : Text) (c : Cursor)
    → (turn message c ≡ raise malformed)
      ⊎ ((next : Cursor) × (follow_pointer message c ≡ ok next)
          × (turn message c ≡ ok (goes_on next)))
      ⊎ ((suc c.offset ≤ length message)
          × (turn message c ≡ read_label message c (byte_at message c.offset)))
unfolding turn follow_pointer
turn-cases message c = ground arith

or_else-le : (o : Option ℕ) (d n : ℕ) → or_else o 0 ≤ n → d ≤ n → or_else o d ≤ n
or_else-le none d n h k = k
or_else-le (some a) d n h k = h

follow_pointer-IsSound :
    (message : Text) (c next : Cursor)
    → IsSound message c
    → follow_pointer message c ≡ ok next
    → IsSound message next × (suc (measure next) ≤ measure c)
unfolding follow_pointer measure
follow_pointer-IsSound message c next s h =
    let (few, room, there, same) = follow_pointer-ok message c next h in
    let bound : or_else c.after (c.offset + 2) ≤ length message =
      or_else-le c.after (c.offset + 2) (length message) s.inside room in
    rw same (
      record {
        short = s.short;
        counted = s.counted;
        ascii = s.ascii;
        inside = bound;
        few_jumps = few;
      },
      omega (arith, few),
    )

read_label-IsSound :
    (message : Text) (c next : Cursor) (n : ℕ)
    → IsSound message c
    → read_label message c n ≡ ok (goes_on next)
    → IsSound message next × (suc (measure next) ≤ measure c)
unfolding read_label measure
read_label-IsSound message c next zero s h = absurd (cc (ok-injective h))
read_label-IsSound message c next (suc m) s h =
    let label = slice message (suc c.offset) (suc m) in
    let (plain, few, room, same) = read_label-ok message c next m h in
    rw same (
      record {
        short = few;
        counted = omega (
          arith,
          wire_bytes-append c.labels (label ∷ []),
          s.counted,
          length-take-le (suc m) (drop (suc c.offset) message),
        );
        ascii = all-append is_ascii c.labels (label ∷ []) s.ascii (simp plain);
        inside = s.inside;
        few_jumps = s.few_jumps;
      },
      omega (arith, few),
    )

-- The names that decoding can give, and the offsets after them.
abbrev pub IsDecoded : Text → Result WireError (Text × ℕ) → Type 0
IsDecoded message (raise e) = e ≡ malformed
IsDecoded message (ok (name, after)) =
    (length name ≤ max_name_bytes - 1) × (is_ascii name ≡ true) × (after ≤ length message)

Turn-cases :
    (r : Result WireError Turn)
    → ((e : WireError) × (r ≡ raise e))
      ⊎ ((next : Cursor) × (r ≡ ok (goes_on next)))
      ⊎ ((name : Text) × (after : ℕ) × (r ≡ ok (ends name after)))
Turn-cases (raise e) = inl (e, refl)
Turn-cases (ok (goes_on next)) = inr (inl (next, refl))
Turn-cases (ok (ends name after)) = inr (inr (name, after, refl))

decode_from-IsDecoded :
    (fuel : ℕ) (message : Text) (c : Cursor)
    → IsSound message c
    → suc (measure c) ≤ fuel
    → IsDecoded message (decode_from fuel message c)
unfolding decode_from measure
decode_from-IsDecoded zero message c s k = absurd (omega (arith, k))
decode_from-IsDecoded (suc fuel) message c s k = elim (turn-cases message c) [
  | inl e ↦ rw (decode_from, e) refl
  | inr (inl (next, h, e)) ↦
      let (sound, less) = follow_pointer-IsSound message c next s h in
      rw (decode_from, e) (decode_from-IsDecoded fuel message next sound (omega (arith, less, k)))
  | inr (inr (there, e)) ↦ elim (Turn-cases (read_label message c (byte_at message c.offset))) [
    | inl (w, r) ↦
        rw (decode_from, e, r) (read_label-raise message c (byte_at message c.offset) w r)
    | inr (inl (next, r)) ↦
        let (sound, less) = read_label-IsSound message c next (byte_at message c.offset) s r in
        rw (decode_from, e, r)
          (decode_from-IsDecoded fuel message next sound (omega (arith, less, k)))
    | inr (inr (name, after, r)) ↦
        let (zero_length, same, offset) =
          read_label-done message c (byte_at message c.offset) name after r in
        rw (decode_from, e, r, same, offset)
          (
            omega (arith, dotted-length c.labels, s.counted, s.short),
            dotted-is_ascii c.labels s.ascii,
            or_else-le c.after (suc c.offset) (length message) s.inside there,
          )
  ]
]

-- Whatever bytes a message has and wherever decoding starts, `_decode_name` ends: it raises
-- `_MalformedError`, or it gives an ASCII name of at most 254 characters and an offset that is not
-- outside the message. In particular the fuel suffices.
pub decode_name-IsDecoded :
    (message : Text) (offset : ℕ) → IsDecoded message (decode_name message offset)
unfolding decode_name measure
decode_name-IsDecoded message offset =
    decode_from-IsDecoded decode_fuel message (at_start offset)
      (record {
        short = omega arith;
        counted = omega arith;
        ascii = refl;
        inside = omega arith;
        few_jumps = omega arith;
      })
      (omega arith)
