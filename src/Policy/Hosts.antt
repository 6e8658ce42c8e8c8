-- ===== src/Policy/Hosts.antt =====
-- The host rules of src/ssrfguard/_policy.py: normalisation, the shapes of a host, and the
-- patterns of `allowed_hosts`.
use ssrfguard.Base.{
  ℕ, Bool, true, false, not, ◌&&◌, ◌||◌, ◌==◌, leb, ltb, List, [], ◌∷◌, ◌++◌, Option, none, some,
  Text, codes, text_eq, is_digit, is_lower, is_upper, is_ascii, has_char, lower, split_on,
  partition, starts_with, ends_with, rstrip, remove_prefix, all, any, length, Result, ok, raise,
  if◌then◌else◌,
}
use ssrfguard.Net.{IpAddress}
use ssrfguard.Net.Parse.{ip_address}
use ssrfguard.Net.Shape.{is_digit_or_dot}
use ssrfguard.Errors.{verbatim, host_of_length, unusable_name, longer_than, Refusal, blocked_url}
use ssrfguard.Policy.Platform.{Platform}

abbrev pub longest_hostname : ℕ
longest_hostname = 253

-- `_reject_overlong_host`
unfoldable pub reject_overlong_host : Text → Result Refusal (Unit {0})
reject_overlong_host host =
    if ltb longest_hostname (length host)
    then raise (blocked_url (host_of_length (length host)) (longer_than longest_hostname))
    else ok tt

-- `_normalise`
unfoldable pub normalise : Platform → Text → Text → Result Refusal Text
unfolding lower
normalise py url host = if is_ascii host then ok (lower host) else elim (py.idna host) [
  | some encoded ↦ ok (lower encoded)
  | none ↦ raise (blocked_url (verbatim url) (unusable_name host))
]

-- `_literal_address`
abbrev pub literal_address : Text → Option IpAddress
literal_address host = ip_address host

abbrev pub is_nil : Text → Bool
is_nil [] = true
is_nil (_ ∷ _) = false

-- A `$` also matches before one newline at the end.
unfoldable pub before_newline : Text → Text
before_newline [] = []
before_newline (c ∷ []) = if c == 10 then [] else c ∷ []
before_newline (c ∷ (d ∷ ds)) = c ∷ before_newline (d ∷ ds)

-- `_NUMERIC_SHAPED.match`
unfoldable pub numeric_shaped : Text → Bool
unfolding before_newline
numeric_shaped host =
    let body = before_newline host in not (is_nil body) && all is_digit_or_dot body

-- `[a-z0-9]` and `[a-z0-9-]`, whatever the case
abbrev is_alnum : ℕ → Bool
is_alnum c = is_digit c || (is_lower c || is_upper c)

abbrev is_label_char : ℕ → Bool
is_label_char c = is_alnum c || c == b'-'

abbrev last_is : (ℕ → Bool) → Text → Bool
last_is p [] = false
last_is p (c ∷ []) = p c
last_is p (c ∷ (d ∷ ds)) = last_is p (d ∷ ds)

abbrev first_is : (ℕ → Bool) → Text → Bool
first_is p [] = false
first_is p (c ∷ _) = p c

-- `[a-z0-9](?:[a-z0-9-]{0,61}[a-z0-9])?`
abbrev is_inner_label : Text → Bool
is_inner_label t =
    first_is is_alnum t && (last_is is_alnum t && (all is_label_char t && leb (length t) 63))

-- `[a-z0-9-]{1,63}`
abbrev is_last_label : Text → Bool
is_last_label t = not (is_nil t) && (all is_label_char t && leb (length t) 63)

well_formed_labels : List Text → Bool
well_formed_labels [] = false
well_formed_labels (l ∷ []) = is_last_label l
well_formed_labels (l ∷ (m ∷ ms)) = is_inner_label l && well_formed_labels (m ∷ ms)

drop_last_dot : Text → Text
drop_last_dot [] = []
drop_last_dot (c ∷ []) = if c == b'.' then [] else c ∷ []
drop_last_dot (c ∷ (d ∷ ds)) = c ∷ drop_last_dot (d ∷ ds)

-- `_HOSTNAME.match`: one dot at the end is optional, and no label holds a dot
unfoldable pub well_formed_hostname : Text → Bool
unfolding before_newline drop_last_dot well_formed_labels split_on
well_formed_hostname host = well_formed_labels (split_on b'.' (drop_last_dot (before_newline host)))

-- The patterns of `allowed_hosts`.

-- `str.isspace`
abbrev pub is_space : ℕ → Bool
is_space c =
    (leb 9 c && leb c 13)
    || ((leb 28 c && leb c 32)
        || (c == 0x85
            || (c == 0xa0
                || (c == 0x1680
                    || ((leb 0x2000 c && leb c 0x200a)
                        || (c == 0x2028
                            || (c == 0x2029 || (c == 0x202f || (c == 0x205f || c == 0x3000)))))))))

-- `str.strip()`
lstrip_space : Text → Text
lstrip_space [] = []
lstrip_space (c ∷ cs) = let rest = lstrip_space cs in if is_space c then rest else c ∷ cs

rstrip_space : Text → Text
rstrip_space [] = []
rstrip_space (c ∷ cs) = elim (rstrip_space cs) [
  | [] ↦ if is_space c then [] else c ∷ []
  | d ∷ ds ↦ c ∷ (d ∷ ds)
]

abbrev pub star_dot : Text
star_dot = codes "*."

-- One pattern as `_as_host_patterns` keeps it; `none` where it raises `ValueError`.
unfoldable pub as_host_pattern : Platform → Text → Option Text
unfolding lstrip_space rstrip_space rstrip partition normalise text_eq
as_host_pattern py pattern =
    let entry = rstrip b'.' (rstrip_space (lstrip_space pattern)) in
    let p = partition b'.' entry in
    let wild = text_eq p.before (codes "*") in
    if is_nil entry
    then none
    else if has_char b'*' p.after || (has_char b'*' p.before && not wild)
    then none
    else if wild && is_nil p.after
    then none
    else if wild
    then elim (normalise py pattern p.after) [ ok name ↦ some (star_dot ++ name) | raise _ ↦ none ]
    else elim (normalise py pattern entry) [ ok name ↦ some name | raise _ ↦ none ]

-- `_as_host_patterns`
unfoldable pub as_host_patterns : Platform → List Text → Option (List Text)
unfolding as_host_pattern
as_host_patterns py [] = some []
as_host_patterns py (p ∷ ps) = elim (as_host_pattern py p) [
  | none ↦ none
  | some name ↦ elim (as_host_patterns py ps) [ none ↦ none | some names ↦ some (name ∷ names) ]
]

-- One round of the loop of `_host_is_allowed`.
unfoldable pub matches : Text → Bool → Text → Bool
unfolding starts_with remove_prefix ends_with text_eq
matches name literal pattern =
    if literal
    then text_eq name pattern
    else if starts_with star_dot pattern
    then (let suffix = remove_prefix (codes "*") pattern in
        ends_with suffix name && ltb (length suffix) (length name))
    else text_eq name pattern

-- `_host_is_allowed`
unfoldable pub host_is_allowed : Text → List Text → Bool → Bool
unfolding matches rstrip
host_is_allowed host patterns literal = any (matches (rstrip b'.' host) literal) patterns

-- `a <= b` on text, and `sorted`
text_le : Text → Text → Bool
text_le [] t = true
text_le (_ ∷ _) [] = false
text_le (a ∷ s) (b ∷ t) = ltb a b || (a == b && text_le s t)

insert_text : Text → List Text → List Text
insert_text t [] = t ∷ []
insert_text t (u ∷ us) = if text_le t u then t ∷ (u ∷ us) else u ∷ insert_text t us

sorted_texts : List Text → List Text
sorted_texts [] = []
sorted_texts (t ∷ ts) = insert_text t (sorted_texts ts)

nearest_from : Text → List Text → Option Text
nearest_from name [] = none
nearest_from name (p ∷ ps) =
    let bare = remove_prefix star_dot p in
    if text_eq name bare || (ends_with (b'.' ∷ bare) name || ends_with (b'.' ∷ name) bare)
    then some p
    else nearest_from name ps

-- `_nearest_pattern`
unfoldable pub nearest_pattern : Text → List Text → Option Text
unfolding nearest_from sorted_texts insert_text text_le rstrip remove_prefix ends_with text_eq
nearest_pattern host patterns = nearest_from (rstrip b'.' host) (sorted_texts patterns)
