-- ===== src/Base/Strings.antt =====
-- The methods of `str` that the source calls, on text as code points.
use Prim.Native.Nat.{ℕ, ◌+◌}
use mathlib.Core.Path.{◌≡◌, refl, ap, sym}
use mathlib.Core.Logic.{◌↔◌, inl, inr}
use mathlib.Core.Bool.{Bool, true, false, ◌&&◌, ◌||◌}
use mathlib.Core.Option.{Option, none, some}
use mathlib.Core.List.{List, [], ◌∷◌, ◌++◌}
use native.Mathlib.Omega.{arith}
use ssrfguard.Base.Tests.{leb, ltb, ◌==◌, if◌then◌else◌, Bool-cases}
use ssrfguard.Base.Chars.{Text, text_eq, text_eq_iff, text_eq_refl}
use ssrfguard.Base.Lists.{all, any}

abbrev pub is_digit : ℕ → Bool
is_digit c = leb b'0' c && leb c b'9'

abbrev pub is_lower : ℕ → Bool
is_lower c = leb b'a' c && leb c b'z'

abbrev pub is_upper : ℕ → Bool
is_upper c = leb b'A' c && leb c b'Z'

-- `str.lower` on the ASCII letters; the host it is called on is ASCII.
abbrev pub lower_char : ℕ → ℕ
lower_char c = if is_upper c then c + 32 else c

unfoldable pub lower : Text → Text
lower [] = []
lower (c ∷ cs) = lower_char c ∷ lower cs

-- `str.isascii`
abbrev pub is_ascii : Text → Bool
is_ascii t = all (λ c. ltb c 128) t

-- `c in text`, for one character
abbrev pub has_char : ℕ → Text → Bool
has_char c t = any (λ x. x == c) t

-- `text.split(c)`, for one character
abbrev pub onto_first : ℕ → List Text → List Text
onto_first x [] = (x ∷ []) ∷ []
onto_first x (p ∷ ps) = (x ∷ p) ∷ ps

unfoldable pub split_on : ℕ → Text → List Text
split_on c [] = [] ∷ []
split_on c (x ∷ xs) = let rest = split_on c xs in if x == c then [] ∷ rest else onto_first x rest

-- `text.partition(c)`: what stands before the first `c`, whether there is one, what stands after
pub record Partition : Type 0 where
  pub before : Text
  pub found : Bool
  pub after : Text

unfoldable pub partition : ℕ → Text → Partition
partition c [] = record { before = []; found = false; after = [] }
partition c (x ∷ xs) =
    let rest = partition c xs in
    if x == c
    then record { before = []; found = true; after = xs }
    else record rest { before = x ∷ rest.before }

-- `text.startswith(prefix)`
unfoldable pub starts_with : Text → Text → Bool
starts_with [] t = true
starts_with (_ ∷ _) [] = false
starts_with (p ∷ ps) (c ∷ cs) = p == c && starts_with ps cs

-- `text.endswith(suffix)`
unfoldable pub ends_with : Text → Text → Bool
ends_with suffix [] = text_eq suffix []
ends_with suffix (c ∷ cs) = text_eq suffix (c ∷ cs) || ends_with suffix cs

-- `text.rstrip(c)`, for one character
unfoldable pub rstrip : ℕ → Text → Text
rstrip c [] = []
rstrip c (x ∷ xs) =
    let rest = rstrip c xs in
    elim rest [ [] ↦ if x == c then [] else x ∷ [] | r ∷ rs ↦ x ∷ (r ∷ rs) ]

-- What is left of `text` past `prefix`, if it starts with it.
unfoldable pub after_prefix : Text → Text → Option Text
after_prefix [] t = some t
after_prefix (_ ∷ _) [] = none
after_prefix (p ∷ ps) (c ∷ cs) = let rest = after_prefix ps cs in if p == c then rest else none

-- `text.removeprefix(prefix)`
unfoldable pub remove_prefix : Text → Text → Text
unfolding after_prefix
remove_prefix prefix t = elim (after_prefix prefix t) [ none ↦ t | some rest ↦ rest ]

-- A text ends with a suffix exactly when it is some text before it.
ends_with_sound : (suffix t : Text) → ends_with suffix t ≡ true → (p : Text) × (t ≡ p ++ suffix)
unfolding ends_with
ends_with_sound suffix [] h = ([], sym ((text_eq_iff suffix []).0 h))
ends_with_sound suffix (c ∷ cs) h = elim (Bool-cases (text_eq suffix (c ∷ cs))) [
  | inl e ↦ ([], sym ((text_eq_iff suffix (c ∷ cs)).0 e))
  | inr e ↦
      let later : ends_with suffix cs ≡ true = ground arith in
      let (p, q) = ends_with_sound suffix cs later in (c ∷ p, ap (◌∷◌ c) q)
]

ends_with_nil : (suffix : Text) → ends_with suffix suffix ≡ true
unfolding ends_with
ends_with_nil [] = text_eq_refl []
ends_with_nil (c ∷ cs) = rw (text_eq_refl (c ∷ cs))

pub ends_with-append : (p suffix : Text) → ends_with suffix (p ++ suffix) ≡ true
unfolding ends_with
ends_with-append [] suffix = ends_with_nil suffix
ends_with-append (c ∷ p) suffix = ground (arith, ends_with-append p suffix)

pub ends_with_iff :
    (suffix t : Text) → (ends_with suffix t ≡ true) ↔ ((p : Text) × (t ≡ p ++ suffix))
ends_with_iff suffix t = (ends_with_sound suffix t, λ (p, e). rw e (ends_with-append p suffix))

-- What holds of every character of every part, or is the separator, holds of the whole.
pub all-split_on :
    (q : ℕ → Bool) (c : ℕ) (t : Text)
    → all (all q) (split_on c t) ≡ true
    → all (λ x. x == c || q x) t ≡ true
unfolding split_on
all-split_on q c [] h = refl
all-split_on q c (x ∷ xs) h = elim (Bool-cases (x == c)) [
  | inl e ↦
      let later : all (all q) (split_on c xs) ≡ true = ground arith in
      ground (arith, all-split_on q c xs later)
  | inr e ↦
      let parts : all (all q) (onto_first x (split_on c xs)) ≡ true = ground arith in
      let (here, later) = onto_first_all (split_on c xs) parts in
      ground (arith, all-split_on q c xs later)
]
  where
    onto_first_all :
        (ps : List Text)
        → all (all q) (onto_first x ps) ≡ true
        → (q x ≡ true) × (all (all q) ps ≡ true)
    onto_first_all [] k = ground arith
    onto_first_all (p ∷ ps) k = ground arith

-- A text without the separator is one part.
pub length-split_on : (c : ℕ) (t : Text) → any (λ x. x == c) t ≡ false → split_on c t ≡ t ∷ []
unfolding split_on
length-split_on c [] h = refl
length-split_on c (x ∷ xs) h =
    let here : (x == c) ≡ false = ground arith in rw here (rw (length-split_on c xs (ground arith)))
