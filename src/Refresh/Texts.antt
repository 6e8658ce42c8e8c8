-- ===== src/Refresh/Texts.antt =====
-- The methods of `str` and the sorting that scripts/refresh_registry.py calls.
use ssrfguard.Base.{
  ℕ, suc, Bool, true, false, ◌&&◌, ◌||◌, ◌==◌, leb, ltb, List, [], ◌∷◌, ◌++◌, Option, none, some,
  Text, text_eq, drop, if◌then◌else◌,
}

-- The value of a key.
unfoldable pub find_text : Text → List (Text × Text) → Option Text
find_text key [] = none
find_text key ((k, value) ∷ more) =
    let later = find_text key more in if text_eq k key then some value else later

-- What `str.strip` and `\s` take for white space.
abbrev pub is_space : ℕ → Bool
is_space c =
    (leb 9 c && leb c 13)
    || ((leb 28 c && leb c 32)
        || ((c == 0x85)
            || ((c == 0xa0)
                || ((c == 0x1680)
                    || ((leb 0x2000 c && leb c 0x200a)
                        || ((c == 0x2028)
                            || ((c == 0x2029)
                                || ((c == 0x202f) || ((c == 0x205f) || (c == 0x3000))))))))))

abbrev pub count_while : (ℕ → Bool) → Text → ℕ
count_while p [] = 0
count_while p (c ∷ cs) = let rest = count_while p cs in if p c then suc rest else 0

-- `text.strip()`
abbrev pub lstrip_spaces : Text → Text
lstrip_spaces t = drop (count_while is_space t) t

abbrev pub rstrip_spaces : Text → Text
rstrip_spaces [] = []
rstrip_spaces (c ∷ cs) =
    let rest = rstrip_spaces cs in
    elim rest [ [] ↦ if is_space c then [] else c ∷ [] | d ∷ ds ↦ c ∷ (d ∷ ds) ]

unfoldable pub strip : Text → Text
strip t = rstrip_spaces (lstrip_spaces t)

-- `text.split()`
abbrev pub push_word : Text → List Text → List Text
push_word [] words = words
push_word (c ∷ cs) words = (c ∷ cs) ∷ words

-- The word that a text begins with, and the words after it.
abbrev pub words_from : Text → Text × List Text
words_from [] = ([], [])
words_from (c ∷ cs) =
    let (word, words) = words_from cs in
    if is_space c then ([], push_word word words) else (c ∷ word, words)

abbrev pub split_words : Text → List Text
split_words t = push_word (words_from t).0 (words_from t).1

-- `separator.join(parts)`
abbrev pub join : Text → List Text → Text
join separator [] = []
join separator (part ∷ []) = part
join separator (part ∷ (next ∷ more)) = part ++ separator ++ join separator (next ∷ more)

-- The order of texts, and `sorted` of a set of them.
abbrev pub text_lt : Text → Text → Bool
text_lt s [] = false
text_lt [] (_ ∷ _) = true
text_lt (a ∷ s) (b ∷ t) = ltb a b || ((a == b) && text_lt s t)

abbrev pub insert_unique : Text → List Text → List Text
insert_unique t [] = t ∷ []
insert_unique t (x ∷ xs) =
    let rest = insert_unique t xs in
    if text_eq t x then x ∷ xs else if text_lt t x then t ∷ (x ∷ xs) else x ∷ rest

abbrev pub sorted_set : List Text → List Text
sorted_set [] = []
sorted_set (t ∷ ts) = insert_unique t (sorted_set ts)
