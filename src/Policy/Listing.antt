-- ===== src/Policy/Listing.antt =====
-- Which hosts the patterns of `_host_is_allowed` in src/ssrfguard/_policy.py match.
use ssrfguard.Base.{
  suc, ◌≡◌, ◌≢◌, refl, sym, ap, ◌∙◌, ◌⊎◌, inl, inr, ◌↔◌, Bool, true, false, ◌&&◌, ◌==◌, ==_iff, ltb,
  List, [], ◌∷◌, ◌++◌, Text, text_eq, text_eq_iff, length, length-append, Among, any-Among,
  Among-any, rstrip, starts_with, ends_with, ends_with_iff, ends_with-append, remove_prefix,
  Bool-cases, split_and, arith,
}
use ssrfguard.Policy.Hosts.{star_dot, matches, host_is_allowed}

-- A pattern matches a name that it spells, unless it is a wildcard and the host no literal. And a
-- wildcard matches the names, not literals, that end in a dot and its base, with something before.
pub data IsMatch (name : Text) (literal : Bool) (pattern : Text) : Type 0 where
  exact :
      name ≡ pattern
      → (literal ≡ true) ⊎ (starts_with star_dot pattern ≡ false)
      → IsMatch name literal pattern
  below :
      literal ≡ false
      → (label base : Text) → label ≢ []
      → pattern ≡ b'*' ∷ (b'.' ∷ base)
      → name ≡ label ++ b'.' ∷ base
      → IsMatch name literal pattern

wildcard-cases :
    (pattern : Text)
    → (starts_with star_dot pattern ≡ false) ⊎ ((base : Text) × (pattern ≡ b'*' ∷ (b'.' ∷ base)))
unfolding starts_with
wildcard-cases [] = inl refl
wildcard-cases (c ∷ []) = inl (ground arith)
wildcard-cases (c ∷ (d ∷ ds)) = elim (Bool-cases (c == b'*')) [
  | inr n ↦ inl (ground arith)
  | inl y ↦ elim (Bool-cases (d == b'.')) [
    | inr n ↦ inl (ground arith)
    | inl z ↦ inr (ds, rw ((==_iff c b'*').0 y, (==_iff d b'.').0 z) refl)
  ]
]

matches-wildcard :
    (name base : Text)
    → matches name false (b'*' ∷ (b'.' ∷ base))
      ≡ (ends_with (b'.' ∷ base) name && ltb (suc (length base)) (length name))
unfolding matches starts_with remove_prefix
matches-wildcard name base = refl

matches-exact :
    (name : Text) (literal : Bool) (pattern : Text)
    → (literal ≡ true) ⊎ (starts_with star_dot pattern ≡ false)
    → matches name literal pattern ≡ text_eq name pattern
unfolding matches
matches-exact name true pattern h = refl
matches-exact name false pattern h = ground arith

label_before :
    (label base : Text)
    → label ≢ []
    → ltb (suc (length base)) (length (label ++ b'.' ∷ base)) ≡ true
label_before [] base h = absurd (h refl)
label_before (c ∷ label) base h = ground (arith, length-append label (b'.' ∷ base))

not_longer :
    (name base : Text) → name ≡ b'.' ∷ base → ltb (suc (length base)) (length name) ≡ true → ⊥
not_longer name base same h =
    let size : length name ≡ suc (length base) = ap length same in ground (arith, size)

matches-below :
    (name base : Text)
    → (matches name false (b'*' ∷ (b'.' ∷ base)) ≡ true)
      ↔ ((label : Text) × (label ≢ []) × (name ≡ label ++ b'.' ∷ base))
matches-below name base = (
  λ h.
      let (e, l) = split_and _ _ (sym (matches-wildcard name base) ∙ h) in
      let (label, same) = (ends_with_iff (b'.' ∷ base) name).0 e in
      (label, λ empty. not_longer name base (same ∙ ap (λ l. l ++ b'.' ∷ base) empty) l, same),
  λ (label, some_left, same).
      matches-wildcard name base
      ∙ rw (same, ends_with-append label (b'.' ∷ base)) (label_before label base some_left),
)

matches_iff :
    (name : Text) (literal : Bool) (pattern : Text)
    → (matches name literal pattern ≡ true) ↔ IsMatch name literal pattern
matches_iff name literal pattern = (to, from)
  where
    spelt :
        (literal ≡ true) ⊎ (starts_with star_dot pattern ≡ false)
        → matches name literal pattern ≡ true
        → IsMatch name literal pattern
    spelt w h =
        exact ((text_eq_iff name pattern).0 (sym (matches-exact name literal pattern w) ∙ h)) w

    to : matches name literal pattern ≡ true → IsMatch name literal pattern
    to h = elim (Bool-cases literal) [
      | inl y ↦ spelt (inl y) h
      | inr n ↦ elim (wildcard-cases pattern) [
        | inl w ↦ spelt (inr w) h
        | inr (base, e) ↦
            let h' : matches name false (b'*' ∷ (b'.' ∷ base)) ≡ true = rw (n, e) at h in
            let (label, some_left, same) = (matches-below name base).0 h' in
            below n label base some_left e same
      ]
    ]

    from : IsMatch name literal pattern → matches name literal pattern ≡ true
    from (exact same w) = matches-exact name literal pattern w ∙ (text_eq_iff name pattern).1 same
    from (below n label base some_left e same) =
        rw (n, e) ((matches-below name base).1 (label, some_left, same))

-- A host is allowed exactly when one of the patterns matches its name without trailing dots: a
-- pattern matches the name it spells; a wildcard `*.base` matches, on a label boundary, a name
-- that ends in `.base` with something before, and never a literal address, which only its own
-- spelling allows.
pub host_is_allowed_iff :
    (host : Text) (patterns : List Text) (literal : Bool)
    → (host_is_allowed host patterns literal ≡ true)
      ↔ ((pattern : Text) × Among pattern patterns × IsMatch (rstrip b'.' host) literal pattern)
unfolding host_is_allowed
host_is_allowed_iff host patterns literal = (
  λ h.
      let (pattern, m, e) = any-Among (matches (rstrip b'.' host) literal) patterns h in
      (pattern, m, (matches_iff (rstrip b'.' host) literal pattern).0 e),
  λ (pattern, m, k).
      Among-any (matches (rstrip b'.' host) literal) patterns pattern m
        ((matches_iff (rstrip b'.' host) literal pattern).1 k),
)
