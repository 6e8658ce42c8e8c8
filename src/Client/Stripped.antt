-- ===== src/Client/Stripped.antt =====
-- What the stripping of headers in src/ssrfguard/requests.py and src/ssrfguard/httpx.py leaves.
use ssrfguard.Base.{
  ◌||◌, if◌then◌else◌, false, ◌≡◌, refl, sym, ap, ◌∙◌, inl, inr, Bool, true, not, ◌&&◌, List, [],
  ◌∷◌, Text, text_eq, text_eq_iff, lower, any, keep, Among, All, All-of_Among, All-map, any-Among,
  Among-any, Bool-cases, split_and,
}
use ssrfguard.Client.Headers.{
  Headers, same_name, IsCaseless, is_sensitive, delete_each, strip, stripped_headers,
}
use ssrfguard.Policy.Config.{Policy}
use ssrfguard.Client.Requests.{rebuild_auth}

module _ {A : Type 0} where
  keep-all : (xs : List A) → keep (λ _. true) xs ≡ xs
  keep-all [] = refl
  keep-all (x ∷ xs) = ap (λ l. x ∷ l) (keep-all xs)

  keep-keep : (p q : A → Bool) (xs : List A) → keep p (keep q xs) ≡ keep (λ x. q x && p x) xs
  keep-keep p q [] = refl
  keep-keep p q (x ∷ xs) = elim (Bool-cases (q x)) [
    | inr out ↦ rw (out, keep-keep p q xs) refl
    | inl in_q ↦ elim (Bool-cases (p x)) [
      | inl in_p ↦ rw (in_q, in_p, keep-keep p q xs) refl
      | inr out ↦ rw (in_q, out, keep-keep p q xs) refl
    ]
  ]

  keep-cong : (p q : A → Bool) (xs : List A) → All (λ x. p x ≡ q x) xs → keep p xs ≡ keep q xs
  keep-cong p q [] all = refl
  keep-cong p q (x ∷ xs) (here, rest) = rw (here, keep-cong p q xs rest) refl

-- A header that one of the names, if it is sensitive, names.
hit : List Text → List Text → Text × Text → Bool
hit sensitive names item = any (λ name. is_sensitive sensitive name && same_name name item) names

miss :
    (sensitive : List Text) (name : Text) (more : List Text) (item : Text × Text)
    → is_sensitive sensitive name ≡ true
    → (not (same_name name item) && not (hit sensitive more item))
      ≡ not (hit sensitive (name ∷ more) item)
unfolding hit
miss sensitive name more item secret = elim (Bool-cases (same_name name item)) [
  | inl same ↦ rw (secret, same) refl
  | inr other ↦ rw (secret, other) refl
]

module _ (H : Headers) (caseless : IsCaseless H) (sensitive : List Text) where
  delete_each-items :
      (names : List Text) (h : H.Store)
      → H.items (delete_each H sensitive names h)
        ≡ keep (λ item. not (hit sensitive names item)) (H.items h)
  unfolding delete_each hit
  delete_each-items [] h = sym (keep-all (H.items h))
  delete_each-items (name ∷ more) h = elim (Bool-cases (is_sensitive sensitive name)) [
    | inr plain ↦ rw plain (delete_each-items more h)
    | inl secret ↦
        let step : delete_each H sensitive (name ∷ more) h
            ≡ delete_each H sensitive more (H.delete name h) =
          rw (delete_each, secret) refl in
        ap H.items step
        ∙ delete_each-items more (H.delete name h)
        ∙ ap (keep (λ item. not (hit sensitive more item))) (caseless.deletes name h)
        ∙ keep-keep (λ item. not (hit sensitive more item)) (λ item. not (same_name name item))
            (H.items h)
        ∙ keep-cong _ _ (H.items h)
            (All-of_Among _ (H.items h) (λ item among. miss sensitive name more item secret))
  ]

  is_sensitive-same :
      (name : Text) (item : Text × Text)
      → same_name name item ≡ true
      → is_sensitive sensitive name ≡ is_sensitive sensitive item.0
  is_sensitive-same name item same =
      ap (λ t. any (text_eq t) sensitive) (sym ((text_eq_iff (lower item.0) (lower name)).0 same))

  hit-is_sensitive :
      (h : H.Store) (item : Text × Text)
      → (name : Text) × Among name (H.names h) × (same_name name item ≡ true)
      → not (hit sensitive (H.names h) item) ≡ not (is_sensitive sensitive item.0)
  unfolding hit
  hit-is_sensitive h item (name, among, same) =
      let test = λ (n : Text). is_sensitive sensitive n && same_name n item in
      elim (Bool-cases (is_sensitive sensitive item.0)) [
        | inl secret ↦
            let found =
              Among-any test (H.names h) name among
                (rw (is_sensitive-same name item same, secret, same) refl) in
            rw (found, secret) refl
        | inr plain ↦ elim (Bool-cases (any test (H.names h))) [
          | inr none_hit ↦ rw (none_hit, plain) refl
          | inl some_hit ↦
              let (n, there, both) = any-Among test (H.names h) some_hit in
              let (secret, equal) = split_and (is_sensitive sensitive n) (same_name n item) both in
              absurd (cc (sym secret ∙ is_sensitive-same n item equal ∙ plain))
        ]
      ]

strip-items :
    (H : Headers) (sensitive : List Text) (h : H.Store)
    → IsCaseless H
    → H.items (strip H sensitive h) ≡ keep (λ item. not (is_sensitive sensitive item.0)) (H.items h)
unfolding strip
strip-items H sensitive h caseless =
    delete_each-items H caseless sensitive (H.names h) h
    ∙ keep-cong _ _ (H.items h) (
        All-map (λ item found. hit-is_sensitive H caseless sensitive h item found) (H.items h)
          (caseless.named h))

-- The headers whose name, in lower case, is not among the policy's.
abbrev pub plain_items : Policy → List (Text × Text) → List (Text × Text)
plain_items p items = keep (λ item. not (is_sensitive p.sensitive_headers item.0)) items

-- Both clients strip alike: where a redirect leaves the origin, what is left of the headers is
-- exactly those whose name, in lower case, is not among the policy's sensitive ones, in their
-- order; where it does not, or for httpx goes from http to https of one host, all of them.
pub stripped_headers_alike :
    (H : Headers) (p : Policy) (leaves same_origin https_redirect : Bool) (h : H.Store)
    → IsCaseless H
    → (H.items (rebuild_auth H p leaves h)
        ≡ (if leaves then plain_items p (H.items h) else H.items h))
      × (H.items (stripped_headers H p same_origin https_redirect h)
          ≡ (if same_origin || https_redirect then H.items h else plain_items p (H.items h)))
unfolding rebuild_auth stripped_headers
stripped_headers_alike H p leaves same_origin https_redirect h caseless =
    (requests_side leaves, httpx_side (same_origin || https_redirect))
  where
    requests_side :
        (b : Bool)
        → H.items (rebuild_auth H p b h) ≡ (if b then plain_items p (H.items h) else H.items h)
    requests_side true = strip-items H p.sensitive_headers h caseless
    requests_side false = refl

    httpx_side :
        (b : Bool)
        → H.items (if b then h else strip H p.sensitive_headers h)
          ≡ (if b then H.items h else plain_items p (H.items h))
    httpx_side true = refl
    httpx_side false = strip-items H p.sensitive_headers h caseless
