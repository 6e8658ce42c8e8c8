-- ===== src/Base/Lists.antt =====
-- Lists measured by native numbers, membership and quantifiers by recursion.
use Prim.Native.Nat.{ℕ, zero, suc, ◌+◌, ◌≤◌}
use mathlib.Core.Path.{◌≡◌, refl}
use mathlib.Core.Logic.{◌⊎◌, inl, inr, ◌↔◌}
use mathlib.Core.Bool.{Bool, true, false, ◌&&◌, ◌||◌}
use mathlib.Core.List.{List, [], ◌∷◌, ◌++◌}
use native.Mathlib.Omega.{arith}
use ssrfguard.Base.Tests.{if◌then◌else◌, Bool-cases}

module _ {ℓ} {A : Type ℓ} where
  abbrev pub length : List A → ℕ
  length [] = 0
  length (x ∷ xs) = suc (length xs)

  abbrev pub take : ℕ → List A → List A
  take zero xs = []
  take (suc n) [] = []
  take (suc n) (x ∷ xs) = x ∷ take n xs

  abbrev pub drop : ℕ → List A → List A
  drop zero xs = xs
  drop (suc n) [] = []
  drop (suc n) (x ∷ xs) = drop n xs

  abbrev pub all : (A → Bool) → List A → Bool
  all p [] = true
  all p (x ∷ xs) = p x && all p xs

  abbrev pub any : (A → Bool) → List A → Bool
  any p [] = false
  any p (x ∷ xs) = p x || any p xs

  -- The items that pass a Boolean test, in order.
  abbrev pub keep : (A → Bool) → List A → List A
  keep p [] = []
  keep p (x ∷ xs) = let rest = keep p xs in if p x then x ∷ rest else rest

  -- Membership with its position, by recursion.
  abbrev pub Among : A → List A → Type ℓ
  Among a [] = Unit {ℓ} → ⊥
  Among a (x ∷ xs) = (a ≡ x) ⊎ Among a xs

  pub length-append : (xs ys : List A) → length (xs ++ ys) ≡ length xs + length ys
  length-append [] ys = omega arith
  length-append (x ∷ xs) ys = omega (arith, length-append xs ys)

  pub length-take-le : (n : ℕ) (xs : List A) → length (take n xs) ≤ n
  length-take-le zero xs = omega arith
  length-take-le (suc n) [] = omega arith
  length-take-le (suc n) (x ∷ xs) = omega (arith, length-take-le n xs)

module _ {ℓ κ} {A : Type ℓ} (P : A → Type κ) where
  abbrev pub All : List A → Type κ
  All [] = Unit
  All (x ∷ xs) = P x × All xs

module _ {ℓ κ} {A : Type ℓ} (P : A → Type κ) where
  pub All-append : (xs ys : List A) → All P xs → All P ys → All P (xs ++ ys)
  All-append [] ys h k = k
  All-append (x ∷ xs) ys (p, h) k = (p, All-append xs ys h k)

  pub All-among : (xs : List A) → All P xs → (a : A) → Among a xs → P a
  All-among [] h a m = absurd (m tt)
  All-among (x ∷ xs) (p, h) a m = elim m [ inl e ↦ rw e p | inr r ↦ All-among xs h a r ]

  pub All-of_Among : (xs : List A) → ((a : A) → Among a xs → P a) → All P xs
  All-of_Among [] f = tt
  All-of_Among (x ∷ xs) f = (f x (inl refl), All-of_Among xs (λ a m. f a (inr m)))

pub All-map {ℓ κ} :
    {A : Type ℓ} {P Q : A → Type κ} → ((a : A) → P a → Q a) → (xs : List A) → All P xs → All Q xs
All-map f [] h = tt
All-map f (x ∷ xs) (p, h) = (f x p, All-map f xs h)

module _ {ℓ} {A : Type ℓ} where
  -- What a filter keeps.
  pub Among-keep :
      (p : A → Bool) (a : A) (xs : List A) → Among a (keep p xs) ↔ (Among a xs × (p a ≡ true))
  Among-keep p a [] = (λ m. absurd (m tt), λ m. m.0)
  Among-keep p a (x ∷ xs) =
      let ih = Among-keep p a xs in
      elim (Bool-cases (p x)) [
        | inl e ↦ rw e (ground (arith, ih.0), ground (arith, ih.1))
        | inr e ↦ rw e (ground (arith, ih.0), ground (arith, ih.1))
      ]

pub List-cases {ℓ} :
    {A : Type ℓ} (xs : List A) → (xs ≡ []) ⊎ ((x : A) × (r : List A) × (xs ≡ x ∷ r))
List-cases [] = inl refl
List-cases (x ∷ xs) = inr (x, xs, refl)

pub any-Among {ℓ} :
    {A : Type ℓ} (p : A → Bool) (xs : List A)
    → any p xs ≡ true
    → (x : A) × Among x xs × (p x ≡ true)
any-Among p [] h = absurd (cc)
any-Among p (x ∷ xs) h = elim (Bool-cases (p x)) [
  | inl e ↦ (x, inl refl, e)
  | inr e ↦
      let later : any p xs ≡ true = ground arith in
      let (y, m, k) = any-Among p xs later in (y, inr m, k)
]

pub Among-any {ℓ} :
    {A : Type ℓ} (p : A → Bool) (xs : List A) (x : A) → Among x xs → p x ≡ true → any p xs ≡ true
Among-any p [] x m h = absurd (m tt)
Among-any p (y ∷ ys) x m h = elim m [
  | inl e ↦ ground arith
  | inr r ↦ elim (Bool-cases (p y)) [ inl k ↦ rw k | inr k ↦ rw k (Among-any p ys x r h) ]
]

pub split_and : (a b : Bool) → (a && b) ≡ true → (a ≡ true) × (b ≡ true)
split_and a b h = ground arith

pub all-append {ℓ} :
    {A : Type ℓ} (p : A → Bool) (xs ys : List A)
    → all p xs ≡ true
    → all p ys ≡ true
    → all p (xs ++ ys) ≡ true
all-append p [] ys h k = k
all-append p (x ∷ xs) ys h k =
    let (e, r) = split_and (p x) (all p xs) h in simp (e, all-append p xs ys r k)

module _ {ℓ} {A : Type ℓ} where
  pub Among-left : (xs ys : List A) (a : A) → Among a xs → Among a (xs ++ ys)
  Among-left [] ys a m = absurd (m tt)
  Among-left (x ∷ xs) ys a (inl same) = inl same
  Among-left (x ∷ xs) ys a (inr m) = inr (Among-left xs ys a m)

  pub Among-right : (xs ys : List A) (a : A) → Among a ys → Among a (xs ++ ys)
  Among-right [] ys a m = m
  Among-right (x ∷ xs) ys a m = inr (Among-right xs ys a m)
