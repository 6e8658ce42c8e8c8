-- ===== src/Base/Raising.antt =====
-- A computation that returns or raises.
use mathlib.Core.Path.{◌≡◌, refl}
use mathlib.Core.Bool.{Bool, true, false}

pub data Result {ℓ κ} (E : Type ℓ) (A : Type κ) : Type (ℓ ⊔ κ) where
  ok : A → Result E A
  raise : E → Result E A

-- `if test: raise problem`
abbrev pub raise_if {ℓ} : {E : Type ℓ} → Bool → E → Result E (Unit {0})
raise_if test problem = elim test [ false ↦ ok tt | true ↦ raise problem ]

module _ {ℓ κ μ} {E : Type ℓ} {A : Type κ} {B : Type μ} where
  infixl 5 ◌>>=◌
  abbrev pub ◌>>=◌ : Result E A → (A → Result E B) → Result E B
  raise problem >>= next = raise problem
  ok value >>= next = next value

  -- A chain that returns has returned at its first step.
  pub >>=-eq-ok :
      (first : Result E A) (next : A → Result E B) {last : B}
      → (first >>= next) ≡ ok last
      → (value : A) × (first ≡ ok value) × (next value ≡ ok last)
  >>=-eq-ok (raise problem) next done = cc
  >>=-eq-ok (ok value) next done = (value, refl, done)

module _ {ℓ κ} {E : Type ℓ} {B : Type κ} where
  infixl 5 ◌>>◌
  abbrev pub ◌>>◌ : Result E (Unit {0}) → Result E B → Result E B
  first >> second = first >>= λ _. second

  pub >>-eq-ok :
      (first : Result E (Unit {0})) (second : Result E B) {last : B}
      → (first >> second) ≡ ok last
      → (first ≡ ok tt) × (second ≡ ok last)
  >>-eq-ok (raise problem) second done = cc
  >>-eq-ok (ok tt) second done = (refl, done)

module _ {ℓ} {E : Type ℓ} where
  pub raise_if-eq-ok :
      (test : Bool) (problem : E) {u : Unit {0}} → raise_if test problem ≡ ok u → test ≡ false
  raise_if-eq-ok false problem done = refl
  raise_if-eq-ok true problem done = cc

pub ok-injective {ℓ κ} :
    {E : Type ℓ} {A : Type κ} {a b : A} → ◌≡◌ {A = Result E A} (ok a) (ok b) → a ≡ b
ok-injective h = cc
