-- ===== src/Common/Fallible.antt =====
-- Go's (value, error) pair: a value, or an error of the package's own type.
use mathlib.Core.Path.{◌≡◌, refl, ap}
use mathlib.Core.Bool.{Bool, true, false}

pub data Result {ℓ} (E : Type 0) (A : Type ℓ) : Type ℓ where
  ok : A → Result E A
  err : E → Result E A

module _ {E : Type 0} where
  -- The error wrapped by the caller, as `fmt.Errorf("...: %w", err)` does.
  abbrev pub wrap {ℓ} : {F : Type 0} {A : Type ℓ} → (E → F) → Result E A → Result F A
  wrap outer (err e) = err (outer e)
  wrap outer (ok value) = ok value

  -- An early return of an error when the test holds.
  abbrev pub fail_if : Bool → E → Result E (Unit {0})
  fail_if false e = ok tt
  fail_if true e = err e

  -- `if err != nil { return err }` between two statements.
  infixl 5 ◌>>=◌ ◌>>◌
  abbrev pub ◌>>=◌ {ℓ κ} : {A : Type ℓ} {B : Type κ} → Result E A → (A → Result E B) → Result E B
  err e >>= rest = err e
  ok value >>= rest = rest value

  abbrev pub ◌>>◌ {κ} : {B : Type κ} → Result E (Unit {0}) → Result E B → Result E B
  first >> second = first >>= λ done. second

  pub >>=-eq-ok {ℓ κ} :
      {A : Type ℓ} {B : Type κ} (first : Result E A) (rest : A → Result E B) {result : B}
      → (first >>= rest) ≡ ok result
      → (value : A) × (first ≡ ok value) × (rest value ≡ ok result)
  >>=-eq-ok (err e) rest h = cc
  >>=-eq-ok (ok value) rest h = (value, refl, h)

  pub wrap-eq-ok {ℓ} :
      {F : Type 0} {A : Type ℓ} (outer : E → F) (r : Result E A) {value : A}
      → wrap outer r ≡ ok value
      → r ≡ ok value
  wrap-eq-ok outer (ok value) h = cc
  wrap-eq-ok outer (err e) h = cc

  pub ok-injective {ℓ} : {A : Type ℓ} {a b : A} → ◌≡◌ {A = Result E A} (ok a) (ok b) → a ≡ b
  ok-injective {A} {a} h = ap (λ (r : Result E A). elim r [ ok x ↦ x | err e ↦ a ]) h

  pub >>=-agree {ℓ κ} :
      {A : Type ℓ} {B : Type κ} (first : Result E A) (rest rest' : A → Result E B)
      → ((value : A) → rest value ≡ rest' value)
      → (first >>= rest) ≡ (first >>= rest')
  >>=-agree (err e) rest rest' h = refl
  >>=-agree (ok value) rest rest' h = h value

  -- What holds of the value, if there is one.
  abbrev pub Holds {ℓ} : {A : Type ℓ} → (A → Type 0) → Result E A → Type 0
  Holds P (ok value) = P value
  Holds P (err e) = Unit

  pub Holds-bind {ℓ κ} :
      {A : Type ℓ} {B : Type κ} (P : B → Type 0) (first : Result E A) (rest : A → Result E B)
      → ((value : A) → first ≡ ok value → Holds P (rest value))
      → Holds P (first >>= rest)
  Holds-bind P (err e) rest h = tt
  Holds-bind P (ok value) rest h = h value refl

  pub fail_if-eq-ok : (b : Bool) (e : E) {u : Unit {0}} → fail_if b e ≡ ok u → b ≡ false
  fail_if-eq-ok true e h = cc
  fail_if-eq-ok false e h = refl
