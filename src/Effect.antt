-- ===== src/Effect.antt =====
-- Go functions that change a state and return a value or an error: actions, and what they ensure.
-- `_` and deferred calls aside, a statement that fails returns from the function.
use encedo_wg_hsm.Common.{◌≡◌, refl, Bool, true, false, if◌then◌else◌, Result, ok, err}

abbrev pub Action : Type 0 → Type 0 → Type 0 → Type 0
Action W E A = W → Result E A × W

module _ {W E : Type 0} where
  abbrev pub pure : {A : Type 0} → A → Action W E A
  pure a w = (ok a, w)

  abbrev pub fail : {A : Type 0} → E → Action W E A
  fail e w = (err e, w)

  -- A call that reads no state.
  abbrev pub lift : {A : Type 0} → Result E A → Action W E A
  lift r w = (r, w)

  abbrev pub read : {A : Type 0} → (W → A) → Action W E A
  read f w = (ok (f w), w)

  abbrev pub update : (W → W) → Action W E (Unit {0})
  update f w = (ok tt, f w)

  abbrev pub fail_when : Bool → E → Action W E (Unit {0})
  fail_when b e = if b then fail e else pure tt

  abbrev pub resume : {A B : Type 0} → Result E A × W → (A → Action W E B) → Result E B × W
  resume (ok a, w) f = f a w
  resume (err e, w) f = (err e, w)

  infixl 5 ◌>>=◌ ◌>>◌
  abbrev pub ◌>>=◌ : {A B : Type 0} → Action W E A → (A → Action W E B) → Action W E B
  ◌>>=◌ m f w = resume (m w) f

  abbrev pub ◌>>◌ : {B : Type 0} → Action W E (Unit {0}) → Action W E B → Action W E B
  ◌>>◌ m n = m >>= λ done. n

  -- What holds of the end of an action: `Q` with the value, or `R` after a failure.
  abbrev pub Ends : {A : Type 0} → (A → W → Type 0) → (E → W → Type 0) → Result E A × W → Type 0
  Ends Q R (ok a, w) = Q a w
  Ends Q R (err e, w) = R e w

  pub record Ensures {A : Type 0} (P : W → Type 0) (m : Action W E A) (Q : A → W → Type 0)
      (R : E → W → Type 0) : Type 0 where
    pub at : (w : W) → P w → Ends Q R (m w)

  module _ {A : Type 0} {P : W → Type 0} {Q : A → W → Type 0} {R : E → W → Type 0} where
    pub Ensures-pure : (a : A) → ((w : W) → P w → Q a w) → Ensures P (pure a) Q R
    Ensures-pure a h = record { at = h }

    pub Ensures-fail : (e : E) → ((w : W) → P w → R e w) → Ensures P (fail e) Q R
    Ensures-fail e h = record { at = h }

    pub Ensures-lift :
        (r : Result E A)
        → ((a : A) → r ≡ ok a → (w : W) → P w → Q a w)
        → ((e : E) (w : W) → P w → R e w)
        → Ensures P (lift r) Q R
    Ensures-lift (ok a) h k = record { at = h a refl }
    Ensures-lift (err e) h k = record { at = k e }

    pub Ensures-if :
        (b : Bool) (m n : Action W E A)
        → (b ≡ true → Ensures P m Q R)
        → (b ≡ false → Ensures P n Q R)
        → Ensures P (if b then m else n) Q R
    Ensures-if true m n h k = h refl
    Ensures-if false m n h k = k refl

  pub Ensures-bind :
      {A B : Type 0} {P : W → Type 0} (Q : A → W → Type 0) {Q' : B → W → Type 0}
      {R : E → W → Type 0} (m : Action W E A) (f : A → Action W E B)
      → Ensures P m Q R
      → ((a : A) → Ensures (Q a) (f a) Q' R)
      → Ensures P (m >>= f) Q' R
  Ensures-bind {A} {B} {P} Q {Q'} {R} m f first rest = record {
    at = λ w h. go (m w) (first.at w h);
  }
    where
      go : (o : Result E A × W) → Ends Q R o → Ends Q' R (resume o f)
      go (ok a, w) h = (rest a).at w h
      go (err e, w) h = h

  -- What a success of `m` establishes, whatever the state was.
  abbrev pub Yields : {A : Type 0} → Action W E A → (A → W → Type 0) → Type 0
  Yields m Q = Ensures (λ w. Unit) m Q (λ e w. Unit)

  pub Yields-any : {A : Type 0} (m : Action W E A) → Yields m (λ a w. Unit)
  Yields-any {A} m = record { at = λ w h. go (m w) }
    where
      go : (o : Result E A × W) → Ends (λ a w. Unit) (λ e w. Unit) o
      go (ok a, w) = tt
      go (err e, w) = tt

  -- A call of which the rest of the function needs nothing.
  pub Yields-after :
      {A B : Type 0} {Q : B → W → Type 0} (m : Action W E A) (f : A → Action W E B)
      → ((a : A) → Yields (f a) Q)
      → Yields (m >>= f) Q
  Yields-after m f h = Ensures-bind (λ a w. Unit) m f (Yields-any m) h

  -- What is known of the state is a fact that does not mention it.
  pub Yields-given :
      {A : Type 0} {Q : A → W → Type 0} (X : Type 0) (m : Action W E A)
      → (X → Yields m Q)
      → Ensures (λ w. X) m Q (λ e w. Unit)
  Yields-given X m h = record { at = λ w x. (h x).at w tt }

  -- `m` keeps `P`, whether it succeeds or fails.
  abbrev pub Keeps : {A : Type 0} → (W → Type 0) → Action W E A → Type 0
  Keeps P m = Ensures P m (λ a. P) (λ e. P)

  module _ {A : Type 0} {P : W → Type 0} where
    pub Keeps-pure : (a : A) → Keeps P (pure a)
    Keeps-pure a = Ensures-pure a (λ w h. h)

    pub Keeps-fail : (e : E) → Keeps {A = A} P (fail e)
    Keeps-fail e = Ensures-fail e (λ w h. h)

    pub Keeps-lift : (r : Result E A) → Keeps P (lift r)
    Keeps-lift r = Ensures-lift r (λ a e w h. h) (λ e w h. h)

    pub Keeps-bind :
        {B : Type 0} (m : Action W E B) (f : B → Action W E A)
        → Keeps P m
        → ((b : B) → Keeps P (f b))
        → Keeps P (m >>= f)
    Keeps-bind m f = Ensures-bind (λ b. P) m f

  pub Keeps-update : {P : W → Type 0} (f : W → W) → ((w : W) → P w → P (f w)) → Keeps P (update f)
  Keeps-update f h = record { at = h }

  pub Keeps-if :
      {A : Type 0} {P : W → Type 0} (b : Bool) (m n : Action W E A)
      → Keeps P m
      → Keeps P n
      → Keeps P (if b then m else n)
  Keeps-if true m n h k = h
  Keeps-if false m n h k = k

  pub Keeps-fail_when : {P : W → Type 0} (b : Bool) (e : E) → Keeps P (fail_when b e)
  Keeps-fail_when true e = Keeps-fail e
  Keeps-fail_when false e = Keeps-pure tt

pub ruleset keeps_rules =
    (Keeps-pure, Keeps-fail, Keeps-lift, Keeps-bind, Keeps-if, Keeps-fail_when)
