-- ===== src/Prelude/Results.antt =====
-- Results of code that may raise, with the rules for properties of every result that is returned.
use mathlib.Core.Bool.{Bool, true, false}
use mathlib.Core.Path.{◌≡◌, refl}
use native.Mathlib.Omega.{arith}

pub data Result {ℓ κ} (E : Type ℓ) (A : Type κ) : Type (ℓ ⊔ κ) where
  ok : A → Result E A
  raised : E → Result E A

infixl 5 ◌>>=◌ ◌>>◌
abbrev pub ◌>>=◌ {ℓ} : {E A B : Type ℓ} → Result E A → (A → Result E B) → Result E B
ok a >>= f = f a
raised e >>= f = raised e

abbrev pub ◌>>◌ {ℓ} : {E B : Type ℓ} → Result E (Unit {ℓ}) → Result E B → Result E B
m >> k = m >>= λ _. k

abbrev pub raise_if {ℓ} : {E : Type ℓ} → Bool → E → Result E (Unit {ℓ})
raise_if true e = raised e
raise_if false e = ok tt

-- What holds of the value if one is returned.
abbrev pub Ensures {ℓ} : {E A : Type ℓ} → (A → Type ℓ) → Result E A → Type ℓ
Ensures P (ok a) = P a
Ensures P (raised e) = Unit

module _ {ℓ} {E A : Type ℓ} (P : A → Type ℓ) where
  pub Ensures-raise_if :
      (b : Bool) (e : E) (k : Result E A)
      → (b ≡ false → Ensures P k)
      → Ensures P (raise_if b e >> k)
  Ensures-raise_if true e k h = tt
  Ensures-raise_if false e k h = h refl

  pub Ensures-bind :
      {B : Type ℓ} (m : Result E B) (f : B → Result E A)
      → ((b : B) → m ≡ ok b → Ensures P (f b))
      → Ensures P (m >>= f)
  Ensures-bind (ok b) f h = h b refl
  Ensures-bind (raised e) f h = tt

  pub Ensures-eq-ok : (m : Result E A) (a : A) → Ensures P m → m ≡ ok a → P a
  Ensures-eq-ok (ok b) a h e = ground (arith, e)
  Ensures-eq-ok (raised x) a h e = absurd (ground (arith, e))

pub Ensures-mono {ℓ} :
    {E A : Type ℓ} (P Q : A → Type ℓ)
    → ((a : A) → P a → Q a)
    → (m : Result E A) → Ensures P m
    → Ensures Q m
Ensures-mono P Q h (ok a) p = h a p
Ensures-mono P Q h (raised e) p = tt

-- What returned has returned at every step.
pub bind-eq-ok {ℓ} :
    {E A B : Type ℓ} (m : Result E B) (f : B → Result E A) (a : A)
    → (m >>= f) ≡ ok a
    → (b : B) × (m ≡ ok b) × (f b ≡ ok a)
bind-eq-ok (ok b) f a h = (b, refl, h)
bind-eq-ok (raised e) f a h = absurd (ground (arith, h))
