-- ===== src/Base/Results.antt =====
-- Fallible code: a value or an error of the component's own error type.
use mathlib.Core.Path.{◌≡◌, refl, ap, subst}
use mathlib.Core.Bool.{Bool, true, false}
use mathlib.Core.Logic.{◌⊎◌, inl, inr}

pub data Result {ℓ} (E : Type 0) (A : Type ℓ) : Type ℓ where
  ok : A → Result E A
  err : E → Result E A

infixl 5 ◌>>=◌ ◌>>◌
abbrev pub ◌>>=◌ {ℓ κ} :
    {E : Type 0} {A : Type ℓ} {B : Type κ} → Result E A → (A → Result E B) → Result E B
ok a >>= f = f a
err e >>= f = err e

abbrev pub ◌>>◌ {ℓ} : {E : Type 0} {B : Type ℓ} → Result E (Unit {0}) → Result E B → Result E B
m >> k = m >>= λ _. k

-- `if bad { return e }`
abbrev pub fail_if : {E : Type 0} → Bool → E → Result E (Unit {0})
fail_if true e = err e
fail_if false e = ok tt

pub Result-cases {ℓ} :
    {E : Type 0} {A : Type ℓ} (r : Result E A) → ((a : A) × (r ≡ ok a)) ⊎ ((e : E) × (r ≡ err e))
Result-cases (ok a) = inl (a, refl)
Result-cases (err e) = inr (e, refl)

-- A property of the value that fallible code returns, if it returns one.
pub data Holds {ℓ κ} {E : Type 0} {A : Type ℓ} (P : A → Type κ) : Result E A → Type (ℓ ⊔ κ) where
  returned : {a : A} → P a → Holds P (ok a)
  refused : {e : E} → Holds P (err e)

Holds_inv {ℓ κ} :
    {E : Type 0} {A : Type ℓ} {P : A → Type κ} {r : Result E A}
    → Holds P r
    → (a : A) → r ≡ ok a
    → P a
Holds_inv {P} (returned {a = x} p) a e = subst P (cc) p
Holds_inv refused a e = cc

pub holds_ok {ℓ κ} :
    {E : Type 0} {A : Type ℓ} {P : A → Type κ} {r : Result E A} {a : A} → r ≡ ok a → Holds P r → P a
holds_ok {a} e h = Holds_inv h a e

pub ok_injective {ℓ} :
    {E : Type 0} {A : Type ℓ} {a b : A} → ◌≡◌ {A = Result E A} (ok a) (ok b) → a ≡ b
ok_injective {E} {A} {a} h = ap (value_or a) h
  where
    value_or : A → Result E A → A
    value_or d (ok x) = x
    value_or d (err e) = d

-- What a chain of fallible code that succeeds has passed.
pub bind_inv {ℓ κ} :
    {E : Type 0} {A : Type ℓ} {B : Type κ} (r : Result E A) (f : A → Result E B) (b : B)
    → (r >>= f) ≡ ok b
    → (a : A) × (r ≡ ok a) × (f a ≡ ok b)
bind_inv (ok a) f b h = (a, refl, h)
bind_inv (err e) f b h = absurd (cc)
