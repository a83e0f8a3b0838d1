-- ===== src/Base/Results.antt =====
-- Go's `(value, error)` as a value or an error, and bind for `if err != nil { return }`.
use mathlib.Core.Path.{◌≡◌, refl, ap}
use mathlib.Core.Logic.{◌⊎◌, inl, inr}
use mathlib.Core.Option.{Option, none, some}

pub data Result {ℓ κ} (E : Type ℓ) (A : Type κ) : Type (ℓ ⊔ κ) where
  ok : A → Result E A
  err : E → Result E A

infixl 5 ◌>>=◌
abbrev pub ◌>>=◌ {ℓ κ μ} :
    {E : Type ℓ} {A : Type κ} {B : Type μ} → Result E A → (A → Result E B) → Result E B
ok a >>= f = f a
err e >>= f = err e

-- `if err != nil { return fmt.Errorf("...: %w", err) }`
abbrev pub wrap {ℓ κ μ} : {E : Type ℓ} {F : Type κ} {A : Type μ} → (E → F) → Result E A → Result F A
wrap g (ok a) = ok a
wrap g (err e) = err (g e)

-- A call of an operation that reports failure without a value.
abbrev pub or_err {ℓ κ} : {E : Type ℓ} {A : Type κ} → Option A → E → Result E A
or_err none e = err e
or_err (some a) e = ok a

pub Result-cases {ℓ κ} :
    {E : Type ℓ} {A : Type κ} (r : Result E A) → ((a : A) × (r ≡ ok a)) ⊎ ((e : E) × (r ≡ err e))
Result-cases (ok a) = inl (a, refl)
Result-cases (err e) = inr (e, refl)

pub ok-injective {ℓ κ} :
    {E : Type ℓ} {A : Type κ} {a b : A} → ◌≡◌ {A = Result E A} (ok a) (ok b) → a ≡ b
ok-injective e = cc

pub err-ne-ok {ℓ κ} :
    {E : Type ℓ} {A : Type κ} {e : E} {a : A} → ◌≡◌ {A = Result E A} (err e) (ok a) → ⊥
err-ne-ok h = cc

-- A chain that ended with a value had a value at its first step.
pub bind_ok {ℓ κ μ} :
    {E : Type ℓ} {A : Type κ} {B : Type μ} (r : Result E A) (f : A → Result E B) {b : B}
    → (r >>= f) ≡ ok b
    → (a : A) × (r ≡ ok a) × (f a ≡ ok b)
bind_ok (ok a) f h = (a, refl, h)
bind_ok (err e) f h = absurd (err-ne-ok h)

pub wrap_ok {ℓ κ μ} :
    {E : Type ℓ} {F : Type κ} {A : Type μ} (g : E → F) (r : Result E A) {a : A}
    → wrap g r ≡ ok a
    → r ≡ ok a
wrap_ok g (ok b) h = ap (λ a. ok a) (ok-injective h)
wrap_ok g (err e) h = absurd (err-ne-ok h)

-- Both at once, for a step whose error is wrapped.
pub wrap_bind_ok {ℓ κ μ ν} :
    {E : Type ℓ} {F : Type κ} {A : Type μ} {B : Type ν} (g : E → F) (r : Result E A)
    (f : A → Result F B) {b : B}
    → (wrap g r >>= f) ≡ ok b
    → (a : A) × (r ≡ ok a) × (f a ≡ ok b)
wrap_bind_ok g (ok a) f h = (a, refl, h)
wrap_bind_ok g (err e) f h = absurd (err-ne-ok h)
