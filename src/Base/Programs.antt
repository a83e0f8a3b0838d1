-- ===== src/Base/Programs.antt =====
-- Code that changes a state and may stop early: what it leaves of the state is known also where it
-- stops.
use mathlib.Core.Path.{◌≡◌, refl, ap}
use tessera_transparency.Base.Results.{Result, ok, err, wrap, err-ne-ok, wrap_ok}

abbrev pub Program : Type 0 → Type 0 → Type 0 → Type 0
Program S E A = S → S × Result E A

-- What runs behind a step.
abbrev pub continue : {S E A B : Type 0} → S × Result E A → (A → Program S E B) → S × Result E B
continue (st, ok a) f = f a st
continue (st, err e) f = (st, err e)

infixl 5 ◌>>=◌
abbrev pub ◌>>=◌ : {S E A B : Type 0} → Program S E A → (A → Program S E B) → Program S E B
◌>>=◌ m f st = continue (m st) f

-- A step that changes nothing.
abbrev pub lift : {S E A : Type 0} → Result E A → Program S E A
lift r st = (st, r)

-- A step whose error is wrapped.
abbrev pub call : {S E F A : Type 0} → (E → F) → (S → S × Result E A) → Program S F A
call g m st = let (st', r) = m st in (st', wrap g r)

-- A program that ended with a value ran its first step to a value, and the rest behind it.
pub continue_ok :
    {S E A B : Type 0} (r : S × Result E A) (f : A → Program S E B) {st : S} {b : B}
    → continue r f ≡ (st, ok b)
    → (a : A) × (r ≡ (r.0, ok a)) × (f a r.0 ≡ (st, ok b))
continue_ok (s, ok a) f h = (a, refl, h)
continue_ok (s, err e) f h = absurd (err-ne-ok (ap (λ p. p.1) h))

pub lift_ok :
    {S E A : Type 0} (r : Result E A) {st st' : S} {a : A}
    → ◌≡◌ {A = S × Result E A} (st, r) (st', ok a)
    → (r ≡ ok a) × (st ≡ st')
lift_ok r h = (ap (λ p. p.1) h, ap (λ p. p.0) h)

-- The same for a step whose error was wrapped.
pub call_ok :
    {S E F A : Type 0} (g : E → F) (r : S × Result E A) {st : S} {a : A}
    → ◌≡◌ {A = S × Result F A} (r.0, wrap g r.1) (st, ok a)
    → r ≡ (st, ok a)
call_ok g (s, r) h = λ i. ((h i).0, wrap_ok g r (ap (λ p. p.1) h) i)
