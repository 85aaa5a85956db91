-- ===== src/Prelude/Outcome.antt =====
-- Runs that may fail: an assertion of the source that does not hold, an access outside of an array,
-- fuel that has run out, or a variable that is read before it is written. Each fault is an outcome of its own.
use mathlib.Core.Path.{◌≡◌, refl}

pub data Fault : Type 0 where
  assertion out_of_bounds no_fuel unset : Fault

pub data Result {ℓ} (A : Type ℓ) : Type ℓ where
  ok : A → Result A
  err : Fault → Result A

infixl 5 ◌>>=◌
abbrev pub ◌>>=◌ {ℓ κ} : {A : Type ℓ} {B : Type κ} → Result A → (A → Result B) → Result B
ok a >>= f = f a
err e >>= f = err e

-- The run returns, and its result satisfies `P`.
abbrev pub Returns : {A : Type 0} → (A → Type 0) → Result A → Type 0
Returns P (ok a) = P a
Returns P (err e) = ⊥

pub Returns-bind :
    {A B : Type 0} {P : A → Type 0} (Q : B → Type 0) (r : Result A) (f : A → Result B)
    → Returns P r
    → ((a : A) → P a → Returns Q (f a))
    → Returns Q (r >>= f)
Returns-bind Q (ok a) f h k = k a h
Returns-bind Q (err e) f h k = elim h [ ]

pub Returns-map :
    {A : Type 0} {P Q : A → Type 0} (r : Result A)
    → Returns P r
    → ((a : A) → P a → Q a)
    → Returns Q r
Returns-map (ok a) h k = k a h
Returns-map (err e) h k = elim h [ ]

-- What a run that is known to satisfy a postcondition returned.
pub Returns-ok :
    {A : Type 0} {P : A → Type 0} (r : Result A) → Returns P r → (a : A) × (r ≡ ok a) × P a
Returns-ok (ok a) h = (a, refl, h)
Returns-ok (err e) h = elim h [ ]

-- If the run returns, its result satisfies `P`. It is joined with what is known of runs that return.
abbrev pub Partly : {A : Type 0} → (A → Type 0) → Result A → Type 0
Partly P (ok a) = P a
Partly P (err e) = Unit

pub Partly-always : {A : Type 0} {P : A → Type 0} (r : Result A) → ((a : A) → P a) → Partly P r
Partly-always (ok a) h = h a
Partly-always (err e) h = tt

pub Partly-bind :
    {A B : Type 0} {P : A → Type 0} (Q : B → Type 0) (r : Result A) (f : A → Result B)
    → Partly P r
    → ((a : A) → P a → Partly Q (f a))
    → Partly Q (r >>= f)
Partly-bind Q (ok a) f h k = k a h
Partly-bind Q (err e) f h k = tt

pub Returns-Partly :
    {A : Type 0} (P Q : A → Type 0) (r : Result A)
    → Returns P r
    → Partly Q r
    → Returns (λ a. P a × Q a) r
Returns-Partly P Q (ok a) h k = (h, k)
Returns-Partly P Q (err e) h k = elim h [ ]

pub Partly-Returns : {A : Type 0} (P : A → Type 0) (r : Result A) → Returns P r → Partly P r
Partly-Returns P (ok a) h = h
Partly-Returns P (err e) h = tt

pub Partly-map :
    {A : Type 0} (P Q : A → Type 0) (r : Result A) → Partly P r → ((a : A) → P a → Q a) → Partly Q r
Partly-map P Q (ok a) h k = k a h
Partly-map P Q (err e) h k = tt
