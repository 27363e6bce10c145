-- ===== src/Rdb/Array/Settles.antt =====
-- What it means that a function of internal/rdb/array.go ends with a result or an error of its own.
use issue.Base.{◌≢◌, Bool, true, false, Result, ok, fail, panic, ◌>>=◌, if◌then◌else◌}
use issue.Rdb.Array.{ArrayError, expected_open, out_of_fuel}

-- The result is a value with the property, or an error of the program.
abbrev pub Settles {ℓ} : {A : Type ℓ} → (A → Type 0) → Result ArrayError A → Type 0
Settles P (ok a) = P a
Settles P (fail e) = e ≢ out_of_fuel
Settles P panic = ⊥

pub Settles-bind {ℓ κ} :
    {A : Type ℓ} {B : Type κ} (P : A → Type 0) (Q : B → Type 0) (r : Result ArrayError A)
    (f : A → Result ArrayError B)
    → Settles P r
    → ((a : A) → P a → Settles Q (f a))
    → Settles Q (r >>= f)
Settles-bind P Q (ok a) f h next = next a h
Settles-bind P Q (fail e) f h next = h
Settles-bind P Q panic f h next = absurd h

pub Settles-map {ℓ} :
    {A : Type ℓ} (P Q : A → Type 0) (r : Result ArrayError A)
    → ((a : A) → P a → Q a)
    → Settles P r
    → Settles Q r
Settles-map P Q (ok a) g h = g a h
Settles-map P Q (fail e) g h = h
Settles-map P Q panic g h = h

pub if-Settles {ℓ} :
    {A : Type ℓ} (test : Bool) (r : Result ArrayError A)
    → Settles (λ _. Unit) r
    → Settles (λ _. Unit) (if test then r else fail expected_open)
if-Settles true r h = h
if-Settles false r h = λ e. cc e
