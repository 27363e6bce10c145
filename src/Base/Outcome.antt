-- ===== src/Base/Outcome.antt =====
-- What a Go function that may fail returns. `panic` is a run-time panic of the process, which no
-- caller of the modelled code recovers from at that point.
use mathlib.Core.Path.{◌≡◌, refl}

pub data Result {ℓ κ} (E : Type κ) (A : Type ℓ) : Type (ℓ ⊔ κ) where
  ok : A → Result E A
  fail : E → Result E A
  panic : Result E A

module _ {ℓ κ μ} {E : Type κ} {A : Type ℓ} {B : Type μ} where
  infixl 5 ◌>>=◌
  abbrev pub ◌>>=◌ : Result E A → (A → Result E B) → Result E B
  ok a >>= f = f a
  fail e >>= f = fail e
  panic >>= f = panic

  -- A chain of two steps that ends well has a first step that ended well.
  pub ok-of_bind :
      {result : B} (step : Result E A) (next : A → Result E B)
      → (step >>= next) ≡ ok result
      → (found : A) × (step ≡ ok found) × (next found ≡ ok result)
  ok-of_bind panic next ended = absurd (cc ended)
  ok-of_bind (fail reason) next ended = absurd (cc ended)
  ok-of_bind (ok found) next ended = (found, refl, ended)
