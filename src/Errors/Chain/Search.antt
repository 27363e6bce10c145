-- ===== src/Errors/Chain/Search.antt =====
-- Searching a chain of errors, as errors.As does.
use issue.Base.{◌≡◌, refl, ◌∙◌, Option, none, some}
use issue.Errors.Chain.{Layer, Err, leaf, wrap, or_else, find}

module _ {ℓ} {A : Type ℓ} (f : Err → Option A) where
  -- The error is the first of the chain that `f` knows, and `a` is what `f` takes from it.
  pub data IsFirst : Err → A → Type ℓ where
    here : (e : Err) (a : A) → f e ≡ some a → IsFirst e a
    behind :
        (l : Layer) (e : Err) (a : A) → f (wrap l e) ≡ none → IsFirst e a → IsFirst (wrap l e) a

  pub find-IsFirst : (e : Err) (a : A) → find f e ≡ some a → IsFirst e a
  unfolding find or_else
  find-IsFirst (leaf x) a h = here (leaf x) a h
  find-IsFirst (wrap l e) a h = by_layer (f (wrap l e)) (find-IsFirst e a) refl h
    where
      by_layer :
          (r : Option A)
          → (find f e ≡ some a → IsFirst e a)
          → f (wrap l e) ≡ r
          → or_else r (find f e) ≡ some a
          → IsFirst (wrap l e) a
      by_layer none rest k h = behind l e a k (rest h)
      by_layer (some b) rest k h = here (wrap l e) a (k ∙ h)

  pub IsFirst-find : (e : Err) (a : A) → IsFirst e a → find f e ≡ some a
  unfolding find or_else
  IsFirst-find (leaf x) a (here _ _ h) = h
  IsFirst-find (wrap l e) a (here _ _ h) = rw h refl
  IsFirst-find (wrap l e) a (behind _ _ _ n h) = rw n (IsFirst-find e a h)
