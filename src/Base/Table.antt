-- ===== src/Base/Table.antt =====
-- A Go map with string keys, as an association list. The code never relies on the iteration order.
use mathlib.Core.Path.{◌≡◌, refl}
use mathlib.Core.Option.{Option, none, some}
use mathlib.Core.List.{List, [], ◌∷◌}
use native.Mathlib.Omega.{arith}
use issue.Base.Tests.{if◌then◌else◌}
use issue.Base.Strings.{Bytes, ◌=ᵇ◌, =ᵇ_iff}

abbrev pub Table {ℓ} : Type ℓ → Type ℓ
Table V = List (Bytes × V)

module _ {ℓ} {V : Type ℓ} where
  -- v, ok := m[k]
  unfoldable pub lookup : Bytes → Table V → Option V
  lookup k [] = none
  lookup k ((j, v) ∷ m) = if j =ᵇ k then some v else lookup k m

  -- m[k] = v
  unfoldable pub insert : Bytes → V → Table V → Table V
  insert k v [] = (k, v) ∷ []
  insert k v ((j, w) ∷ m) = if j =ᵇ k then (k, v) ∷ m else (j, w) ∷ insert k v m

  -- delete(m, k)
  unfoldable pub delete : Bytes → Table V → Table V
  delete k [] = []
  delete k ((j, w) ∷ m) = let rest = delete k m in if j =ᵇ k then rest else (j, w) ∷ rest

  pub lookup-insert :
      (k j : Bytes) (v : V) (m : Table V)
      → lookup j (insert k v m) ≡ (if k =ᵇ j then some v else lookup j m)
  unfolding lookup insert
  lookup-insert k j v [] = refl
  lookup-insert k j v ((i, w) ∷ m) =
      ground (arith, =ᵇ_iff k j, =ᵇ_iff i k, =ᵇ_iff i j, lookup-insert k j v m)

  pub lookup-delete :
      (k j : Bytes) (m : Table V) → lookup j (delete k m) ≡ (if k =ᵇ j then none else lookup j m)
  unfolding lookup delete
  lookup-delete k j [] = ground arith
  lookup-delete k j ((i, w) ∷ m) =
      ground (arith, =ᵇ_iff k j, =ᵇ_iff i k, =ᵇ_iff i j, lookup-delete k j m)
