-- ===== src/RateLimiter/Pattern/Relations.antt =====
-- What the relationships of ratelimiter/v2/pattern.go say of two sets of requests.
use issue.Base.{arith, ◌≡◌, ◌↔◌}
use issue.RateLimiter.Pattern.{
  Relationship, equivalent, more_general, more_specific, disjoint, overlaps, inverse_relationship,
  combine_relationships,
}

-- At one request, with `P` and `Q` for "the first pattern matches it" and "the second does".
abbrev pub Holds : Relationship → Type 0 → Type 0 → Type 0
Holds equivalent P Q = (P → Q) × (Q → P)
Holds more_general P Q = Q → P
Holds more_specific P Q = P → Q
Holds disjoint P Q = P → Q → ⊥
Holds overlaps P Q = Unit

module _ {P Q P' Q' : Type 0} where
  pub Holds-map : (r : Relationship) → P ↔ P' → Q ↔ Q' → Holds r P Q → Holds r P' Q'
  Holds-map equivalent p q (f, g) = (λ x. q.0 (f (p.1 x)), λ y. p.0 (g (q.1 y)))
  Holds-map more_general p q f = λ y. p.0 (f (q.1 y))
  Holds-map more_specific p q f = λ x. q.0 (f (p.1 x))
  Holds-map disjoint p q f = λ x y. f (p.1 x) (q.1 y)
  Holds-map overlaps p q f = tt

module _ (P Q : Type 0) where
  -- The two sides swap under `inverseRelationship`.
  pub Holds-inverse : (r : Relationship) → Holds r P Q → Holds (inverse_relationship r) Q P
  unfolding inverse_relationship
  Holds-inverse equivalent (f, g) = (g, f)
  Holds-inverse more_general f = f
  Holds-inverse more_specific f = f
  Holds-inverse disjoint f = λ y x. f x y
  Holds-inverse overlaps f = tt

  pub Holds-never : (r : Relationship) → ¬ P → ¬ Q → Holds r P Q
  Holds-never equivalent p q = (λ x. absurd (p x), λ y. absurd (q y))
  Holds-never more_general p q = λ y. absurd (q y)
  Holds-never more_specific p q = λ x. absurd (p x)
  Holds-never disjoint p q = λ x y. p x
  Holds-never overlaps p q = tt

  -- Requests that no two patterns share are in every relationship but equivalence and inclusion.
  pub Holds-disjoint : (r : Relationship) → r ≡ disjoint → Holds r P Q → P → Q → ⊥
  Holds-disjoint disjoint e f = f
  Holds-disjoint equivalent e f = cc
  Holds-disjoint more_general e f = cc
  Holds-disjoint more_specific e f = cc
  Holds-disjoint overlaps e f = cc

-- A path or method in two parts is matched if both parts are: the relationships of the parts combine
-- to one that holds of the whole.
pub combine-Holds :
    (P Q P' Q' : Type 0) (r1 r2 : Relationship)
    → Holds r1 P Q
    → Holds r2 P' Q'
    → Holds (combine_relationships r1 r2) (P × P') (Q × Q')
unfolding combine_relationships
combine-Holds P Q P' Q' equivalent equivalent (f, g) (f', g') =
    (λ x. (f x.0, f' x.1), λ y. (g y.0, g' y.1))
combine-Holds P Q P' Q' equivalent more_general (f, g) h = λ y. (g y.0, h y.1)
combine-Holds P Q P' Q' equivalent more_specific (f, g) h = λ x. (f x.0, h x.1)
combine-Holds P Q P' Q' equivalent disjoint _ h = λ x y. h x.1 y.1
combine-Holds P Q P' Q' equivalent overlaps _ _ = tt
combine-Holds P Q P' Q' more_general equivalent h (f, g) = λ y. (h y.0, g y.1)
combine-Holds P Q P' Q' more_general more_general h k = λ y. (h y.0, k y.1)
combine-Holds P Q P' Q' more_general more_specific _ _ = tt
combine-Holds P Q P' Q' more_general disjoint _ h = λ x y. h x.1 y.1
combine-Holds P Q P' Q' more_general overlaps _ _ = tt
combine-Holds P Q P' Q' more_specific equivalent h (f, g) = λ x. (h x.0, f x.1)
combine-Holds P Q P' Q' more_specific more_general _ _ = tt
combine-Holds P Q P' Q' more_specific more_specific h k = λ x. (h x.0, k x.1)
combine-Holds P Q P' Q' more_specific disjoint _ h = λ x y. h x.1 y.1
combine-Holds P Q P' Q' more_specific overlaps _ _ = tt
combine-Holds P Q P' Q' disjoint r2 h _ = λ x y. h x.0 y.0
combine-Holds P Q P' Q' overlaps equivalent _ _ = tt
combine-Holds P Q P' Q' overlaps more_general _ _ = tt
combine-Holds P Q P' Q' overlaps more_specific _ _ = tt
combine-Holds P Q P' Q' overlaps disjoint _ h = λ x y. h x.1 y.1
combine-Holds P Q P' Q' overlaps overlaps _ _ = tt

-- Combining is an algebra: `equivalent` is neutral, `disjoint` absorbs, the order and the grouping
-- of the parts do not matter, and swapping the two patterns inverts the result.
pub combine-laws :
    (r1 r2 r3 : Relationship)
    → (combine_relationships r1 equivalent ≡ r1)
      × (combine_relationships r1 disjoint ≡ disjoint)
      × (combine_relationships r1 r2 ≡ combine_relationships r2 r1)
      × (combine_relationships (combine_relationships r1 r2) r3
          ≡ combine_relationships r1 (combine_relationships r2 r3))
      × (inverse_relationship (combine_relationships r1 r2)
          ≡ combine_relationships (inverse_relationship r1) (inverse_relationship r2))
unfolding combine_relationships inverse_relationship
combine-laws r1 r2 r3 = ground arith
