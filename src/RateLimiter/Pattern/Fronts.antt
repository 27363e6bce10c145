-- ===== src/RateLimiter/Pattern/Fronts.antt =====
-- The parts of `comparePaths` and `compareMethods` of ratelimiter/v2/pattern.go, each against what
-- it says of the requests: methods, segments, and what stands behind the loop.
use issue.Base.{
  ◌≡◌, refl, sym, ◌∙◌, ◌↔◌, ◌⊎◌, inl, inr, Bool, true, false, List, [], ◌∷◌, Bytes, ◌=ᵇ◌, =ᵇ_iff,
  arith, some, Bool-cases, subst,
}
use issue.RateLimiter.Pattern.{
  Segment, Pattern, Relationship, equivalent, more_general, more_specific, disjoint, overlaps, same,
  combine_relationships, compare_segments, compare_methods, compare_rest, ended,
}
use issue.RateLimiter.Pattern.Relations.{Holds, Holds-map, combine-Holds}
use issue.RateLimiter.Pattern.Paths.{SegmentMatches, PathMatches, MultiLast}
use issue.RateLimiter.Pattern.Matching.{MethodMatches}

pub same_disjoint : (r : Relationship) → same r disjoint ≡ true → r ≡ disjoint
unfolding same
same_disjoint disjoint h = refl
same_disjoint equivalent h = cc
same_disjoint more_general h = cc
same_disjoint more_specific h = cc
same_disjoint overlaps h = cc

-- Two segments that are no multis.
pub segments_sound :
    (x y : Segment) (s : Bytes)
    → x.multi ≡ false
    → y.multi ≡ false
    → Holds (compare_segments x y) (SegmentMatches x s) (SegmentMatches y s)
unfolding compare_segments
segments_sound x y s mx my = elim (Bool-cases x.identifier) [
  | inl ix ↦ elim (Bool-cases y.identifier) [
    | inl iy ↦ rw (mx, my, ix, iy) (λ h. h, λ h. h)
    | inr iy ↦ rw (mx, my, ix, iy) (λ h. tt)
  ]
  | inr ix ↦ elim (Bool-cases y.identifier) [
    | inl iy ↦ rw (mx, my, ix, iy) (λ h. tt)
    | inr iy ↦ elim (Bool-cases (x.s =ᵇ y.s)) [
      | inl e ↦
          let e' : x.s ≡ y.s = (=ᵇ_iff x.s y.s).0 e in rw (mx, my, ix, iy, e) (λ h. cc, λ h. cc)
      | inr n ↦ rw (mx, my, ix, iy, n) (λ h k. absurd (distinct n (sym h ∙ k)))
    ]
  ]
]
  where
    distinct : (x.s =ᵇ y.s) ≡ false → x.s ≡ y.s → ⊥
    distinct n e = cc ((=ᵇ_iff x.s y.s).1 e)

pub methods_sound :
    (p q : Pattern) (method : Bytes)
    → Holds (compare_methods p q) (MethodMatches p method) (MethodMatches q method)
unfolding compare_methods
methods_sound p q method = elim (Bool-cases (p.method =ᵇ q.method)) [
  | inl e ↦ let e' : p.method ≡ q.method = (=ᵇ_iff _ _).0 e in rw (e, e') (λ h. h, λ h. h)
  | inr n ↦ elim (Bool-cases (p.method =ᵇ [])) [
    | inl e ↦ rw (n, e) (λ h. inl ((=ᵇ_iff _ _).0 e))
    | inr np ↦ elim (Bool-cases (q.method =ᵇ [])) [
      | inl e ↦ rw (n, np, e) (λ h. inl ((=ᵇ_iff _ _).0 e))
      | inr nq ↦ rw (n, np, nq) (apart n np nq)
    ]
  ]
]
  where
    apart :
        (p.method =ᵇ q.method) ≡ false
        → (p.method =ᵇ []) ≡ false
        → (q.method =ᵇ []) ≡ false
        → MethodMatches p method
        → MethodMatches q method
        → ⊥
    apart n np nq (inl e) k = ground (arith, =ᵇ_iff p.method [])
    apart n np nq (inr e) (inl f) = ground (arith, =ᵇ_iff q.method [])
    apart n np nq (inr e) (inr f) = ground (arith, =ᵇ_iff p.method q.method)

-- What the first segment alone asks of the first part of a path.
abbrev pub Front : Segment → Bytes → Type 0
Front seg s = elim seg.multi [ true ↦ Unit | false ↦ SegmentMatches seg s ]

Front-of :
    (seg : Segment) (ps : List Segment) (s : Bytes) (ss : List Bytes)
    → PathMatches (seg ∷ ps) (s ∷ ss)
    → Front seg s
Front-of seg ps s ss = elim (Bool-cases seg.multi) [
  | inl m ↦ rw (m, PathMatches) (λ h. tt)
  | inr m ↦ rw (m, PathMatches) (λ h. h.0)
]

pub literal-Front :
    (seg : Segment) (s : Bytes) → seg.multi ≡ false → SegmentMatches seg s ↔ Front seg s
literal-Front seg s m = rw (m, Front) (λ h. h, λ h. h)

pub fronts_sound :
    (x y : Segment) (s : Bytes) → Holds (compare_segments x y) (Front x s) (Front y s)
fronts_sound x y s = elim (Bool-cases x.multi) [
  | inl mx ↦ elim (Bool-cases y.multi) [
    | inl my ↦ unfold compare_segments in rw (mx, my) (λ h. tt, λ h. tt)
    | inr my ↦ unfold compare_segments in rw (mx, my) (λ h. tt)
  ]
  | inr mx ↦ elim (Bool-cases y.multi) [
    | inl my ↦ unfold compare_segments in rw (mx, my) (λ h. tt)
    | inr my ↦
        Holds-map (compare_segments x y) (literal-Front x s mx) (literal-Front y s my)
          (segments_sound x y s mx my)
  ]
]

pub Front-fact :
    (rel : Relationship) (x y : Segment) (s : Bytes) (A B : Type 0)
    → Holds rel A B
    → Holds (combine_relationships rel (compare_segments x y)) (A × Front x s) (B × Front y s)
Front-fact rel x y s A B h = combine-Holds A B _ _ rel (compare_segments x y) h (fronts_sound x y s)

module _ (rel : Relationship) (x y : Segment) (s : Bytes) (ss : List Bytes) (A B : Type 0)
    (h : Holds rel A B) where
  abbrev rel' : Relationship
  rel' = combine_relationships rel (compare_segments x y)

  -- The loop returns: the fronts exclude each other.
  pub excluded :
      (xs ys : List Segment)
      → rel' ≡ disjoint
      → (A × PathMatches (x ∷ xs) (s ∷ ss))
      → (B × PathMatches (y ∷ ys) (s ∷ ss))
      → ⊥
  excluded xs ys e (a, p) (b, q) =
      subst (λ r. Holds r (A × Front x s) (B × Front y s)) e (Front-fact rel x y s A B h)
        (a, Front-of x xs s ss p) (b, Front-of y ys s ss q)

  -- A multi in front of the first pattern takes the rest of the path.
  pub multi_left :
      (ys : List Segment)
      → MultiLast (y ∷ ys)
      → x.multi ≡ true
      → Holds rel' (A × PathMatches (x ∷ []) (s ∷ ss)) (B × PathMatches (y ∷ ys) (s ∷ ss))
  multi_left ys wy mx =
      combine-Holds A B _ _ rel (compare_segments x y) h (tails (Bool-cases y.multi))
    where
      tails :
          (y.multi ≡ true) ⊎ (y.multi ≡ false)
          → Holds
              (compare_segments x y)
              (PathMatches (x ∷ []) (s ∷ ss))
              (PathMatches (y ∷ ys) (s ∷ ss))
      tails (inl my) = unfold compare_segments in rw (mx, my, PathMatches) (λ p. tt, λ q. tt)
      tails (inr my) = unfold compare_segments in rw (mx, my, PathMatches) (λ q. tt)

  pub multi_right :
      (xs : List Segment)
      → MultiLast (x ∷ xs)
      → x.multi ≡ false
      → y.multi ≡ true
      → Holds rel' (A × PathMatches (x ∷ xs) (s ∷ ss)) (B × PathMatches (y ∷ []) (s ∷ ss))
  multi_right xs wx mx my = combine-Holds A B _ _ rel (compare_segments x y) h tails
    where
      tails :
          Holds
            (compare_segments x y)
            (PathMatches (x ∷ xs) (s ∷ ss))
            (PathMatches (y ∷ []) (s ∷ ss))
      tails = unfold compare_segments in rw (mx, my, PathMatches) (λ p. tt)

-- One more part that says nothing of the first pattern, or nothing of the second.
pub weaken_left :
    (r : Relationship) (P Q : Type 0)
    → Holds r P Q
    → Holds (combine_relationships r more_general) P Q
weaken_left r P Q h =
    Holds-map _ (λ p. p.0, λ p. (p, tt)) (λ q. q.0, λ q. (q, tt))
      (combine-Holds P Q (Unit {0}) (Unit {0}) r more_general h (λ q. tt))

pub weaken_right :
    (r : Relationship) (P Q : Type 0)
    → Holds r P Q
    → Holds (combine_relationships r more_specific) P Q
weaken_right r P Q h =
    Holds-map _ (λ p. p.0, λ p. (p, tt)) (λ q. q.0, λ q. (q, tt))
      (combine-Holds P Q (Unit {0}) (Unit {0}) r more_specific h (λ p. tt))

pub rest_left :
    (r r' : Relationship) (ys : List Segment) (b : Bool) (P Q : Type 0)
    → compare_rest (some true) (some b) (ended r [] ys) ≡ some r'
    → Holds r P Q
    → Holds r' P Q
unfolding compare_rest
rest_left r r' [] b P Q e h = let e' : r ≡ r' = cc in rw (← e') h
rest_left r r' (y ∷ ys) b P Q e h =
    let e' : combine_relationships r more_general ≡ r' = ground (arith, e) in
    rw (← e') (weaken_left r P Q h)

pub rest_right :
    (r r' : Relationship) (xs : List Segment) (b : Bool) (P Q : Type 0)
    → compare_rest (some b) (some true) (ended r xs []) ≡ some r'
    → Holds r P Q
    → Holds r' P Q
unfolding compare_rest
rest_right r r' [] b P Q e h = let e' : r ≡ r' = cc in rw (← e') h
rest_right r r' (x ∷ xs) b P Q e h =
    let e' : combine_relationships r more_specific ≡ r' = ground (arith, e) in
    rw (← e') (weaken_right r P Q h)
