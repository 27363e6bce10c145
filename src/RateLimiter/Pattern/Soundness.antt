-- ===== src/RateLimiter/Pattern/Soundness.antt =====
-- `comparePathsAndMethods` of ratelimiter/v2/pattern.go against `match`: what the relationship of two
-- patterns says of the requests that they match.
use issue.Base.{
  ◌≡◌, ◌≢◌, refl, ◌∙◌, ◌↔◌, inl, inr, Bool, true, false, not, ◌&&◌, List, [], ◌∷◌, Bytes, arith,
  ◌==◌, length, Option, some, Bool-cases,
}
use issue.RateLimiter.Pattern.{
  Segment, Pattern, Relationship, equivalent, disjoint, same, combine_relationships,
  compare_methods, compare_loop, compare_rest, compare_paths, compare_paths_and_methods, LoopEnd,
  returned, ended, last_multi?, and_then, choose, match,
}
use issue.RateLimiter.Pattern.Relations.{Holds, Holds-map, Holds-disjoint, combine-Holds}
use issue.RateLimiter.Pattern.Paths.{
  PathMatches, MultiLast, ends_in_multi, length-PathMatches, last_segment-cons,
}
use issue.RateLimiter.Pattern.Matching.{MethodMatches, match-Decides}
use issue.RateLimiter.Pattern.Fronts.{same_disjoint, methods_sound}
use issue.RateLimiter.Pattern.Comparison.{suffix_sound}

-- A pattern with at least one segment, and a multi at most at its end.
pub record IsProper (p : Pattern) : Type 0 where
  pub some_segment : p.segments ≢ []
  pub multi_last : MultiLast p.segments

-- `match` grants the request.
abbrev pub Accepts : Pattern → Bytes → List Bytes → Type 0
Accepts p method path = match p method path ≡ some true

pub Accepts-iff :
    (p : Pattern) (method : Bytes) (path : List Bytes)
    → IsProper p
    → (MethodMatches p method × PathMatches p.segments path) ↔ Accepts p method path
Accepts-iff p method path w = elim (match-Decides p method path w.some_segment w.multi_last) [
  | inl (t, h) ↦ (λ _. t, λ _. h)
  | inr (f, n) ↦ (λ h. absurd (n h), λ t. cc)
]

last_multi?_lem : (xs : List Segment) → xs ≢ [] → last_multi? xs ≡ some (ends_in_multi xs)
unfolding last_multi?
last_multi?_lem [] h = absurd (h refl)
last_multi?_lem (x ∷ xs) h = let (l, e, m) = last_segment-cons x xs in ground (arith, e, m)

-- `comparePaths` with the ends of the paths known.
compare_ends : Bool → Bool → List Segment → List Segment → Option Relationship
compare_ends b1 b2 xs ys =
    choose (and_then (some (not (length xs == length ys))) (some (not b1 && not b2)))
      (some disjoint) (compare_rest (some b1) (some b2) (compare_loop equivalent xs ys))

compare_paths-ends :
    (xs ys : List Segment)
    → xs ≢ []
    → ys ≢ []
    → compare_paths xs ys ≡ compare_ends (ends_in_multi xs) (ends_in_multi ys) xs ys
unfolding compare_paths compare_ends
compare_paths-ends xs ys hx hy = ground (arith, last_multi?_lem xs hx, last_multi?_lem ys hy)

abbrev Returns : Option Relationship → Type 0
Returns o = (r : Relationship) × (o ≡ some r)

choose-Returns :
    (a b : Bool) (o o' : Option Relationship)
    → Returns o
    → Returns o'
    → Returns (choose (and_then (some a) (some b)) o o')
unfolding choose and_then
choose-Returns false b o o' h h' = h'
choose-Returns true false o o' h h' = h'
choose-Returns true true o o' h h' = h

compare_rest-Returns :
    (b1 b2 : Bool) (end : LoopEnd) → Returns (compare_rest (some b1) (some b2) end)
unfolding compare_rest
compare_rest-Returns b1 b2 (returned r) = (r, refl)
compare_rest-Returns b1 b2 (ended r [] []) = (r, refl)
compare_rest-Returns b1 b2 (ended r _ _) =
    choose-Returns _ b1 _ _ (_, refl) (choose-Returns _ b2 _ _ (_, refl) (disjoint, refl))

compare_ends-Returns : (b1 b2 : Bool) (xs ys : List Segment) → Returns (compare_ends b1 b2 xs ys)
unfolding compare_ends
compare_ends-Returns b1 b2 xs ys =
    choose-Returns _ _ _ _ (disjoint, refl)
      (compare_rest-Returns b1 b2 (compare_loop equivalent xs ys))

paths_sound :
    (xs ys : List Segment) (ss : List Bytes)
    → MultiLast xs
    → MultiLast ys
    → (r : Relationship) → compare_ends (ends_in_multi xs) (ends_in_multi ys) xs ys ≡ some r
    → Holds r (PathMatches xs ss) (PathMatches ys ss)
unfolding compare_ends choose and_then
paths_sound xs ys ss wx wy r e =
    elim (Bool-cases
      (not (length xs == length ys) && (not (ends_in_multi xs) && not (ends_in_multi ys)))) [
        | inl d ↦
            let apart : r ≡ disjoint = ground (arith, e, d) in
            rw apart (λ p q.
              differ d (length-PathMatches xs ss wx (ground (arith, d)) p)
                (length-PathMatches ys ss wy (ground (arith, d)) q))
        | inr d ↦
            let e' : compare_rest (some (ends_in_multi xs)) (some (ends_in_multi ys))
                  (compare_loop equivalent xs ys)
                ≡ some r =
              ground (arith, e, d) in
            Holds-map r (λ a. a.1, λ p. (tt, p)) (λ b. b.1, λ q. (tt, q))
              (suffix_sound xs ys equivalent ss (Unit {0}) (Unit {0}) wx wy (λ u. tt, λ u. tt) r e')
      ]
  where
    differ :
        (not (length xs == length ys) && (not (ends_in_multi xs) && not (ends_in_multi ys))) ≡ true
        → length ss ≡ length xs
        → length ss ≡ length ys
        → ⊥
    differ d p q = ground arith

whole_Returns : (p q : Pattern) → IsProper p → IsProper q → Returns (compare_paths_and_methods p q)
unfolding compare_paths_and_methods
whole_Returns p q wp wq =
    let (r, e) =
      compare_ends-Returns (ends_in_multi p.segments) (ends_in_multi q.segments) p.segments
        q.segments in
    let e' = compare_paths-ends p.segments q.segments wp.some_segment wq.some_segment ∙ e in
    elim (Bool-cases (same (compare_methods p q) disjoint)) [
      | inl d ↦ (disjoint, rw d refl)
      | inr n ↦ (combine_relationships (compare_methods p q) r, rw (n, e') refl)
    ]

whole_Holds :
    (p q : Pattern) (method : Bytes) (path : List Bytes)
    → IsProper p
    → IsProper q
    → (r : Relationship) → compare_paths_and_methods p q ≡ some r
    → Holds r
        (MethodMatches p method × PathMatches p.segments path)
        (MethodMatches q method × PathMatches q.segments path)
unfolding compare_paths_and_methods
whole_Holds p q method path wp wq r e =
    let methods = methods_sound p q method in
    elim (Bool-cases (same (compare_methods p q) disjoint)) [
      | inl d ↦
          let apart : r ≡ disjoint = ground (arith, e, d) in
          rw apart
            (λ a b. Holds-disjoint _ _ (compare_methods p q) (same_disjoint _ d) methods a.0 b.0)
      | inr n ↦
          let (r', found) =
            compare_ends-Returns (ends_in_multi p.segments) (ends_in_multi q.segments) p.segments
              q.segments in
          let seen =
            compare_paths-ends p.segments q.segments wp.some_segment wq.some_segment ∙ found in
          let both : combine_relationships (compare_methods p q) r' ≡ r =
            ground (arith, e, n, seen) in
          rw (← both) (
            combine-Holds _ _ _ _ (compare_methods p q) r' methods
              (paths_sound p.segments q.segments path wp.multi_last wq.multi_last r' found))
    ]

-- Two proper patterns can always be compared, and the answer is true of every request: equivalent
-- patterns match the same requests, the more general one matches all that the other matches, and
-- disjoint ones have no request in common.
pub compare_sound :
    (p q : Pattern)
    → IsProper p
    → IsProper q
    → (r : Relationship) × (compare_paths_and_methods p q ≡ some r)
      × ((method : Bytes) (path : List Bytes)
          → Holds r (Accepts p method path) (Accepts q method path))
compare_sound p q wp wq =
    let (r, e) = whole_Returns p q wp wq in
    (
      r,
      e,
      λ method path.
          Holds-map r (Accepts-iff p method path wp) (Accepts-iff q method path wq)
            (whole_Holds p q method path wp wq r e),
    )
