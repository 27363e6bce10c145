-- ===== src/RateLimiter/Pattern.antt =====
-- Patterns of internal/resttooling/ratelimiter/v2/pattern.go: how two of them compare, and what a
-- pattern matches. `none` is the panic of `lastSegment` on a pattern without segments, or of an
-- index out of range.
pub mod Paths
pub mod Relations
pub mod Matching
pub mod Fronts
pub mod Comparison
pub mod Soundness
use issue.Base.{
  ℕ, Bool, true, false, not, ◌&&◌, ◌||◌, Option, none, some, List, [], ◌∷◌, Bytes, ◌=ᵇ◌, ltb, ◌==◌,
  length, if◌then◌else◌,
}

pub record Segment : Type 0 where
  pub s : Bytes
  pub identifier : Bool
  pub multi : Bool

pub record Pattern : Type 0 where
  pub pattern : Bytes
  pub method : Bytes
  pub segments : List Segment

pub data Relationship : Type 0 where
  equivalent more_general more_specific disjoint overlaps : Relationship

-- `lastSegment`, on the segments.
unfoldable pub last_segment : List Segment → Option Segment
last_segment [] = none
last_segment (x ∷ []) = some x
last_segment (x ∷ y ∷ xs) = last_segment (y ∷ xs)

unfoldable pub inverse_relationship : Relationship → Relationship
inverse_relationship more_specific = more_general
inverse_relationship more_general = more_specific
inverse_relationship r = r

unfoldable pub same : Relationship → Relationship → Bool
same equivalent equivalent = true
same more_general more_general = true
same more_specific more_specific = true
same disjoint disjoint = true
same overlaps overlaps = true
same _ _ = false

-- The inner `switch` of `combineRelationships`.
unfoldable pub directed : Relationship → Relationship → Relationship
unfolding same inverse_relationship
directed r1 r2 =
    if same r2 equivalent then r1 else if same r2 (inverse_relationship r1) then overlaps else r2

unfoldable pub combine_relationships : Relationship → Relationship → Relationship
unfolding same directed
combine_relationships equivalent r2 = r2
combine_relationships disjoint r2 = disjoint
combine_relationships overlaps r2 = if same r2 disjoint then disjoint else overlaps
combine_relationships more_general r2 = directed more_general r2
combine_relationships more_specific r2 = directed more_specific r2

unfoldable pub compare_segments : Segment → Segment → Relationship
compare_segments s1 s2 =
    if s1.multi && s2.multi
    then equivalent
    else if s1.multi
    then more_general
    else if s2.multi
    then more_specific
    else if s1.identifier && s2.identifier
    then equivalent
    else if s1.identifier
    then more_general
    else if s2.identifier
    then more_specific
    else if s1.s =ᵇ s2.s
    then equivalent
    else disjoint

unfoldable pub compare_methods : Pattern → Pattern → Relationship
compare_methods p p2 =
    if p.method =ᵇ p2.method
    then equivalent
    else if p.method =ᵇ []
    then more_general
    else if p2.method =ᵇ []
    then more_specific
    else disjoint

-- How the loop of `comparePaths` ends: by a `return`, or with what is left of the two paths.
pub data LoopEnd : Type 0 where
  returned : Relationship → LoopEnd
  ended : Relationship → List Segment → List Segment → LoopEnd

unfoldable pub compare_loop : Relationship → List Segment → List Segment → LoopEnd
unfolding same
compare_loop rel [] segs2 = ended rel [] segs2
compare_loop rel (x ∷ segs1) [] = ended rel (x ∷ segs1) []
compare_loop rel (x ∷ segs1) (y ∷ segs2) =
    let rel' = combine_relationships rel (compare_segments x y) in
    let rest = compare_loop rel' segs1 segs2 in if same rel' disjoint then returned rel' else rest

-- `!last.multi`, where a missing last segment panics.
unfoldable pub last_multi? : List Segment → Option Bool
last_multi? xs = elim (last_segment xs) [ none ↦ none | some x ↦ some x.multi ]

-- `a && b` where either side may panic.
unfoldable pub and_then : Option Bool → Option Bool → Option Bool
and_then none b = none
and_then (some false) b = some false
and_then (some true) b = b

unfoldable pub not? : Option Bool → Option Bool
not? none = none
not? (some b) = some (not b)

unfoldable pub choose :
    Option Bool → Option Relationship → Option Relationship → Option Relationship
choose none r r' = none
choose (some true) r r' = r
choose (some false) r r' = r'

-- What stands behind the loop of `comparePaths`.
unfoldable pub compare_rest : Option Bool → Option Bool → LoopEnd → Option Relationship
unfolding and_then choose
compare_rest m1 m2 (returned rel) = some rel
compare_rest m1 m2 (ended rel [] []) = some rel
compare_rest m1 m2 (ended rel segs1 segs2) =
    choose (and_then (some (ltb (length segs1) (length segs2))) m1)
      (some (combine_relationships rel more_general))
      (choose (and_then (some (ltb (length segs2) (length segs1))) m2)
        (some (combine_relationships rel more_specific)) (some disjoint))

unfoldable pub compare_paths : List Segment → List Segment → Option Relationship
unfolding last_multi? and_then not? choose compare_loop compare_rest
compare_paths xs ys =
    choose
      (and_then (some (not (length xs == length ys)))
        (and_then (not? (last_multi? xs)) (not? (last_multi? ys))))
      (some disjoint)
      (compare_rest (last_multi? xs) (last_multi? ys) (compare_loop equivalent xs ys))

unfoldable pub combine? : Relationship → Option Relationship → Option Relationship
combine? mrel none = none
combine? mrel (some prel) = some (combine_relationships mrel prel)

unfoldable pub compare_paths_and_methods : Pattern → Pattern → Option Relationship
unfolding same combine?
compare_paths_and_methods p p2 =
    let mrel = compare_methods p p2 in
    if same mrel disjoint
    then some disjoint
    else combine? mrel (compare_paths p.segments p2.segments)

pub drop_one : List Bytes → List Bytes
drop_one [] = []
drop_one (x ∷ xs) = xs

pub literal : Bytes → List Bytes → Option Bool → Option Bool
literal s [] rest = none
literal s (x ∷ xs) rest = if x =ᵇ s then rest else some false

-- The loop of `match`; the second argument is `segments[i:]`.
pub match_loop : List Segment → List Bytes → Option Bool
unfolding drop_one literal
match_loop [] segments = some true
match_loop (seg ∷ ps) segments =
    let rest = match_loop ps (drop_one segments) in
    if seg.multi then some true else if seg.identifier then rest else literal seg.s segments rest

-- The tests of `match` on the number of segments: `true` where it goes on to its loop.
pub fits : List Segment → List Bytes → Option Bool
unfolding last_multi? and_then
fits ps segments =
    if length segments == length ps
    then some true
    else and_then (last_multi? ps) (some (not (ltb (length segments) (length ps))))

unfoldable pub match : Pattern → Bytes → List Bytes → Option Bool
unfolding fits match_loop and_then
match p method segments =
    if not (p.method =ᵇ []) && not (p.method =ᵇ method)
    then some false
    else and_then (fits p.segments segments) (match_loop p.segments segments)
