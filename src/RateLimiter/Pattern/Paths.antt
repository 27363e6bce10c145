-- ===== src/RateLimiter/Pattern/Paths.antt =====
-- What it means that a path matches a pattern (ratelimiter/v2/pattern.go): a reading segment by
-- segment, with neither lengths nor indices.
use issue.Base.{
  suc, ◌≤◌, ◌≡◌, refl, ap, ◌↔◌, Bool, true, false, List, [], ◌∷◌, Bytes, arith, length, some,
  Bool-cases, inl, inr,
}
use issue.RateLimiter.Pattern.{Segment, last_segment}

-- A literal matches itself, an identifier any one segment.
abbrev pub SegmentMatches : Segment → Bytes → Type 0
SegmentMatches seg x = elim seg.identifier [ true ↦ Unit | false ↦ x ≡ seg.s ]

abbrev pub IsNonEmpty : List Bytes → Type 0
IsNonEmpty [] = ⊥
IsNonEmpty (x ∷ xs) = Unit

-- A multi matches all that is left, at least one segment; else the path has a segment for each of
-- the pattern's.
abbrev pub PathMatches : List Segment → List Bytes → Type 0
PathMatches [] [] = Unit
PathMatches [] (x ∷ xs) = ⊥
PathMatches (seg ∷ ps) [] = ⊥
PathMatches (seg ∷ ps) (x ∷ xs) = elim seg.multi [
  | true ↦ Unit
  | false ↦ SegmentMatches seg x × PathMatches ps xs
]

-- Only the last segment may be a multi.
abbrev pub MultiLast : List Segment → Type 0
MultiLast [] = Unit
MultiLast (seg ∷ ps) = (seg.multi ≡ true → ps ≡ []) × MultiLast ps

abbrev pub ends_in_multi : List Segment → Bool
ends_in_multi [] = false
ends_in_multi (seg ∷ []) = seg.multi
ends_in_multi (seg ∷ x ∷ ps) = ends_in_multi (x ∷ ps)

pub PathMatches-literal :
    (seg : Segment) (ps : List Segment) (x : Bytes) (xs : List Bytes)
    → seg.multi ≡ false
    → PathMatches (seg ∷ ps) (x ∷ xs) ↔ (SegmentMatches seg x × PathMatches ps xs)
PathMatches-literal seg ps x xs m = rw (m, PathMatches) (λ h. h, λ h. h)

pub PathMatches-multi :
    (seg : Segment) (ps : List Segment) (x : Bytes) (xs : List Bytes)
    → seg.multi ≡ true
    → PathMatches (seg ∷ ps) (x ∷ xs) ↔ Unit {0}
PathMatches-multi seg ps x xs m = rw (m, PathMatches) (λ h. h, λ h. h)

-- Without a multi at the end the numbers of segments agree.
pub length-PathMatches :
    (ps : List Segment) (xs : List Bytes)
    → MultiLast ps
    → ends_in_multi ps ≡ false
    → PathMatches ps xs
    → length xs ≡ length ps
length-PathMatches [] [] w e h = refl
length-PathMatches [] (x ∷ xs) w e h = absurd h
length-PathMatches (seg ∷ ps) [] w e h = absurd h
length-PathMatches (seg ∷ []) (x ∷ xs) w e h =
    ap suc (length-PathMatches [] xs tt refl ((PathMatches-literal seg [] x xs e).0 h).1)
length-PathMatches (seg ∷ q ∷ ps) (x ∷ xs) (last, w) e h = elim (Bool-cases seg.multi) [
  | inl m ↦ cc (last m)
  | inr m ↦
      ap suc (length-PathMatches (q ∷ ps) xs w e ((PathMatches-literal seg (q ∷ ps) x xs m).0 h).1)
]

-- In any case the path has at least as many segments as the pattern.
pub length-PathMatches_le :
    (ps : List Segment) (xs : List Bytes) → MultiLast ps → PathMatches ps xs → length ps ≤ length xs
length-PathMatches_le [] xs w h = omega arith
length-PathMatches_le (seg ∷ ps) [] w h = absurd h
length-PathMatches_le (seg ∷ ps) (x ∷ xs) (last, w) h = elim (Bool-cases seg.multi) [
  | inl m ↦ rw (last m) (omega arith)
  | inr m ↦ omega (arith, length-PathMatches_le ps xs w ((PathMatches-literal seg ps x xs m).0 h).1)
]

pub last_segment-cons :
    (seg : Segment) (ps : List Segment)
    → (l : Segment) × (last_segment (seg ∷ ps) ≡ some l) × (l.multi ≡ ends_in_multi (seg ∷ ps))
unfolding last_segment
last_segment-cons seg [] = (seg, refl, refl)
last_segment-cons seg (x ∷ ps) = last_segment-cons x ps

pub ends_in_multi-cons :
    (seg : Segment) (ps : List Segment)
    → seg.multi ≡ false
    → ends_in_multi (seg ∷ ps) ≡ ends_in_multi ps
ends_in_multi-cons seg [] m = m
ends_in_multi-cons seg (x ∷ ps) m = refl
