-- ===== src/RateLimiter/Pattern/Comparison.antt =====
-- The loop of `comparePaths` (ratelimiter/v2/pattern.go) against the paths that the patterns match.
use issue.Base.{
  ◌≡◌, sym, ◌∙◌, ◌↔◌, inl, inr, Bool, true, false, List, [], ◌∷◌, Bytes, arith, some, Bool-cases,
  if◌then◌else◌, subst,
}
use issue.RateLimiter.Pattern.{
  Segment, Relationship, disjoint, same, combine_relationships, compare_segments, compare_loop,
  compare_rest, returned, ended,
}
use issue.RateLimiter.Pattern.Relations.{Holds, Holds-map, Holds-never}
use issue.RateLimiter.Pattern.Paths.{
  PathMatches, MultiLast, ends_in_multi, PathMatches-literal, ends_in_multi-cons,
}
use issue.RateLimiter.Pattern.Fronts.{
  same_disjoint, literal-Front, Front, Front-fact, excluded, multi_left, multi_right, rest_left,
  rest_right,
}

-- One round of the loop that does not end it, given what the later rounds find.
module _ (rel : Relationship) (x y : Segment) (xs ys : List Segment) (s : Bytes) (ss : List Bytes)
    (A B : Type 0) (h : Holds rel A B) (wx : MultiLast (x ∷ xs)) (wy : MultiLast (y ∷ ys))
    (r : Relationship) where
  abbrev Rest : Bool → Bool → List Segment → List Segment → Type 0
  Rest m1 m2 us vs =
      compare_rest (some m1) (some m2)
        (compare_loop (combine_relationships rel (compare_segments x y)) us vs)
      ≡ some r

  round_multi_left :
      x.multi ≡ true
      → Rest (ends_in_multi (x ∷ xs)) (ends_in_multi (y ∷ ys)) xs ys
      → Holds r (A × PathMatches (x ∷ xs) (s ∷ ss)) (B × PathMatches (y ∷ ys) (s ∷ ss))
  unfolding compare_loop
  round_multi_left mx e =
      let none_left = wx.0 mx in
      let alone : Rest x.multi (ends_in_multi (y ∷ ys)) [] ys =
        subst (λ zs. Rest (ends_in_multi (x ∷ zs)) (ends_in_multi (y ∷ ys)) zs ys) none_left e in
      let e' : Rest true (ends_in_multi (y ∷ ys)) [] ys =
        subst (λ b. Rest b (ends_in_multi (y ∷ ys)) [] ys) mx alone in
      subst (λ zs. Holds r (A × PathMatches (x ∷ zs) (s ∷ ss)) (B × PathMatches (y ∷ ys) (s ∷ ss)))
        (sym none_left)
        (rest_left _ r ys (ends_in_multi (y ∷ ys)) _ _ e' (multi_left rel x y s ss A B h ys wy mx))

  round_multi_right :
      x.multi ≡ false
      → y.multi ≡ true
      → Rest (ends_in_multi (x ∷ xs)) (ends_in_multi (y ∷ ys)) xs ys
      → Holds r (A × PathMatches (x ∷ xs) (s ∷ ss)) (B × PathMatches (y ∷ ys) (s ∷ ss))
  round_multi_right mx my e =
      let none_left = wy.0 my in
      let alone : Rest (ends_in_multi (x ∷ xs)) y.multi xs [] =
        subst (λ zs. Rest (ends_in_multi (x ∷ xs)) (ends_in_multi (y ∷ zs)) xs zs) none_left e in
      let e' : Rest (ends_in_multi (x ∷ xs)) true xs [] =
        subst (λ b. Rest (ends_in_multi (x ∷ xs)) b xs []) my alone in
      subst (λ zs. Holds r (A × PathMatches (x ∷ xs) (s ∷ ss)) (B × PathMatches (y ∷ zs) (s ∷ ss)))
        (sym none_left)
        (rest_right _ r xs (ends_in_multi (x ∷ xs)) _ _ (ended_right xs e')
          (multi_right rel x y s ss A B h xs wx mx my))
    where
      ended_right :
          (us : List Segment)
          → Rest (ends_in_multi (x ∷ xs)) true us []
          → compare_rest
              (some (ends_in_multi (x ∷ xs)))
              (some true)
              (ended (combine_relationships rel (compare_segments x y)) us [])
            ≡ some r
      ended_right [] k = unfold compare_loop in k
      ended_right (u ∷ us) k = unfold compare_loop in k

  round_plain :
      x.multi ≡ false
      → y.multi ≡ false
      → (Rest (ends_in_multi xs) (ends_in_multi ys) xs ys
          → Holds r ((A × Front x s) × PathMatches xs ss) ((B × Front y s) × PathMatches ys ss))
      → Rest (ends_in_multi (x ∷ xs)) (ends_in_multi (y ∷ ys)) xs ys
      → Holds r (A × PathMatches (x ∷ xs) (s ∷ ss)) (B × PathMatches (y ∷ ys) (s ∷ ss))
  round_plain mx my later e = Holds-map r (regroup A x xs mx) (regroup B y ys my) (
      later (
        subst (λ b. Rest (ends_in_multi xs) b xs ys) (ends_in_multi-cons y ys my)
          (subst (λ b. Rest b (ends_in_multi (y ∷ ys)) xs ys) (ends_in_multi-cons x xs mx) e)))
    where
      regroup :
          (C : Type 0) (seg : Segment) (ps : List Segment)
          → seg.multi ≡ false
          → ((C × Front seg s) × PathMatches ps ss) ↔ (C × PathMatches (seg ∷ ps) (s ∷ ss))
      regroup C seg ps m =
          let (there, back) = PathMatches-literal seg ps s ss m in
          let (front, plain) = literal-Front seg s m in
          (λ k. (k.0.0, back (plain k.0.1, k.1)), λ k. ((k.0, front (there k.1).0), (there k.1).1))

  round :
      (Rest (ends_in_multi xs) (ends_in_multi ys) xs ys
        → Holds r ((A × Front x s) × PathMatches xs ss) ((B × Front y s) × PathMatches ys ss))
      → compare_rest
          (some (ends_in_multi (x ∷ xs)))
          (some (ends_in_multi (y ∷ ys)))
          (compare_loop rel (x ∷ xs) (y ∷ ys))
        ≡ some r
      → Holds r (A × PathMatches (x ∷ xs) (s ∷ ss)) (B × PathMatches (y ∷ ys) (s ∷ ss))
  round later e =
      elim (Bool-cases (same (combine_relationships rel (compare_segments x y)) disjoint)) [
        | inl d ↦
            let stop : combine_relationships rel (compare_segments x y) ≡ r =
              unfold compare_loop compare_rest in ground (arith, e, d) in
            let apart = same_disjoint _ d in
            rw (sym stop ∙ apart) (excluded rel x y s ss A B h xs ys apart)
        | inr n ↦
            let go : Rest (ends_in_multi (x ∷ xs)) (ends_in_multi (y ∷ ys)) xs ys = goes_on n in
            elim (Bool-cases x.multi) [
              | inl mx ↦ round_multi_left mx go
              | inr mx ↦ elim (Bool-cases y.multi) [
                | inl my ↦ round_multi_right mx my go
                | inr my ↦ round_plain mx my later go
              ]
            ]
      ]
    where
      goes_on :
          same (combine_relationships rel (compare_segments x y)) disjoint ≡ false
          → Rest (ends_in_multi (x ∷ xs)) (ends_in_multi (y ∷ ys)) xs ys
      goes_on n =
          subst
            (λ b.
              compare_rest (some (ends_in_multi (x ∷ xs))) (some (ends_in_multi (y ∷ ys))) (
                if b
                then returned (combine_relationships rel (compare_segments x y))
                else compare_loop (combine_relationships rel (compare_segments x y)) xs ys)
              ≡ some r)
            n (unfold compare_loop in e)

-- The loop and what stands behind it, from any place in the two paths.
pub suffix_sound :
    (xs ys : List Segment) (rel : Relationship) (ss : List Bytes) (A B : Type 0)
    → MultiLast xs
    → MultiLast ys
    → Holds rel A B
    → (r : Relationship)
    → compare_rest (some (ends_in_multi xs)) (some (ends_in_multi ys)) (compare_loop rel xs ys)
      ≡ some r
    → Holds r (A × PathMatches xs ss) (B × PathMatches ys ss)
suffix_sound [] [] rel [] A B wx wy h r e =
    let same_r : rel ≡ r = unfold compare_rest compare_loop in cc e in
    rw (← same_r) (Holds-map rel (λ a. (a, tt), λ a. a.0) (λ b. (b, tt), λ b. b.0) h)
suffix_sound [] [] rel (s ∷ ss) A B wx wy h r e = Holds-never _ _ r (λ a. a.1) (λ b. b.1)
suffix_sound [] (y ∷ ys) rel [] A B wx wy h r e =
    let d : r ≡ disjoint = unfold compare_rest compare_loop in ground (arith, e) in
    rw d (λ a b. b.1)
suffix_sound [] (y ∷ ys) rel (s ∷ ss) A B wx wy h r e =
    let d : r ≡ disjoint = unfold compare_rest compare_loop in ground (arith, e) in
    rw d (λ a b. a.1)
suffix_sound (x ∷ xs) [] rel [] A B wx wy h r e =
    let d : r ≡ disjoint = unfold compare_rest compare_loop in ground (arith, e) in
    rw d (λ a b. a.1)
suffix_sound (x ∷ xs) [] rel (s ∷ ss) A B wx wy h r e =
    let d : r ≡ disjoint = unfold compare_rest compare_loop in ground (arith, e) in
    rw d (λ a b. b.1)
suffix_sound (x ∷ xs) (y ∷ ys) rel [] A B wx wy h r e = Holds-never _ _ r (λ a. a.1) (λ b. b.1)
suffix_sound (x ∷ xs) (y ∷ ys) rel (s ∷ ss) A B (lx, wx) (ly, wy) h r e =
    round rel x y xs ys s ss A B h (lx, wx) (ly, wy) r
      (suffix_sound xs ys (combine_relationships rel (compare_segments x y)) ss (A × Front x s)
        (B × Front y s) wx wy (Front-fact rel x y s A B h) r)
      e
