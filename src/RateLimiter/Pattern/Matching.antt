-- ===== src/RateLimiter/Pattern/Matching.antt =====
-- `match` of ratelimiter/v2/pattern.go decides whether a request matches a pattern.
use issue.Base.{
  ◌≤◌, ◌≡◌, ◌≢◌, refl, ◌↔◌, ◌⊎◌, inl, inr, Bool, true, false, not, ◌&&◌, List, [], ◌∷◌, Bytes, ◌=ᵇ◌,
  =ᵇ_iff, arith, length, Option, none, some, Bool-cases,
}
use issue.RateLimiter.Pattern.{
  Segment, Pattern, last_segment, and_then, match_loop, fits, literal, match,
}
use issue.RateLimiter.Pattern.Paths.{
  PathMatches, MultiLast, ends_in_multi, length-PathMatches, length-PathMatches_le,
  last_segment-cons, ends_in_multi-cons,
}

-- The test returns, and says whether the proposition holds.
abbrev pub Decides : Option Bool → Type 0 → Type 0
Decides o P = ((o ≡ some true) × P) ⊎ ((o ≡ some false) × ¬ P)

Decides-map : {P Q : Type 0} (o : Option Bool) → P ↔ Q → Decides o P → Decides o Q
Decides-map o e (inl (t, p)) = inl (t, e.0 p)
Decides-map o e (inr (f, n)) = inr (f, λ q. n (e.1 q))

-- The pattern has no method, or it is the request's.
abbrev pub MethodMatches : Pattern → Bytes → Type 0
MethodMatches p method = (p.method ≡ []) ⊎ (p.method ≡ method)

Fits : List Segment → List Bytes → Type 0
Fits ps xs = (length xs ≡ length ps) ⊎ ((ends_in_multi ps ≡ true) × (length ps ≤ length xs))

Fits-tail :
    (seg : Segment) (ps : List Segment) (x : Bytes) (xs : List Bytes)
    → seg.multi ≡ false
    → Fits (seg ∷ ps) (x ∷ xs)
    → Fits ps xs
unfolding Fits
Fits-tail seg ps x xs m (inl e) = inl (omega arith)
Fits-tail seg ps x xs m (inr (e, h)) = inr (cc (ends_in_multi-cons seg ps m), omega arith)

literal-Decides :
    (s x : Bytes) (xs : List Bytes) (rest : Option Bool) (P : Type 0)
    → Decides rest P
    → Decides (literal s (x ∷ xs) rest) ((x ≡ s) × P)
unfolding literal
literal-Decides s x xs rest P d = elim (Bool-cases (x =ᵇ s)) [
  | inl e ↦ rw e (Decides-map rest (λ p. ((=ᵇ_iff x s).0 e, p), λ h. h.1) d)
  | inr e ↦ rw e (inr (refl, λ h. cc ((=ᵇ_iff x s).1 h.0)))
]

match_loop-Decides :
    (ps : List Segment) (xs : List Bytes)
    → MultiLast ps
    → Fits ps xs
    → Decides (match_loop ps xs) (PathMatches ps xs)
unfolding match_loop Fits
match_loop-Decides [] [] w h = inl (refl, tt)
match_loop-Decides [] (x ∷ xs) w (inl e) = absurd (omega arith)
match_loop-Decides [] (x ∷ xs) w (inr (e, h)) = cc e
match_loop-Decides (seg ∷ ps) [] w h = absurd (omega arith)
match_loop-Decides (seg ∷ ps) (x ∷ xs) (last, w) h = elim (Bool-cases seg.multi) [
  | inl m ↦ rw (m, PathMatches) (inl (refl, tt))
  | inr m ↦
      let rest : Decides (match_loop ps xs) (PathMatches ps xs) =
        match_loop-Decides ps xs w (Fits-tail seg ps x xs m h) in
      elim (Bool-cases seg.identifier) [
        | inl i ↦
            rw (m, i, PathMatches) (Decides-map (match_loop ps xs) (λ p. (tt, p), λ p. p.1) rest)
        | inr i ↦
            rw (m, i, PathMatches)
              (literal-Decides seg.s x xs (match_loop ps xs) (PathMatches ps xs) rest)
      ]
]

-- What the tests on the number of segments say: where they stop, no path of that length matches.
fits-Decides : (ps : List Segment) (xs : List Bytes) → ps ≢ [] → Decides (fits ps xs) (Fits ps xs)
unfolding fits Fits
fits-Decides [] xs some_segment = absurd (some_segment refl)
fits-Decides (seg ∷ ps) xs _ = let (l, e, m) = last_segment-cons seg ps in ground (arith, e, m)

PathMatches-Fits :
    (ps : List Segment) (xs : List Bytes) → MultiLast ps → PathMatches ps xs → Fits ps xs
unfolding Fits
PathMatches-Fits ps xs w h = elim (Bool-cases (ends_in_multi ps)) [
  | inl e ↦ inr (e, length-PathMatches_le ps xs w h)
  | inr e ↦ inl (length-PathMatches ps xs w e h)
]

and_then-Decides :
    (a b : Option Bool) (P Q : Type 0)
    → Decides a P
    → (P → Decides b Q)
    → (Q → P)
    → Decides (and_then a b) Q
unfolding and_then
and_then-Decides a b P Q (inl (t, p)) d back = rw t (d p)
and_then-Decides a b P Q (inr (f, n)) d back = rw f (inr (refl, λ q. n (back q)))

-- `match` of a pattern with at least one segment, and a multi at most at its end, never panics: it
-- returns true exactly where the method matches and the path matches segment by segment.
pub match-Decides :
    (p : Pattern) (method : Bytes) (xs : List Bytes)
    → p.segments ≢ []
    → MultiLast p.segments
    → Decides (match p method xs) (MethodMatches p method × PathMatches p.segments xs)
unfolding match
match-Decides p method xs some_segment w =
    let path : Decides (and_then (fits p.segments xs) (match_loop p.segments xs))
        (PathMatches p.segments xs) =
      and_then-Decides (fits p.segments xs) (match_loop p.segments xs) (Fits p.segments xs) _
        (fits-Decides p.segments xs some_segment) (match_loop-Decides p.segments xs w)
        (PathMatches-Fits p.segments xs w) in
    elim (Bool-cases (not (p.method =ᵇ []) && not (p.method =ᵇ method))) [
      | inl bad ↦ rw bad (inr (refl, λ h. other_method bad h.0))
      | inr good ↦ rw good (Decides-map _ (λ q. (this_method good, q), λ h. h.1) path)
    ]
  where
    other_method :
        (not (p.method =ᵇ []) && not (p.method =ᵇ method)) ≡ true → MethodMatches p method → ⊥
    other_method h (inl e) = ground (arith, =ᵇ_iff p.method [])
    other_method h (inr e) = ground (arith, =ᵇ_iff p.method method)

    this_method :
        (not (p.method =ᵇ []) && not (p.method =ᵇ method)) ≡ false → MethodMatches p method
    this_method h = ground (arith, =ᵇ_iff p.method [], =ᵇ_iff p.method method)

no_segments : (x : Bytes) (xs : List Bytes) → fits [] (x ∷ xs) ≡ none
unfolding fits last_segment
no_segments x xs = ground arith

-- On a pattern without segments `match` panics for every request that has a segment and whose method
-- fits.
pub match_of_no_segments :
    (q : Pattern) (method x : Bytes) (xs : List Bytes)
    → q.segments ≡ []
    → (q.method ≡ []) ⊎ (q.method ≡ method)
    → match q method (x ∷ xs) ≡ none
unfolding match
match_of_no_segments q method x xs e h =
    let stuck : fits q.segments (x ∷ xs) ≡ none = rw e (no_segments x xs) in
    let fit : (not (q.method =ᵇ []) && not (q.method =ᵇ method)) ≡ false =
      ground (arith, =ᵇ_iff q.method [], =ᵇ_iff q.method method) in
    rw (fit, stuck) refl
