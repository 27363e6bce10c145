-- ===== src/RateLimiter/Parse/WellFormed.antt =====
-- What `newPattern` (ratelimiter/v2/pattern.go) returns.
use issue.Base.{
  ◌≡◌, ◌≢◌, refl, subst, sym, none, ◌⊎◌, inl, inr, true, not, List, [], ◌∷◌, arith, Bytes, codes,
  ◌=ᵇ◌, length, has_byte, member, before, ok, fail, ok-of_bind, Bool-cases,
}
use issue.RateLimiter.Pattern.{Pattern, match}
use issue.RateLimiter.Pattern.Matching.{match_of_no_segments}
use issue.RateLimiter.Parse.{
  out_of_fuel, methods, validate_method, segments_loop, parse_path, after_space, new_pattern,
}
use issue.RateLimiter.Parse.Loop.{
  Outcome, Inv-nil, NoFuelOut, bind-NoFuelOut, if-NoFuelOut, loop_fuel, loop_Outcome,
}

-- The pattern as parsed from `p`, with the method given.
abbrev Parsed : Bytes → Bytes → Pattern → Type 0
Parsed p method q = Outcome q.segments × (q.method ≡ method) × (q.pattern ≡ p)

parse_path-Parsed :
    (p method path : Bytes) (q : Pattern) → parse_path p method path ≡ ok q → Parsed p method q
unfolding parse_path
parse_path-Parsed p method path q e = elim (Bool-cases (not (has_byte b'/' path))) [
  | inl bad ↦ cc (rw bad at e)
  | inr good ↦
      let (segs, looped, e') =
        ok-of_bind (segments_loop (length path) path [] [])
          (λ segs. ok (record { pattern = p; method = method; segments = segs })) (rw good at e) in
      let out = loop_Outcome (length path) path [] [] segs Inv-nil looped in
      let same : record { pattern = p; method = method; segments = segs } ≡ q = cc in
      subst (Parsed p method) same (out, refl, refl)
]

valid_method :
    (method : Bytes) (u : Unit {0}) → validate_method method ≡ ok u → member method methods ≡ true
unfolding validate_method
valid_method method u e = ground arith

-- A pattern that is accepted keeps its text, has no method or a known one, a multi at most at its
-- end, and identifiers with non-empty names that are all different.
pub new_pattern-Outcome :
    (p : Bytes) (q : Pattern)
    → new_pattern p ≡ ok q
    → Outcome q.segments × (q.pattern ≡ p) × ((q.method ≡ []) ⊎ (member q.method methods ≡ true))
unfolding new_pattern
new_pattern-Outcome p q e = elim (Bool-cases (p =ᵇ [])) [
  | inl nothing ↦ cc (rw nothing at e)
  | inr something ↦ elim (Bool-cases (has_byte b' ' p)) [
    | inr no_space ↦
        let (o, m, t) = parse_path-Parsed p [] p q (rw (something, no_space) at e) in (o, t, inl m)
    | inl space ↦
        let (u, valid, e') =
          ok-of_bind (validate_method (before b' ' p))
            (λ u. parse_path p (before b' ' p) (after_space p)) (rw (something, space) at e) in
        let (o, m, t) = parse_path-Parsed p (before b' ' p) (after_space p) q e' in
        (
          o,
          t,
          inr (
              subst (λ m'. member m' methods ≡ true) (sym m)
                (valid_method (before b' ' p) u valid)),
        )
  ]
]

parse_path-NoFuelOut : (p method path : Bytes) → NoFuelOut (parse_path p method path)
unfolding parse_path
parse_path-NoFuelOut p method path =
    if-NoFuelOut (not (has_byte b'/' path)) _ _ (λ e. cc e)
      (bind-NoFuelOut (segments_loop (length path) path [] []) _
        (loop_fuel (length path) path [] [] (omega arith)) (λ segs e. cc e))

-- `newPattern` always comes to an end: no text asks for more rounds of the loop than it has bytes.
pub new_pattern-ends : (p : Bytes) → new_pattern p ≢ fail out_of_fuel
unfolding new_pattern
new_pattern-ends p =
    if-NoFuelOut (p =ᵇ []) _ _ (λ e. cc e)
      (if-NoFuelOut (has_byte b' ' p) _ _
        (bind-NoFuelOut (validate_method (before b' ' p)) _ (known_method (before b' ' p))
          (λ u. parse_path-NoFuelOut p (before b' ' p) (after_space p)))
        (parse_path-NoFuelOut p [] p))
  where
    known_method : (method : Bytes) → NoFuelOut (validate_method method)
    known_method method = unfold validate_method in ground arith

-- `newPattern` accepts the root path, and what it returns makes `match` panic, whatever the request.
pub root_panics :
    (method x : Bytes) (xs : List Bytes)
    → (q : Pattern) × (new_pattern (codes "/") ≡ ok q) × (match q method (x ∷ xs) ≡ none)
root_panics method x xs = (
  record { pattern = codes "/"; method = []; segments = [] },
  unfold new_pattern segments_loop has_byte ◌=ᵇ◌ in refl,
  match_of_no_segments (record { pattern = codes "/"; method = []; segments = [] }) method x xs refl
      (inl refl),
)
