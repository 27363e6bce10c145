-- ===== src/RateLimiter/Manager/Requests.antt =====
-- The decision of `Manager.Allow` (ratelimiter/v2/rate_limiter.go).
use issue.Base.{
  ℕ, zero, suc, ◌≡◌, refl, ap, ◌⊎◌, inl, inr, Bool, true, false, List, [], ◌∷◌, arith, Bytes,
  length, get_elem?, split, Option, none, some, Option-cases, if◌then◌else◌, All, All-map,
}
use issue.Base.Table.{lookup}
use issue.Rate.Window.{Time, Verdict, granted}
use issue.Rate.Limiter
use issue.Rate.Limiter.{WindowConfig, Limiter}
use issue.Rate.Limiter.Overrides.{override_windows_known, override_windows_unknown}
use issue.RateLimiter.Pattern.{Pattern}
use issue.RateLimiter.Pattern.Matching.{match-Decides}
use issue.RateLimiter.Pattern.Soundness.{IsProper, Accepts}
use issue.RateLimiter.Manager.{Manager, decide, exceeded, overridden, allow_loop, allow}
use issue.RateLimiter.Manager.Precedence.{Narrower, Ordered, IsLoaded}

override_windows_total :
    (l : Limiter) (key : Bytes) (os : List WindowConfig)
    → (l' : Limiter) × (Limiter.override_windows l key os ≡ some l')
override_windows_total l key os = elim (Option-cases (lookup key l.windows)) [
  | inl n ↦ (l, override_windows_unknown l key os n)
  | inr (ws, known) ↦ let (l', e, _, _) = override_windows_known l key os ws known in (l', e)
]

-- The code does not panic.
abbrev Returns : {A : Type 0} → Option A → Type 0
Returns {A} o = (a : A) × (o ≡ some a)

if-Returns :
    {A : Type 0} (b : Bool) (o o' : Option A)
    → Returns o
    → Returns o'
    → Returns (if b then o else o')
if-Returns true o o' h h' = h
if-Returns false o o' h h' = h'

module _ (fetch : Bytes → Bytes → Bool × List WindowConfig) where
  exceeded-Returns : (mode : Bytes) (l : Limiter) (v : Verdict) → Returns (exceeded fetch mode l v)
  unfolding exceeded
  exceeded-Returns mode l v = (_, refl)

  overridden-Returns :
      (mode key : Bytes) (later : Time) (o : Option Limiter)
      → Returns o
      → Returns (overridden fetch mode key later o)
  unfolding overridden
  overridden-Returns mode key later none (l, e) = cc e
  overridden-Returns mode key later (some l) h =
      if-Returns _ _ _ (_, refl) (exceeded-Returns mode l (Limiter.would_allow l key later))

  pub decide-Returns :
      (mode key text : Bytes) (now later : Time) (l : Limiter)
      → Returns (decide fetch mode key text now later l)
  unfolding decide
  decide-Returns mode key text now later l =
      let (l', v) = Limiter.allow l key now in
      if-Returns _ _ _ (_, refl)
        (if-Returns _ _ _
          (overridden-Returns mode key later _ (override_windows_total l' key (fetch key text).1))
          (exceeded-Returns mode l' v))

-- The list with the element at the index replaced.
abbrev pub set {ℓ} : {A : Type ℓ} → List A → ℕ → A → List A
set [] i v = []
set (x ∷ xs) zero v = v ∷ xs
set (x ∷ xs) (suc i) v = x ∷ set xs i v

-- The pattern accepts no request that this one is not among, as far as the two meet: it is the
-- narrowest of the patterns that match the request.
abbrev pub IsNarrowest : List Pattern → Pattern → Bytes → List Bytes → Type 0
IsNarrowest ps p method segments =
    All
      (λ q.
        Accepts q method segments → (m : Bytes) (x : List Bytes) → Accepts p m x → Accepts q m x)
      ps

-- How the loop over the patterns ends: no pattern matches and nothing changes; or the narrowest that
-- matches has its limiter decide, and only that limiter changes.
module _ (fetch : Bytes → Bytes → Bool × List WindowConfig) (mode method : Bytes)
    (segments : List Bytes) (key : Bytes) (now later : Time) where
  pub record MatchedAt (ps : List Pattern) (ls ls' : List Limiter) (v : Verdict) : Type 0 where
    pub index : ℕ
    pub pattern : Pattern
    pub limiter : Limiter
    pub limiter' : Limiter
    pub at_pattern : get_elem? ps index ≡ some pattern
    pub at_limiter : get_elem? ls index ≡ some limiter
    pub matches : Accepts pattern method segments
    pub narrowest : IsNarrowest ps pattern method segments
    pub decided : decide fetch mode key pattern.pattern now later limiter ≡ some (limiter', v)
    pub rest_kept : ls' ≡ set ls index limiter'

  abbrev pub Ends : List Pattern → List Limiter → List Limiter × Verdict → Type 0
  Ends ps ls (ls', v) =
      (All (λ p. ¬ Accepts p method segments) ps × (ls' ≡ ls) × (v ≡ granted))
      ⊎ MatchedAt ps ls ls' v

  IsNarrowest-of_Ordered :
      (p : Pattern) (ps : List Pattern)
      → Accepts p method segments
      → All (Narrower p) ps
      → IsNarrowest (p ∷ ps) p method segments
  IsNarrowest-of_Ordered p ps a o = ((λ _ m x h. h), All-map (λ q. wider q) ps o)
    where
      wider :
          (q : Pattern)
          → Narrower p q
          → Accepts q method segments
          → (m : Bytes) (x : List Bytes) → Accepts p m x
          → Accepts q m x
      wider q (inl f) b = f
      wider q (inr g) b = absurd (g method segments a b)

  MatchedAt-behind :
      (p : Pattern) (l : Limiter) (ps : List Pattern) (ls ls' : List Limiter) (v : Verdict)
      → ¬ Accepts p method segments
      → MatchedAt ps ls ls' v
      → MatchedAt (p ∷ ps) (l ∷ ls) (l ∷ ls') v
  MatchedAt-behind p l ps ls ls' v n at = record {
    index = suc at.index;
    pattern = at.pattern;
    limiter = at.limiter;
    limiter' = at.limiter';
    at_pattern = at.at_pattern;
    at_limiter = at.at_limiter;
    matches = at.matches;
    narrowest = ((λ a. absurd (n a)), at.narrowest);
    decided = at.decided;
    rest_kept = ap (λ zs. l ∷ zs) at.rest_kept;
  }

  Ends-behind :
      (p : Pattern) (l : Limiter) (ps : List Pattern) (ls : List Limiter)
      (r : List Limiter × Verdict)
      → ¬ Accepts p method segments
      → Ends ps ls r
      → Ends (p ∷ ps) (l ∷ ls) (l ∷ r.0, r.1)
  Ends-behind p l ps ls r n (inl (none_, same_, v)) = inl ((n, none_), ap (λ zs. l ∷ zs) same_, v)
  Ends-behind p l ps ls (ls', v) n (inr at) = inr (MatchedAt-behind p l ps ls ls' v n at)

  allow_loop-Ends :
      (ps : List Pattern) (ls : List Limiter)
      → length ls ≡ length ps
      → All IsProper ps
      → Ordered ps
      → (r : List Limiter × Verdict) × (allow_loop fetch mode method segments key now later ps ls
          ≡ some r)
        × Ends ps ls r
  unfolding allow_loop
  allow_loop-Ends [] ls n w o = ((ls, granted), refl, inl (tt, refl, refl))
  allow_loop-Ends (p ∷ ps) [] n w o = absurd (omega arith)
  allow_loop-Ends (p ∷ ps) (l ∷ ls) n (wp, w) (op, o) =
      elim (match-Decides p method segments wp.some_segment wp.multi_last) [
        | inl (yes_, _) ↦
            let ((l', v), e) = decide-Returns fetch mode key p.pattern now later l in
            (
              (l' ∷ ls, v),
              ground (arith, yes_, e),
              inr (record {
                index = 0;
                pattern = p;
                limiter = l;
                limiter' = l';
                at_pattern = refl;
                at_limiter = refl;
                matches = yes_;
                narrowest = IsNarrowest-of_Ordered p ps yes_ op;
                decided = e;
                rest_kept = refl;
              }),
            )
        | inr (no_, _) ↦
            let (r, e, ends) = allow_loop-Ends ps ls (omega (arith, n)) w o in
            (
              (l ∷ r.0, r.1),
              ground (arith, no_, e),
              Ends-behind p l ps ls r (λ a. cc (no_, a)) ends,
            )
      ]

-- An enabled manager that was loaded answers every request with a path that begins with one byte
-- (the slash), without a panic. If no pattern matches, the request is granted and nothing changes;
-- else the decision is that of the limiter of a matching pattern, the narrowest of all that match,
-- and no other limiter changes.
pub allow-Ends :
    (fetch : Bytes → Bytes → Bool × List WindowConfig) (m : Manager) (method : Bytes) (c : ℕ)
    (path key : Bytes) (now later : Time)
    → IsLoaded m
    → m.enabled ≡ true
    → (ls : List Limiter) × (v : Verdict) × (allow fetch m method (c ∷ path) key now later
        ≡ some (record m { limiters = ls }, v))
      × Ends fetch m.mode method (split b'/' path) key now later m.patterns m.limiters (ls, v)
unfolding allow
allow-Ends fetch m method c path key now later w on =
    let ((ls, v), e, ends) =
      allow_loop-Ends fetch m.mode method (split b'/' path) key now later m.patterns m.limiters
        w.paired w.proper w.ordered in
    (ls, v, ground (arith, on, e), ends)
