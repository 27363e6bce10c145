-- ===== src/RateLimiter/Manager/Modes.antt =====
-- The modes of the manager (ratelimiter/v2/rate_limiter.go): disabled, reporting, enforcing.
use issue.Base.{
  ◌≡◌, refl, subst, Bool, true, false, List, [], ◌∷◌, arith, Bytes, codes, =ᵇ_refl, split, Option,
  none, some, if◌then◌else◌,
}
use issue.Rate.Window.{Time, Verdict, granted}
use issue.Rate.Limiter
use issue.Rate.Limiter.{WindowConfig, Limiter}
use issue.RateLimiter.Pattern.{Pattern, match}
use issue.RateLimiter.Manager.{
  Manager, decide, exceeded, overridden, behind, in_front, allow_loop, with_limiters, allow,
}

-- Where there is a result at all, the request is granted.
pub record IsGranted {A : Type 0} (o : Option (A × Verdict)) : Type 0 where
  pub at : (a : A) (v : Verdict) → o ≡ some (a, v) → v.allowed ≡ true

none-IsGranted : {A : Type 0} → IsGranted {A = A} none
none-IsGranted = record { at = λ a v e. cc e }

some-IsGranted : {A : Type 0} (a : A) (v : Verdict) → v.allowed ≡ true → IsGranted (some (a, v))
some-IsGranted a v h = record {
  at = λ a' v' e. let same : v ≡ v' = cc e in subst (λ u. u.allowed ≡ true) same h;
}

if-IsGranted :
    {A : Type 0} (b : Bool) (o o' : Option (A × Verdict))
    → IsGranted o
    → IsGranted o'
    → IsGranted (if b then o else o')
if-IsGranted true o o' h h' = h
if-IsGranted false o o' h h' = h'

on_match :
    {A : Type 0} (o : Option Bool) (hit miss : Option (A × Verdict))
    → IsGranted hit
    → IsGranted miss
    → IsGranted (elim o [ none ↦ none | some true ↦ hit | some false ↦ miss ])
on_match none hit miss h k = none-IsGranted
on_match (some true) hit miss h k = h
on_match (some false) hit miss h k = k

module _ (fetch : Bytes → Bytes → Bool × List WindowConfig) (mode : Bytes)
    (reporting : mode ≡ codes "reporting") where
  exceeded-IsGranted : (l : Limiter) (v : Verdict) → IsGranted (exceeded fetch mode l v)
  unfolding exceeded
  exceeded-IsGranted l v =
      rw (reporting, =ᵇ_refl (codes "reporting")) (some-IsGranted l granted refl)

  overridden-IsGranted :
      (key : Bytes) (later : Time) (o : Option Limiter)
      → IsGranted (overridden fetch mode key later o)
  unfolding overridden
  overridden-IsGranted key later none = none-IsGranted
  overridden-IsGranted key later (some l) =
      if-IsGranted _ _ _ (some-IsGranted l granted refl)
        (exceeded-IsGranted l (Limiter.would_allow l key later))

  decide-IsGranted :
      (key text : Bytes) (now later : Time) (l : Limiter)
      → IsGranted (decide fetch mode key text now later l)
  unfolding decide
  decide-IsGranted key text now later l =
      let (l', v) = Limiter.allow l key now in
      let (has, os) = fetch key text in
      if-IsGranted _ _ _ (some-IsGranted l' granted refl) (
        if-IsGranted has _ _ (overridden-IsGranted key later (Limiter.override_windows l' key os))
          (exceeded-IsGranted l' v))

  behind-IsGranted :
      (l : Limiter) (o : Option (List Limiter × Verdict))
      → IsGranted o
      → IsGranted (behind fetch l o)
  unfolding behind
  behind-IsGranted l none h = none-IsGranted
  behind-IsGranted l (some (ls, v)) h = some-IsGranted (l ∷ ls) v (h.at ls v refl)

  in_front-IsGranted :
      (ls : List Limiter) (o : Option (Limiter × Verdict))
      → IsGranted o
      → IsGranted (in_front fetch ls o)
  unfolding in_front
  in_front-IsGranted ls none h = none-IsGranted
  in_front-IsGranted ls (some (l, v)) h = some-IsGranted (l ∷ ls) v (h.at l v refl)

  allow_loop-IsGranted :
      (method : Bytes) (segments : List Bytes) (key : Bytes) (now later : Time) (ps : List Pattern)
      (ls : List Limiter)
      → IsGranted (allow_loop fetch mode method segments key now later ps ls)
  unfolding allow_loop
  allow_loop-IsGranted method segments key now later [] ls = some-IsGranted ls granted refl
  allow_loop-IsGranted method segments key now later (p ∷ ps) [] =
      on_match (match p method segments) _ _ none-IsGranted
        (allow_loop-IsGranted method segments key now later ps [])
  allow_loop-IsGranted method segments key now later (p ∷ ps) (l ∷ ls) =
      on_match (match p method segments) _ _
        (in_front-IsGranted ls _ (decide-IsGranted key p.pattern now later l))
        (behind-IsGranted l _ (allow_loop-IsGranted method segments key now later ps ls))

with_limiters-IsGranted :
    (fetch : Bytes → Bytes → Bool × List WindowConfig) (m : Manager)
    (o : Option (List Limiter × Verdict))
    → IsGranted o
    → IsGranted (with_limiters fetch m o)
unfolding with_limiters
with_limiters-IsGranted fetch m none h = none-IsGranted
with_limiters-IsGranted fetch m (some (ls, v)) h =
    some-IsGranted (record m { limiters = ls }) v (h.at ls v refl)

-- In reporting mode no request is refused, however far a limit is exceeded and whatever the overrides
-- say.
pub reporting-IsGranted :
    (fetch : Bytes → Bytes → Bool × List WindowConfig) (m : Manager) (method path key : Bytes)
    (now later : Time)
    → m.mode ≡ codes "reporting"
    → IsGranted (allow fetch m method path key now later)
unfolding allow
reporting-IsGranted fetch m method [] key now later r =
    if-IsGranted m.enabled _ _ none-IsGranted (some-IsGranted m granted refl)
reporting-IsGranted fetch m method (c ∷ path) key now later r =
    if-IsGranted m.enabled _ _
      (with_limiters-IsGranted fetch m _ (
        allow_loop-IsGranted fetch m.mode r method (split b'/' path) key now later m.patterns
          m.limiters))
      (some-IsGranted m granted refl)

-- A disabled manager grants every request, an empty path included, and keeps its state: nothing is
-- counted.
pub disabled_grants :
    (fetch : Bytes → Bytes → Bool × List WindowConfig) (m : Manager) (method path key : Bytes)
    (now later : Time)
    → m.enabled ≡ false
    → allow fetch m method path key now later ≡ some (m, granted)
unfolding allow
disabled_grants fetch m method [] key now later off = ground (arith, off)
disabled_grants fetch m method (c ∷ path) key now later off = ground (arith, off)
