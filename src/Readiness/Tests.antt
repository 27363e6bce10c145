-- ===== src/Readiness/Tests.antt =====
-- The theorem on internal/readiness at a checker that is up at its second attempt, and an optional
-- one that stays down.
use issue.Base.{◌≡◌, refl, ℕ, ◌+◌, true, none, some, [], ◌∷◌, ok, All, ltb, codes, if◌then◌else◌}
use issue.Errors.Chain.{leaf, plain}
use issue.Errors.Fault.{Fault, single}
use issue.Retry.{Strategy, allow}
use issue.Retry.Loop.{retry_ten, retry_ten-Runs}
use issue.Readiness.{Readiness, ReadyChecker, Probe, new_readiness, add, add_optional, is_ready}
use issue.Readiness.Answered.{IsUp, is_ready-IsUp}

abbrev down : Fault
down = single (leaf (plain (codes "connection refused")))

abbrev database : ReadyChecker ℕ
database w = (w + 1, if ltb w 1 then some down else none)

abbrev search_engine : ReadyChecker ℕ
search_engine w = (w, some down)

abbrev nine_retries : Strategy
nine_retries n err = ltb n 10

abbrev dependencies : Readiness ℕ
unfolding new_readiness add add_optional
dependencies =
    add (codes "database") database
      (add_optional (codes "search") search_engine (new_readiness (nine_retries ∷ [])))

abbrev start : Probe ℕ
start = record { world = 0; log = [] }

dependencies_allowed : allow dependencies.strategies 0 none ≡ true
unfolding allow dependencies
dependencies_allowed = refl

dependencies_ready : (is_ready (λ timeout. retry_ten) dependencies start).1 ≡ ok tt
unfolding is_ready allow plain dependencies
dependencies_ready = refl

is_ready-IsUp_example : All IsUp dependencies.checkers
is_ready-IsUp_example =
    is_ready-IsUp (λ timeout. retry_ten) (λ timeout. retry_ten-Runs) dependencies start
      dependencies_allowed dependencies_ready
