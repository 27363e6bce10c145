-- ===== src/Retry.antt =====
-- The library kamilsk/retry as the repository uses it: strategies, and `retry.Do`, which is a
-- parameter of what calls it.
pub mod Attempts
pub mod Loop
use issue.Base.{ℕ, Bool, true, ◌&&◌, List, [], ◌∷◌, Option, Result}
use issue.Errors.Fault.{Fault}

-- strategy.Strategy of kamilsk/retry: the number of the attempt, from 0, and the error of the one
-- before, if there was one. The breaker is left out.
abbrev pub Strategy : Type 0
Strategy = ℕ → Option Fault → Bool

-- All strategies allow the attempt.
unfoldable pub allow : List Strategy → Strategy
allow [] attempt err = true
allow (strategy ∷ how) attempt err = strategy attempt err && allow how attempt err

-- retry.Do of kamilsk/retry, at the state that the action changes.
abbrev pub RetryDo : Type 0 → Type 0
RetryDo S = List Strategy → (S → S × Result Fault (Unit {0})) → S → S × Result Fault (Unit {0})
