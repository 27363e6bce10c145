-- ===== src/Retry/Loop.antt =====
-- A loop that follows the documentation of kamilsk/retry, interrupted after ten attempts: the
-- instance of the parameter `retry.Do` at which the theorems are tried.
use issue.Base.{
  ℕ, zero, suc, ◌+◌, ◌≡◌, refl, true, List, Option, none, some, Result, ok, fail, panic,
  if◌then◌else◌, Bool-cases, inl, inr,
}
use issue.Errors.Fault.{Fault, own, must_stop}
use issue.Retry.{Strategy, allow, RetryDo}
use issue.Retry.Attempts.{Runs, last, refused, interrupted, succeeded, crashed, again}

module _ {S : Type 0} (how : List Strategy) (act : S → S × Result Fault (Unit {0})) where
  abbrev go_on :
      (S → Fault → S × Result Fault (Unit {0}))
      → S × Result Fault (Unit {0})
      → S × Result Fault (Unit {0})
  go_on next (s', ok t) = (s', ok t)
  go_on next (s', fail cause) = next s' cause
  go_on next (s', panic) = (s', panic)

  abbrev attempt : ℕ → ℕ → Option Fault → S → S × Result Fault (Unit {0})
  attempt zero n err s = (s, fail (own must_stop))
  attempt (suc fuel) n err s =
      if allow how n err
      then go_on (λ s' cause. attempt fuel (n + 1) (some cause) s') (act s)
      else (s, last err)

  outcome-Runs :
      (fuel n : ℕ) (err : Option Fault) (s : S)
      → ((s' : S) (cause : Fault)
          → Runs how act (n + 1) (some cause) s' (attempt fuel (n + 1) (some cause) s'))
      → allow how n err ≡ true
      → (outcome : S × Result Fault (Unit {0})) → act s ≡ outcome
      → Runs how act n err s (go_on (λ s' cause. attempt fuel (n + 1) (some cause) s') outcome)
  outcome-Runs fuel n err s rest allowed (s', ok t) e = succeeded n err s s' allowed e
  outcome-Runs fuel n err s rest allowed (s', fail cause) e =
      again n err s s' cause (attempt fuel (n + 1) (some cause) s') allowed e (rest s' cause)
  outcome-Runs fuel n err s rest allowed (s', panic) e = crashed n err s s' allowed e

  attempt-Runs :
      (fuel n : ℕ) (err : Option Fault) (s : S) → Runs how act n err s (attempt fuel n err s)
  attempt-Runs zero n err s = interrupted n err s (own must_stop)
  attempt-Runs (suc fuel) n err s = elim (Bool-cases (allow how n err)) [
    | inl allowed ↦ rw allowed (
        outcome-Runs fuel n err s (λ s' cause. attempt-Runs fuel (n + 1) (some cause) s') allowed
          (act s) refl)
    | inr no_more ↦ rw no_more (refused n err s no_more)
  ]

abbrev pub retry_ten : {S : Type 0} → RetryDo S
retry_ten how act s = attempt how act 10 0 none s

pub retry_ten-Runs :
    {S : Type 0} (how : List Strategy) (act : S → S × Result Fault (Unit {0})) (s : S)
    → Runs how act 0 none s (retry_ten how act s)
retry_ten-Runs how act s = attempt-Runs how act 10 0 none s
