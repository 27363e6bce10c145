-- ===== src/Readiness.antt =====
-- Readiness probes at startup: internal/readiness/readiness.go. The context with its timeout and
-- `retry.Do` are one parameter; the name of a checker, which reflection gives, is a field.
pub mod Answered
mod Tests
use issue.Base.{
  ◌++◌, Bytes, ℕ, ◌*◌, Bool, true, false, List, [], ◌∷◌, Option, none, some, Result, ok, fail,
  panic, codes, if◌then◌else◌,
}
use issue.Errors.Fault.{Fault, noted}
use issue.Retry.{Strategy, RetryDo}

-- ReadyChecker: Ready changes the world and returns an error or nil.
abbrev pub ReadyChecker : Type 0 → Type 0
ReadyChecker W = W → W × Option Fault

pub record State (W : Type 0) : Type 0 where
  pub checker : ReadyChecker W
  pub is_optional : Bool
  pub name : Bytes

pub record Readiness (W : Type 0) : Type 0 where
  pub checkers : List (State W)
  pub strategies : List Strategy

-- The calls of Log.
pub data Line : Type 0 where
  ready : Bytes → Line
  not_ready : Bytes → Bool → Fault → Line

pub record Probe (W : Type 0) : Type 0 where
  pub world : W
  pub log : List Line

-- time.Minute and time.Second times those, in nanoseconds
unfoldable pub timeout_of : Bool → ℕ
timeout_of is_optional = if is_optional then 30 * 1000000000 else 2 * 60 * 1000000000

unfoldable pub could_not_start : Bytes → Fault → Fault
could_not_start name err = noted (codes "dependency " ++ name ++ codes " could not start") err

module _ {W : Type 0} where
  unfoldable pub new_readiness : List Strategy → Readiness W
  new_readiness strategies = record { checkers = []; strategies = strategies }

  unfoldable pub add_state : State W → Readiness W → Readiness W
  add_state s r = record r { checkers = r.checkers ++ s ∷ [] }

  -- Add, with the name of the type of the checker
  unfoldable pub add : Bytes → ReadyChecker W → Readiness W → Readiness W
  unfolding add_state
  add name checker r = add_state (record { checker = checker; is_optional = false; name = name }) r

  -- AddOptional
  unfoldable pub add_optional : Bytes → ReadyChecker W → Readiness W → Readiness W
  unfolding add_state
  add_optional name checker r =
      add_state (record { checker = checker; is_optional = true; name = name }) r

  -- TryAdd; the candidate is none where it is no ReadyChecker.
  unfoldable pub try_add : Bytes → Option (ReadyChecker W) → Readiness W → Readiness W × Bool
  unfolding add
  try_add name none r = (r, false)
  try_add name (some checker) r = (add name checker r, true)

  -- What an attempt does with the answer of the checker.
  unfoldable pub report : State W → List Line → W × Option Fault → Probe W × Result Fault (Unit {0})
  unfolding could_not_start
  report s log (world, none) = (record { world = world; log = log ++ ready s.name ∷ [] }, ok tt)
  report s log (world, some err) = (
    record { world = world; log = log ++ not_ready s.name s.is_optional err ∷ [] },
    if s.is_optional then ok tt else fail (could_not_start s.name err),
  )

  -- The function that is given to `retry.Do`.
  unfoldable pub attempt : State W → Probe W → Probe W × Result Fault (Unit {0})
  unfolding report
  attempt s probe = report s probe.log (s.checker probe.world)

  abbrev pub go_on :
      (Probe W → Probe W × Result Fault (Unit {0}))
      → Probe W × Result Fault (Unit {0})
      → Probe W × Result Fault (Unit {0})
  go_on next (probe, ok t) = next probe
  go_on next (probe, fail err) = (probe, fail err)
  go_on next (probe, panic) = (probe, panic)

  module _ (retry_do : ℕ → RetryDo (Probe W)) where
    unfoldable pub check_all :
        List Strategy → List (State W) → Probe W → Probe W × Result Fault (Unit {0})
    unfolding timeout_of attempt
    check_all how [] probe = (probe, ok tt)
    check_all how (s ∷ checkers) probe =
        go_on (check_all how checkers) (retry_do (timeout_of s.is_optional) how (attempt s) probe)

    -- IsReady
    unfoldable pub is_ready : Readiness W → Probe W → Probe W × Result Fault (Unit {0})
    unfolding check_all
    is_ready r probe = check_all r.strategies r.checkers probe
