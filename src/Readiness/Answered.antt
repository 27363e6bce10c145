-- ===== src/Readiness/Answered.antt =====
-- What IsReady of internal/readiness/readiness.go promises where it returns no error.
use issue.Base.{
  ◌≡◌, refl, ap, ◌⊎◌, inl, inr, ℕ, ◌+◌, Bool, true, false, List, [], ◌∷◌, Option, none, some,
  Result, ok, fail, panic, All, if◌then◌else◌,
}
use issue.Errors.Fault.{Fault}
use issue.Retry.{Strategy, allow, RetryDo}
use issue.Retry.Attempts.{Runs, refused, interrupted, succeeded, crashed, again}
use issue.Readiness.{
  State, Readiness, Probe, Line, timeout_of, could_not_start, report, attempt, go_on, check_all,
  is_ready,
}

-- An error that is reported makes the attempt fail unless the checker is optional.
ok-optional :
    (b : Bool) (err : Fault)
    → ◌≡◌ {A = Result Fault (Unit {0})} (if b then ok tt else fail err) (ok tt)
    → b ≡ true
ok-optional true err h = refl
ok-optional false err h = absurd (cc h)

module _ {W : Type 0} where
  -- The checker is optional, or was asked in some world and had no error.
  abbrev pub IsUp : State W → Type 0
  IsUp s = (s.is_optional ≡ true) ⊎ ((w : W) × ((w' : W) × (s.checker w ≡ (w', none))))

  report-IsUp :
      (s : State W) (log : List Line) (w : W) (answer : W × Option Fault)
      → s.checker w ≡ answer
      → (report s log answer).1 ≡ ok tt
      → IsUp s
  unfolding report
  report-IsUp s log w (w', none) asked h = inr (w, (w', asked))
  report-IsUp s log w (w', some err) asked h =
      inl (ok-optional s.is_optional (could_not_start s.name err) h)

  attempt-IsUp : (s : State W) (probe probe' : Probe W) → attempt s probe ≡ (probe', ok tt) → IsUp s
  unfolding attempt
  attempt-IsUp s probe probe' h =
      report-IsUp s probe.log probe.world (s.checker probe.world) refl (ap (λ end. end.1) h)

  module _ (how : List Strategy) (s : State W) where
    Runs-IsUp :
        (n : ℕ) (err : Option Fault) (probe : Probe W) (end : Probe W × Result Fault (Unit {0}))
        → Runs how (attempt s) n err probe end
        → (err ≡ none → allow how n none ≡ true)
        → end.1 ≡ ok tt
        → IsUp s
    Runs-IsUp n none probe end (refused _ _ _ h) first e = absurd (cc (h, first refl))
    Runs-IsUp n (some err) probe end (refused _ _ _ h) first e = absurd (cc e)
    Runs-IsUp n err probe end (interrupted _ _ _ cause) first e = absurd (cc e)
    Runs-IsUp n err probe end (succeeded _ _ _ probe' h a) first e = attempt-IsUp s probe probe' a
    Runs-IsUp n err probe end (crashed _ _ _ probe' h a) first e = absurd (cc e)
    Runs-IsUp n err probe end (again _ _ _ probe' cause _ h a rest) first e =
        Runs-IsUp (n + 1) (some cause) probe' end rest (λ e. absurd (cc e)) e

  -- A chain that ended well had a first step that ended well.
  go_on-ok :
      (next : Probe W → Probe W × Result Fault (Unit {0})) (end : Probe W × Result Fault (Unit {0}))
      → (go_on next end).1 ≡ ok tt
      → (end.1 ≡ ok tt) × ((next end.0).1 ≡ ok tt)
  go_on-ok next (probe, ok t) h = (refl, h)
  go_on-ok next (probe, fail err) h = absurd (cc h)
  go_on-ok next (probe, panic) h = absurd (cc h)

  module _ (retry_do : ℕ → RetryDo (Probe W))
      (documented : (timeout : ℕ) (how : List Strategy)
          (act : Probe W → Probe W × Result Fault (Unit {0})) (probe : Probe W)
        → Runs how act 0 none probe (retry_do timeout how act probe)) where
    check_all-IsUp :
        (how : List Strategy) (checkers : List (State W)) (probe : Probe W)
        → allow how 0 none ≡ true
        → (check_all retry_do how checkers probe).1 ≡ ok tt
        → All IsUp checkers
    unfolding check_all
    check_all-IsUp how [] probe allowed h = tt
    check_all-IsUp how (s ∷ checkers) probe allowed h =
        let first = retry_do (timeout_of s.is_optional) how (attempt s) probe in
        let (ended, rest) = go_on-ok (check_all retry_do how checkers) first h in
        (
          Runs-IsUp how s 0 none probe first
              (documented (timeout_of s.is_optional) how (attempt s) probe) (λ e. allowed) ended,
          check_all-IsUp how checkers first.0 allowed rest,
        )

    -- Where the strategies allow a first attempt and IsReady returns no error, every checker that is
    -- not optional was asked and had no error: no required dependency is skipped.
    pub is_ready-IsUp :
        (r : Readiness W) (probe : Probe W)
        → allow r.strategies 0 none ≡ true
        → (is_ready retry_do r probe).1 ≡ ok tt
        → All IsUp r.checkers
    unfolding is_ready
    is_ready-IsUp r probe allowed h = check_all-IsUp r.strategies r.checkers probe allowed h
