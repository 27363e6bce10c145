-- ===== src/Schedule/Job.antt =====
-- `InProcessJob` of internal/scheduletooling/job.go. `Update` of internal/concurrent/value.go holds a
-- lock, so that each change of the running count is one step; the executions interleave between them.
-- The count is an int64 that is never negative.
pub mod Latch
use issue.Base.{ℕ, zero, suc, ◌+◌, Bool, true, false, ◌≡◌, ltb, if◌then◌else◌}

-- `Value.Update` with the function of `Execute` that takes the latch: the count, and `canRun`.
unfoldable pub take_latch : ℕ → ℕ → ℕ × Bool
take_latch max_running_count running_count =
    if ltb running_count max_running_count
    then (running_count + 1, true)
    else (running_count, false)

-- `Value.Update` with the function of the deferred call: the count, and whether the error that "should
-- never happen" was reported.
unfoldable pub release : ℕ → ℕ × Bool
release zero = (0, true)
release (suc i) = (i, false)

-- The running count, the executions that run between the two updates, and the errors reported.
pub record Runs : Type 0 where
  pub count : ℕ
  pub active : ℕ
  pub reports : ℕ

unfoldable pub no_runs : Runs
no_runs = record { count = 0; active = 0; reports = 0 }

-- What a call of `Execute` does when it takes the latch.
unfoldable pub begin : ℕ → Runs → Runs
unfolding take_latch
begin max s =
    let (count, can_run) = take_latch max s.count in
    record s { count = count; active = if can_run then suc s.active else s.active }

-- What an execution does when it returns or panics.
unfoldable pub finish : ℕ → Runs → Runs
unfolding release
finish rest s =
    let (count, reported) = release s.count in
    record { count = count; active = rest; reports = if reported then suc s.reports else s.reports }

-- The steps of concurrent calls of `Execute` on one job.
pub data Step (max : ℕ) : Runs → Runs → Type 0 where
  begins : (s : Runs) → Step max s (begin max s)
  finishes : (s : Runs) (rest : ℕ) → s.active ≡ suc rest → Step max s (finish rest s)

pub data Reachable (max : ℕ) : Runs → Type 0 where
  start : Reachable max no_runs
  next : (s t : Runs) → Reachable max s → Step max s t → Reachable max t
