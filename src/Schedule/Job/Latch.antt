-- ===== src/Schedule/Job/Latch.antt =====
-- The latch of `Execute` (internal/scheduletooling/job.go) under any interleaving of calls.
use issue.Base.{ℕ, suc, ◌≤◌, ◌<◌, ◌≡◌, ◌↔◌, refl, ◌∙◌, true, ltb, arith, Bool-cases, inl, inr}
use issue.Schedule.Job.{
  take_latch, release, Runs, no_runs, begin, finish, begins, finishes, Reachable, start, next,
}

-- The count is the number of executions, at most the limit, and no error was reported.
pub record IsExact (max : ℕ) (s : Runs) : Type 0 where
  pub counted : s.count ≡ s.active
  pub limited : s.active ≤ max
  pub silent : s.reports ≡ 0

begin-IsExact : (max : ℕ) (s : Runs) → IsExact max s → IsExact max (begin max s)
unfolding begin take_latch
begin-IsExact max s x = elim (Bool-cases (ltb s.count max)) [
  | inl room ↦ rw room (record {
    counted = omega (arith, x.counted);
    limited = ground (arith, room, x.counted);
    silent = x.silent;
  })
  | inr full ↦ rw full (record { counted = x.counted; limited = x.limited; silent = x.silent })
]

finish-IsExact :
    (max : ℕ) (s : Runs) (rest : ℕ)
    → s.active ≡ suc rest
    → IsExact max s
    → IsExact max (finish rest s)
unfolding finish release
finish-IsExact max s rest e x =
    let running : s.count ≡ suc rest = x.counted ∙ e in
    rw running (record { counted = refl; limited = omega (arith, e, x.limited); silent = x.silent })

Reachable-IsExact : (max : ℕ) (s : Runs) → Reachable max s → IsExact max s
unfolding no_runs
Reachable-IsExact max s start = record { counted = refl; limited = omega arith; silent = refl }
Reachable-IsExact max s (next t _ r (begins _)) = begin-IsExact max t (Reachable-IsExact max t r)
Reachable-IsExact max s (next t _ r (finishes _ rest e)) =
    finish-IsExact max t rest e (Reachable-IsExact max t r)

-- However calls of `Execute` interleave, a job never runs more often at once than its limit, the count
-- is the number of runs, and the error that should never happen does not. A call is let through
-- exactly if fewer runs than the limit are going on: no place is lost, after a panic either.
pub latch_exact :
    (max : ℕ) (s : Runs)
    → Reachable max s
    → (s.active ≤ max)
      × (s.count ≡ s.active)
      × (s.reports ≡ 0)
      × (((take_latch max s.count).1 ≡ true) ↔ (s.active < max))
unfolding take_latch
latch_exact max s r =
    let x = Reachable-IsExact max s r in (x.limited, x.counted, x.silent, ground (arith, x.counted))
