-- ===== src/Schedule/Tests.antt =====
-- The theorems on internal/scheduletooling at concrete jobs and configurations.
use issue.Base.{
  ◌≤◌, ◌<◌, ◌≡◌, ◌≢◌, ◌↔◌, refl, true, false, [], ◌∷◌, Bytes, codes, none, some, ◌=ᵇ◌, ap,
  Bool-cases, inl, inr,
}
use issue.Base.Int.{pos}
use issue.Base.Table.{lookup}
use issue.Schedule.Job.{no_runs, begin, take_latch, begins, Reachable, start, next}
use issue.Schedule.Job.Latch.{latch_exact}
use issue.Schedule.Scheduler.{
  Config, simple_trigger, schedule_job, delete_job, Scheduler, config_or_zero, same_bool,
  update_job,
}
use issue.Schedule.Scheduler.Following.{runs, IsFollowing, update_job-IsFollowing}
use issue.Schedule.Scheduler.Switching.{ticks, switching_loses_trigger}

-- One call after another on a job that may run once at a time.
two_begins : Reachable 1 (begin 1 (begin 1 no_runs))
two_begins =
    next (begin 1 no_runs) _ (next no_runs _ start (begins no_runs)) (begins (begin 1 no_runs))

latch_exact_example :
    ((begin 1 (begin 1 no_runs)).active ≤ 1)
    × ((begin 1 (begin 1 no_runs)).count ≡ (begin 1 (begin 1 no_runs)).active)
    × ((begin 1 (begin 1 no_runs)).reports ≡ 0)
    × (((take_latch 1 (begin 1 (begin 1 no_runs)).count).1 ≡ true)
        ↔ ((begin 1 (begin 1 no_runs)).active < 1))
latch_exact_example = latch_exact 1 (begin 1 (begin 1 no_runs)) two_begins

abbrev hourly : Config
hourly = record {
  unique_name = codes "sync";
  enabled = true;
  interval = pos 3600;
  cron_expression = [];
  run_on_start = false;
  timeout = pos 0;
}

abbrev off_daily : Config
off_daily = record hourly { enabled = false; interval = pos 86400 }

abbrev sync_scheduler : Scheduler
sync_scheduler = record {
  collected_jobs_to_schedule = codes "sync" ∷ [];
  jobs = codes "sync" ∷ [];
  is_running = true;
  triggers = (codes "sync", simple_trigger (pos 3600)) ∷ [];
  old_configs = (codes "sync", hourly) ∷ [];
  calls = delete_job (codes "sync") ∷ schedule_job (codes "sync") ∷ [];
}

lookup_sync : lookup (codes "sync") sync_scheduler.old_configs ≡ some hourly
unfolding lookup ◌=ᵇ◌
lookup_sync = refl

none_ne_some : {c : Config} → none ≢ some c
none_ne_some h = cc h

sync_scheduler-IsFollowing : IsFollowing sync_scheduler
unfolding lookup
sync_scheduler-IsFollowing job c e = elim (Bool-cases (codes "sync" =ᵇ job)) [
  | inl same ↦
      let found : some hourly ≡ some c = rw same at e in
      let equal : hourly ≡ c = cc in rw same (ap (λ d. d.enabled) equal)
  | inr other ↦ absurd (none_ne_some (rw other at e))
]

update_job-IsFollowing_example :
    (runs (codes "sync") (update_job sync_scheduler (codes "sync") (some off_daily))
      ≡ (config_or_zero (some off_daily)).enabled)
    × ((job : Bytes)
        → codes "sync" ≢ job
        → runs job (update_job sync_scheduler (codes "sync") (some off_daily))
          ≡ runs job sync_scheduler)
    × IsFollowing (update_job sync_scheduler (codes "sync") (some off_daily))
update_job-IsFollowing_example =
    update_job-IsFollowing sync_scheduler (codes "sync") (some off_daily) sync_scheduler-IsFollowing

hourly_switched : same_bool hourly.enabled off_daily.enabled ≡ false
unfolding same_bool
hourly_switched = refl

switching_loses_trigger_example :
    (ticks 3 sync_scheduler (codes "sync") off_daily).triggers
    ≡ (codes "sync", simple_trigger (pos 3600)) ∷ []
switching_loses_trigger_example =
    switching_loses_trigger 3 sync_scheduler (codes "sync") hourly off_daily lookup_sync
      hourly_switched
