-- ===== src/Schedule/Scheduler.antt =====
-- `Scheduler` of internal/scheduletooling/scheduletooling.go and update.go, with the configurations of
-- cfg.go. The quartz scheduler is known by the calls that it gets; a job by its key. Each method that
-- holds the mutex is one step.
pub mod Following
pub mod Switching
use issue.Base.{
  ℕ, zero, Bool, true, false, not, ◌&&◌, ◌||◌, ◌==◌, List, [], ◌∷◌, ◌++◌, Bytes, ◌=ᵇ◌, Option, none,
  some, if◌then◌else◌,
}
use issue.Base.Int.{ℤ, pos, ◌≤ℤ◌, leb_ℤ}
use issue.Base.Table.{Table, lookup, insert}
use issue.Rate.Window.{Duration}

pub record Config : Type 0 where
  pub unique_name : Bytes
  pub enabled : Bool
  pub interval : Duration
  pub cron_expression : Bytes
  pub run_on_start : Bool
  pub timeout : Duration

-- `Config{}`
unfoldable pub zero_config : Config
zero_config = record {
  unique_name = [];
  enabled = false;
  interval = pos 0;
  cron_expression = [];
  run_on_start = false;
  timeout = pos 0;
}

-- Go's `==` on durations, on Booleans, and on configurations.
unfoldable pub same_duration : Duration → Duration → Bool
same_duration d e = leb_ℤ d e && leb_ℤ e d

unfoldable pub same_bool : Bool → Bool → Bool
same_bool true b = b
same_bool false b = not b

unfoldable pub same_config : Config → Config → Bool
unfolding same_duration same_bool
same_config c d =
    c.unique_name =ᵇ d.unique_name
    && same_bool c.enabled d.enabled
    && same_duration c.interval d.interval
    && c.cron_expression =ᵇ d.cron_expression
    && same_bool c.run_on_start d.run_on_start
    && same_duration c.timeout d.timeout

pub data ConfigProblem : Type 0 where
  nothing_set bad_cron : ConfigProblem

-- The parser of cron expressions is quartz's.
module _ (is_cron : Bytes → Bool) where
  -- `Validate`; `none` is the nil error.
  unfoldable pub validate : Config → Option ConfigProblem
  unfolding same_duration
  validate c =
      if c.enabled && same_duration c.interval (pos 0) && c.cron_expression =ᵇ []
      then some nothing_set
      else if not (c.cron_expression =ᵇ []) && not (is_cron c.cron_expression)
      then some bad_cron
      else none

  unfoldable pub if_valid : Config → Option ConfigProblem → Option Config
  if_valid c none = some c
  if_valid c (some problem) = none

  -- `GetConfig`, with what `getFreshConfig` returned; `none` is an error, beside which the zero
  -- configuration is returned.
  unfoldable pub get_config : Option Config → Option Config
  unfolding validate if_valid
  get_config none = none
  get_config (some c) = if_valid c (validate c)

pub data Trigger : Type 0 where
  cron_trigger : Bytes → Trigger
  simple_trigger : Duration → Trigger

-- `GetTriggerValidated`
unfoldable pub get_trigger_validated : Config → Trigger
get_trigger_validated c =
    if not (c.cron_expression =ᵇ [])
    then cron_trigger c.cron_expression
    else simple_trigger c.interval

-- A call of the quartz scheduler. The errors that quartz may return are only logged, and are left out.
pub data Call : Type 0 where
  delete_job schedule_job : Bytes → Call

-- The scheduler with the triggers of its jobs, and the configurations that `updateSchedules` remembers.
pub record Scheduler : Type 0 where
  pub collected_jobs_to_schedule : List Bytes
  pub jobs : List Bytes
  pub is_running : Bool
  pub triggers : Table Trigger
  pub old_configs : Table Config
  pub calls : List Call

-- `stopScheduling`
unfoldable pub stop_scheduling : Scheduler → Bytes → Scheduler
stop_scheduling s job = record s { calls = s.calls ++ delete_job job ∷ [] }

-- `s.jobs[key] = job`
unfoldable pub add_key : Bytes → List Bytes → List Bytes
add_key job [] = job ∷ []
add_key job (j ∷ js) = if j =ᵇ job then j ∷ js else j ∷ add_key job js

-- `scheduleSilently`
unfoldable pub schedule_silently : Scheduler → Bytes → Scheduler
unfolding stop_scheduling add_key
schedule_silently s job =
    let stopped = stop_scheduling s job in
    record stopped {
      jobs = add_key job stopped.jobs;
      calls = stopped.calls ++ schedule_job job ∷ [];
    }

unfoldable pub set_trigger : Scheduler → Bytes → Trigger → Scheduler
set_trigger s job t = record s { triggers = insert job t s.triggers }

unfoldable pub turn : Scheduler → Bytes → Bool → Scheduler
unfolding schedule_silently stop_scheduling
turn s job true = schedule_silently s job
turn s job false = stop_scheduling s job

-- The loop body of the rescheduler behind the read of the configuration; the old configuration is the
-- one that was remembered, and the new one is remembered already.
unfoldable pub apply_config : Scheduler → Bytes → Option Config → Config → Scheduler
unfolding set_trigger turn same_config same_bool same_duration get_trigger_validated
apply_config s job none new = turn (set_trigger s job (get_trigger_validated new)) job new.enabled
apply_config s job (some old) new =
    if same_config old new
    then s
    else if not (same_bool old.enabled new.enabled)
    then turn s job new.enabled
    else if not (same_duration old.interval new.interval)
    then set_trigger s job (get_trigger_validated new)
    else s

-- The configuration that `GetConfig` returns, the zero one beside an error: the loop goes on with it.
unfoldable pub config_or_zero : Option Config → Config
unfolding zero_config
config_or_zero none = zero_config
config_or_zero (some c) = c

-- The loop body for one job, with what `GetConfig` returned.
unfoldable pub update_job : Scheduler → Bytes → Option Config → Scheduler
unfolding apply_config config_or_zero
update_job s job read =
    let new = config_or_zero read in
    apply_config (record s { old_configs = insert job new s.old_configs }) job
      (lookup job s.old_configs) new

-- One tick of the rescheduler, over the jobs in some order.
unfoldable pub update_jobs : Scheduler → List Bytes → (Bytes → Option Config) → Scheduler
unfolding update_job
update_jobs s [] get_config = s
update_jobs s (job ∷ jobs) get_config =
    update_jobs (update_job s job (get_config job)) jobs get_config

pub data AddError : Type 0 where
  already_running config_unread : AddError

unfoldable pub add_config : Scheduler → Bytes → Option Config → Scheduler × Option AddError
add_config s job none = (s, some config_unread)
add_config s job (some cfg) =
    if not cfg.enabled
    then (s, none)
    else (record s { collected_jobs_to_schedule = s.collected_jobs_to_schedule ++ job ∷ [] }, none)

-- `Add`
unfoldable pub add : Scheduler → Bytes → Option Config → Scheduler × Option AddError
unfolding add_config
add s job read = if s.is_running then (s, some already_running) else add_config s job read

-- `scheduleCollectedJobs`
unfoldable pub schedule_all : Scheduler → List Bytes → Scheduler
unfolding schedule_silently
schedule_all s [] = s
schedule_all s (job ∷ jobs) = schedule_all (schedule_silently s job) jobs

unfoldable pub schedule_collected_jobs : Scheduler → Scheduler
unfolding schedule_all
schedule_collected_jobs s = schedule_all s s.collected_jobs_to_schedule
