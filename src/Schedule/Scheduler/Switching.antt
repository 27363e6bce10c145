-- ===== src/Schedule/Scheduler/Switching.antt =====
-- A configuration that switches a job and changes its schedule at once
-- (internal/scheduletooling/update.go).
use issue.Base.{ℕ, zero, suc, ◌≡◌, refl, ap, ◌∙◌, Bool, true, false, Bytes, =ᵇ_refl, some, arith}
use issue.Base.Table.{lookup, insert}
use issue.Schedule.Scheduler.{
  Config, same_bool, same_duration, same_config, Scheduler, stop_scheduling, schedule_silently,
  turn, apply_config, config_or_zero, update_job,
}
use issue.Schedule.Scheduler.Following.{lookup-update_job}

same_config_self : (c : Config) → same_config c c ≡ true
unfolding same_config same_bool same_duration
same_config_self c = ground (arith, =ᵇ_refl c.unique_name, =ᵇ_refl c.cron_expression)

same_config_switched :
    (c d : Config) → same_bool c.enabled d.enabled ≡ false → same_config c d ≡ false
unfolding same_config
same_config_switched c d h = ground (arith, h)

triggers-turn : (s : Scheduler) (k : Bytes) (b : Bool) → (turn s k b).triggers ≡ s.triggers
unfolding turn schedule_silently stop_scheduling
triggers-turn s k true = refl
triggers-turn s k false = refl

triggers-switched :
    (s : Scheduler) (k : Bytes) (old new : Config)
    → same_bool old.enabled new.enabled ≡ false
    → (apply_config s k (some old) new).triggers ≡ s.triggers
unfolding apply_config
triggers-switched s k old new h =
    rw (same_config_switched old new h, h) (triggers-turn s k new.enabled)

triggers-same :
    (s : Scheduler) (k : Bytes) (c : Config) → (apply_config s k (some c) c).triggers ≡ s.triggers
unfolding apply_config
triggers-same s k c = rw (same_config_self c) refl

lookup-read :
    (s : Scheduler) (k : Bytes) (c : Config)
    → lookup k (update_job s k (some c)).old_configs ≡ some c
unfolding config_or_zero
lookup-read s k c = lookup-update_job s k k (some c) ∙ rw (=ᵇ_refl k) refl

-- The scheduler that has remembered the configuration.
abbrev remember : Scheduler → Bytes → Config → Scheduler
remember s k c = record s { old_configs = insert k c s.old_configs }

triggers-known :
    (s : Scheduler) (k : Bytes) (old new : Config)
    → lookup k s.old_configs ≡ some old
    → (update_job s k (some new)).triggers
      ≡ (apply_config (remember s k new) k (some old) new).triggers
unfolding update_job config_or_zero
triggers-known s k old new h = ap (λ o. (apply_config (remember s k new) k o new).triggers) h

-- The tick, any number of times, while the configuration stays.
pub ticks : ℕ → Scheduler → Bytes → Config → Scheduler
ticks zero s k c = s
ticks (suc n) s k c = ticks n (update_job s k (some c)) k c

ticks-settled :
    (n : ℕ) (s : Scheduler) (k : Bytes) (c : Config)
    → lookup k s.old_configs ≡ some c
    → (ticks n s k c).triggers ≡ s.triggers
unfolding ticks
ticks-settled zero s k c h = refl
ticks-settled (suc n) s k c h =
    ticks-settled n (update_job s k (some c)) k c (lookup-read s k c)
    ∙ (triggers-known s k c c h ∙ triggers-same (remember s k c) k c)

-- Where a configuration turns a job on or off, the job keeps the trigger that it had, whatever interval
-- and cron expression the new configuration has, and however many ticks follow with it.
pub switching_loses_trigger :
    (n : ℕ) (s : Scheduler) (k : Bytes) (old new : Config)
    → lookup k s.old_configs ≡ some old
    → same_bool old.enabled new.enabled ≡ false
    → (ticks n s k new).triggers ≡ s.triggers
unfolding ticks
switching_loses_trigger zero s k old new h d = refl
switching_loses_trigger (suc n) s k old new h d =
    ticks-settled n (update_job s k (some new)) k new (lookup-read s k new)
    ∙ (triggers-known s k old new h ∙ triggers-switched (remember s k new) k old new d)
