-- ===== src/Schedule/Scheduler/Following.antt =====
-- Whether the jobs that quartz runs are those that their configurations enable
-- (internal/scheduletooling/update.go).
use issue.Base.{
  ◌≡◌, ◌≢◌, refl, sym, ap, subst, ◌∙◌, Bool, true, false, List, [], ◌∷◌, ◌++◌, Bytes, ◌=ᵇ◌, =ᵇ_iff,
  =ᵇ_refl, Option, none, some, if◌then◌else◌, arith, Bool-cases, inl, inr,
}
use issue.Base.Table.{lookup, insert, lookup-insert}
use issue.Schedule.Scheduler.{
  Config, same_bool, same_duration, same_config, get_trigger_validated, Call, delete_job,
  schedule_job, Scheduler, stop_scheduling, schedule_silently, set_trigger, turn, apply_config,
  config_or_zero, update_job, update_jobs,
}

-- Whether quartz runs the job after the calls, all of which it carries out, where `before` says whether
-- it runs the job before them.
abbrev pub runs_after : Bytes → Bool → List Call → Bool
runs_after job before [] = before
runs_after job before (delete_job j ∷ calls) =
    runs_after job (if j =ᵇ job then false else before) calls
runs_after job before (schedule_job j ∷ calls) =
    runs_after job (if j =ᵇ job then true else before) calls

-- Quartz runs the job, after all the calls that the scheduler made.
abbrev pub runs : Bytes → Scheduler → Bool
runs job s = runs_after job false s.calls

runs_after-append :
    (job : Bytes) (b : Bool) (xs ys : List Call)
    → runs_after job b (xs ++ ys) ≡ runs_after job (runs_after job b xs) ys
runs_after-append job b [] ys = refl
runs_after-append job b (delete_job j ∷ xs) ys =
    runs_after-append job (if j =ᵇ job then false else b) xs ys
runs_after-append job b (schedule_job j ∷ xs) ys =
    runs_after-append job (if j =ᵇ job then true else b) xs ys

runs-turn :
    (s : Scheduler) (k job : Bytes) (b : Bool)
    → runs job (turn s k b) ≡ (if k =ᵇ job then b else runs job s)
unfolding turn schedule_silently stop_scheduling
runs-turn s k job false = runs_after-append job false s.calls (delete_job k ∷ [])
runs-turn s k job true =
    let stopped = runs_after-append job false s.calls (delete_job k ∷ []) in
    runs_after-append job false (s.calls ++ delete_job k ∷ []) (schedule_job k ∷ [])
    ∙ ground (arith, stopped)

-- Quartz runs exactly the jobs whose remembered configuration enables them.
abbrev pub IsFollowing : Scheduler → Type 0
IsFollowing s =
    (job : Bytes) (c : Config) → lookup job s.old_configs ≡ some c → runs job s ≡ c.enabled

old_configs-turn : (s : Scheduler) (k : Bytes) (b : Bool) → (turn s k b).old_configs ≡ s.old_configs
unfolding turn schedule_silently stop_scheduling
old_configs-turn s k true = refl
old_configs-turn s k false = refl

old_configs-apply_config :
    (s : Scheduler) (k : Bytes) (old : Option Config) (new : Config)
    → (apply_config s k old new).old_configs ≡ s.old_configs
unfolding apply_config set_trigger
old_configs-apply_config s k none new =
    old_configs-turn (set_trigger s k (get_trigger_validated new)) k new.enabled
old_configs-apply_config s k (some old) new = ground (arith, old_configs-turn s k new.enabled)

same_bool-eq : (b c : Bool) → same_bool b c ≡ true → b ≡ c
unfolding same_bool
same_bool-eq true true h = refl
same_bool-eq true false h = cc h
same_bool-eq false true h = cc h
same_bool-eq false false h = refl

same_config-enabled : (c d : Config) → same_config c d ≡ true → c.enabled ≡ d.enabled
unfolding same_config
same_config-enabled c d h = same_bool-eq c.enabled d.enabled (ground (arith, h))

-- Where the switch stays, the job stays as it is.
runs-kept :
    (s : Scheduler) (k job : Bytes) (old new : Config)
    → runs k s ≡ old.enabled
    → old.enabled ≡ new.enabled
    → runs job s ≡ (if k =ᵇ job then new.enabled else runs job s)
runs-kept s k job old new h e = elim (Bool-cases (k =ᵇ job)) [
  | inl same ↦
      let equal : k ≡ job = (=ᵇ_iff k job).0 same in
      rw same (subst (λ j. runs j s ≡ new.enabled) equal (h ∙ e))
  | inr other ↦ rw other refl
]

runs-apply_config :
    (s : Scheduler) (k job : Bytes) (old : Option Config) (new : Config)
    → ((c : Config) → old ≡ some c → runs k s ≡ c.enabled)
    → runs job (apply_config s k old new) ≡ (if k =ᵇ job then new.enabled else runs job s)
unfolding apply_config set_trigger
runs-apply_config s k job none new h =
    runs-turn (set_trigger s k (get_trigger_validated new)) k job new.enabled
runs-apply_config s k job (some old) new h = elim (Bool-cases (same_config old new)) [
  | inl same ↦ rw same (runs-kept s k job old new (h old refl) (same_config-enabled old new same))
  | inr changed ↦ elim (Bool-cases (same_bool old.enabled new.enabled)) [
    | inr switched ↦ rw (changed, switched) (runs-turn s k job new.enabled)
    | inl stays ↦
        let kept =
          runs-kept s k job old new (h old refl) (same_bool-eq old.enabled new.enabled stays) in
        elim (Bool-cases (same_duration old.interval new.interval)) [
          | inl d ↦ rw (changed, stays, d) kept
          | inr d ↦ rw (changed, stays, d) kept
        ]
  ]
]

runs-update_job :
    (s : Scheduler) (k job : Bytes) (read : Option Config)
    → IsFollowing s
    → runs job (update_job s k read)
      ≡ (if k =ᵇ job then (config_or_zero read).enabled else runs job s)
unfolding update_job
runs-update_job s k job read h =
    runs-apply_config (record s { old_configs = insert k (config_or_zero read) s.old_configs }) k
      job (lookup k s.old_configs) (config_or_zero read) (h k)

pub lookup-update_job :
    (s : Scheduler) (k job : Bytes) (read : Option Config)
    → lookup job (update_job s k read).old_configs
      ≡ (if k =ᵇ job then some (config_or_zero read) else lookup job s.old_configs)
unfolding update_job
lookup-update_job s k job read =
    ap (lookup job) (
      old_configs-apply_config
        (record s { old_configs = insert k (config_or_zero read) s.old_configs }) k
        (lookup k s.old_configs) (config_or_zero read))
    ∙ lookup-insert k job (config_or_zero read) s.old_configs

update_job-follows :
    (s : Scheduler) (k : Bytes) (read : Option Config)
    → IsFollowing s
    → IsFollowing (update_job s k read)
update_job-follows s k read h job c e = elim (Bool-cases (k =ᵇ job)) [
  | inl same ↦
      let found : some (config_or_zero read) ≡ some c =
        sym (lookup-update_job s k job read ∙ rw same refl) ∙ e in
      runs-update_job s k job read h ∙ rw same (cc found)
  | inr other ↦
      let kept : lookup job s.old_configs ≡ some c =
        sym (lookup-update_job s k job read ∙ rw other refl) ∙ e in
      runs-update_job s k job read h ∙ rw other (h job c kept)
]

-- If quartz runs exactly the jobs that their remembered configurations enable, the rescheduler's round
-- for one job turns it on or off as the configuration says that was read, and off where none could be
-- read; it does not touch the other jobs; and the same holds of the configurations remembered after it.
pub update_job-IsFollowing :
    (s : Scheduler) (k : Bytes) (read : Option Config)
    → IsFollowing s
    → (runs k (update_job s k read) ≡ (config_or_zero read).enabled)
      × ((job : Bytes) → k ≢ job → runs job (update_job s k read) ≡ runs job s)
      × IsFollowing (update_job s k read)
unfolding update_job
update_job-IsFollowing s k read h = (
  runs-update_job s k k read h ∙ rw (=ᵇ_refl k) refl,
  λ job n.
      let other : (k =ᵇ job) ≡ false = ground (arith, n, =ᵇ_iff k job) in
      runs-update_job s k job read h ∙ rw other refl,
  update_job-follows s k read h,
)

-- After a tick over any jobs, in any order and with any failed reads, quartz runs exactly the jobs whose
-- remembered configuration enables them, if it did before.
pub update_jobs-IsFollowing :
    (s : Scheduler) (jobs : List Bytes) (get_config : Bytes → Option Config)
    → IsFollowing s
    → IsFollowing (update_jobs s jobs get_config)
unfolding update_jobs
update_jobs-IsFollowing s [] get_config h = h
update_jobs-IsFollowing s (k ∷ jobs) get_config h =
    update_jobs-IsFollowing (update_job s k (get_config k)) jobs get_config
      (update_job-follows s k (get_config k) h)
