-- ===== src/RateLimiter/Manager/Watch.antt =====
-- The goroutine of `NewManager` (ratelimiter/v2/rate_limiter.go): `watchConfig` under `DoUntilSuccess`
-- of internal/recoverytooling/recovery.go, over the ticks that come while the context is not done.
use issue.Base.{
  ℕ, zero, suc, ◌≡◌, refl, ◌≤◌, ◌<◌, Bool, true, false, not, ◌&&◌, List, [], ◌∷◌, length, Option,
  none, some, ◌==◌, arith, if◌then◌else◌, Bool-cases, Option-cases, inl, inr,
}
use issue.RateLimiter.Manager.{
  Config, getter_failed, hash_failed, Manager, Status, done, panicked, failed, parse_config,
  watch_tick,
}

-- What the getter returns on each tick to come; none is an error.
abbrev pub Ticks : Type 0
Ticks = List (Option Config)

-- How a call of `watchConfig` goes: it still waits for a tick, or has returned, or panicked, with
-- ticks that it did not read.
pub data Watching : Type 0 where
  waiting : Manager → Watching
  returned : Manager × Status → Ticks → Watching

-- The goroutine still runs, or has ended with ticks that nothing reads.
pub data Goroutine : Type 0 where
  running : Manager → Goroutine
  ended : Manager → Ticks → Goroutine
  out_of_fuel : Goroutine

-- One round of the loop of `DoUntilSuccess`: after an error or a panic it goes on.
unfoldable pub unless_success : (Manager → Ticks → Goroutine) → Watching → Goroutine
unless_success again (waiting m) = running m
unless_success again (returned (m, done) later) = ended m later
unless_success again (returned (m, panicked) later) = again m later
unless_success again (returned (m, failed e) later) = again m later

unfoldable pub is_done : Status → Bool
is_done done = true
is_done panicked = false
is_done (failed e) = false

module _ (config_hash : Config → Option ℕ) where
  -- The end of a round on which the getter returned the configuration, with what its hash is.
  unfoldable pub watch_hash : Watching → Manager → Config → Ticks → Option ℕ → Watching
  watch_hash next m cfg later none = returned (m, failed hash_failed) later
  watch_hash next m cfg later (some hash) =
      if hash == m.last_config_hash then next else returned (parse_config config_hash m cfg) later

  -- `watchConfig`
  unfoldable pub watch_config : Manager → Ticks → Watching
  unfolding watch_hash
  watch_config m [] = waiting m
  watch_config m (none ∷ later) = returned (m, failed getter_failed) later
  watch_config m (some cfg ∷ later) =
      let next = watch_config m later in watch_hash next m cfg later (config_hash cfg)

  -- `DoUntilSuccess` of `watchConfig`, on fuel
  unfoldable pub do_until_success : ℕ → Manager → Ticks → Goroutine
  unfolding unless_success watch_config
  do_until_success zero m ticks = out_of_fuel
  do_until_success (suc fuel) m ticks =
      unless_success (do_until_success fuel) (watch_config m ticks)

  -- The getter returned a configuration whose hash is another than that of the last.
  unfoldable pub is_changed : Manager → Option Config → Bool
  is_changed m none = false
  is_changed m (some cfg) = elim (config_hash cfg) [
    | none ↦ false
    | some hash ↦ not (hash == m.last_config_hash)
  ]

  -- The ticks one by one, with nothing read behind the first on which a change was loaded.
  unfoldable pub upto_first_reload : Manager → Ticks → Goroutine
  unfolding is_changed is_done
  upto_first_reload m [] = running m
  upto_first_reload m (c ∷ later) =
      let rest = upto_first_reload (watch_tick config_hash m c).0 later in
      if is_changed m c && is_done (watch_tick config_hash m c).1
      then ended (watch_tick config_hash m c).0 later
      else rest

  -- What follows a call that has loaded a changed configuration.
  returned-reload :
      (fuel : ℕ) (later : Ticks) (m' : Manager) (s : Status)
      → ((n : Manager) → do_until_success fuel n later ≡ upto_first_reload n later)
      → unless_success (do_until_success fuel) (returned (m', s) later)
        ≡ (if is_done s then ended m' later else upto_first_reload m' later)
  unfolding unless_success is_done
  returned-reload fuel later m' done rest = refl
  returned-reload fuel later m' panicked rest = rest m'
  returned-reload fuel later m' (failed e) rest = rest m'

  -- A call that returned is followed by another, on the ticks that are left.
  restarted :
      (later : Ticks) (fuel : ℕ) (m : Manager)
      → ((fuel : ℕ)
          → (m : Manager) → length later ≤ fuel
          → unless_success (do_until_success fuel) (watch_config m later)
            ≡ upto_first_reload m later)
      → length later < fuel
      → do_until_success fuel m later ≡ upto_first_reload m later
  unfolding do_until_success
  restarted later zero m rest enough = elim enough [ ]
  restarted later (suc fuel) m rest enough = rest fuel m (omega (arith, enough))

  watch_config-upto_first_reload :
      (ticks : Ticks) (fuel : ℕ) (m : Manager)
      → length ticks ≤ fuel
      → unless_success (do_until_success fuel) (watch_config m ticks) ≡ upto_first_reload m ticks
  unfolding watch_config watch_hash upto_first_reload is_changed watch_tick unless_success
  watch_config-upto_first_reload [] fuel m enough = refl
  watch_config-upto_first_reload (none ∷ later) fuel m enough =
      restarted later fuel m (watch_config-upto_first_reload later) (omega (arith, enough))
  watch_config-upto_first_reload (some cfg ∷ later) fuel m enough =
      let again = λ (n : Manager).
        restarted later fuel n (watch_config-upto_first_reload later) (omega (arith, enough)) in
      elim (Option-cases (config_hash cfg)) [
        | inl unknown ↦ rw (unknown, is_changed, watch_tick) (again m)
        | inr (hash, known) ↦ elim (Bool-cases (hash == m.last_config_hash)) [
          | inl same ↦
              rw (known, same, is_changed, watch_tick)
                (watch_config-upto_first_reload later fuel m (omega (arith, enough)))
          | inr other ↦
              let loaded = parse_config config_hash m cfg in
              rw (known, other, is_changed, watch_tick)
                (returned-reload fuel later loaded.0 loaded.1 again)
        ]
      ]

  -- Whatever the getter returns on the ticks to come, the goroutine acts on them one by one up to the
  -- first on which a changed configuration loads without an error, over all calls of watchConfig, and
  -- ends there: no tick behind that one is read, and the manager keeps what was loaded. Fuel of one
  -- call for each tick and one more is enough.
  pub do_until_success-upto_first_reload :
      (fuel : ℕ) (m : Manager) (ticks : Ticks)
      → length ticks < fuel
      → do_until_success fuel m ticks ≡ upto_first_reload m ticks
  do_until_success-upto_first_reload fuel m ticks =
      restarted ticks fuel m (watch_config-upto_first_reload ticks)
