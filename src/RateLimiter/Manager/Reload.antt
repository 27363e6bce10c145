-- ===== src/RateLimiter/Manager/Reload.antt =====
-- Reloading by `watchConfig` and `parseConfig` (ratelimiter/v2/rate_limiter.go).
use issue.Base.{
  ℕ, ◌≡◌, refl, ◌∙◌, List, [], ◌∷◌, arith, Bytes, Option, none, some, Result, ok, fail, panic,
}
use issue.Rate.Limiter.{WindowConfig}
use issue.RateLimiter.Pattern.{Pattern}
use issue.RateLimiter.Parse.{PatternError, new_pattern}
use issue.RateLimiter.Manager.{
  Config, Manager, Status, done, panicked, failed, ConfigError, Scan, conflicts, insert_at,
  scan_panics, scan, insert_pattern, load_parsed, load_path, if_done, load_paths, cleared,
  parse_config, watch_tick,
}

-- The fields that `parseConfig` sets before its loop.
abbrev SameHead : Manager → Manager → Type 0
SameHead m m' =
    (m'.enabled ≡ m.enabled) × (m'.mode ≡ m.mode) × (m'.last_config_hash ≡ m.last_config_hash)

load_parsed-SameHead :
    (m : Manager) (path : Bytes) (windows : List WindowConfig) (r : Result PatternError Pattern)
    → SameHead m (load_parsed m path windows r).0
unfolding load_parsed
load_parsed-SameHead m path windows panic = (refl, refl, refl)
load_parsed-SameHead m path windows (fail e) = (refl, refl, refl)
load_parsed-SameHead m path windows (ok p) = by_scan (scan p m.patterns 0 none)
  where
    by_scan : (s : Scan) → SameHead m (insert_pattern m p windows s).0
    by_scan scan_panics = (refl, refl, refl)
    by_scan (conflicts q) = (refl, refl, refl)
    by_scan (insert_at i) = (refl, refl, refl)

if_done-SameHead :
    (m : Manager) (r : Manager × Status) (next : Manager → Manager × Status)
    → SameHead m r.0
    → ((m' : Manager) → SameHead m' (next m').0)
    → SameHead m (if_done r next).0
unfolding if_done
if_done-SameHead m (m', done) next h k = let (a, b, c) = k m' in (a ∙ h.0, b ∙ h.1, c ∙ h.2)
if_done-SameHead m (m', panicked) next h k = h
if_done-SameHead m (m', failed e) next h k = h

load_paths-SameHead :
    (m : Manager) (paths : List (Bytes × List WindowConfig)) → SameHead m (load_paths m paths).0
unfolding load_paths
load_paths-SameHead m [] = (refl, refl, refl)
load_paths-SameHead m ((path, windows) ∷ rest) =
    if_done-SameHead m (load_path m path windows) (λ m'. load_paths m' rest)
      (unfold load_path in load_parsed-SameHead m path windows (new_pattern path))
      (λ m'. load_paths-SameHead m' rest)

-- Once `parseConfig` has read the hash of a configuration, the manager has that hash, the new mode
-- and the new switch, whether or not the paths could be loaded.
pub parse_config-SameHead :
    (config_hash : Config → Option ℕ) (m : Manager) (cfg : Config) (hash : ℕ)
    → config_hash cfg ≡ some hash
    → ((parse_config config_hash m cfg).0.enabled ≡ cfg.enabled)
      × ((parse_config config_hash m cfg).0.mode ≡ cfg.mode)
      × ((parse_config config_hash m cfg).0.last_config_hash ≡ hash)
unfolding parse_config cleared
parse_config-SameHead config_hash m cfg hash e =
    ground (arith, e, load_paths-SameHead (cleared cfg hash) cfg.paths)

-- A configuration that could not be loaded is not tried again: the next tick that sees the same
-- configuration reports success and leaves the half-loaded patterns in force.
pub failed_config_stays :
    (config_hash : Config → Option ℕ) (m : Manager) (cfg : Config) (hash : ℕ) (e : ConfigError)
    → config_hash cfg ≡ some hash
    → (parse_config config_hash m cfg).1 ≡ failed e
    → watch_tick config_hash (parse_config config_hash m cfg).0 (some cfg)
      ≡ ((parse_config config_hash m cfg).0, done)
unfolding watch_tick
failed_config_stays config_hash m cfg hash e h f =
    let (_, _, k) = parse_config-SameHead config_hash m cfg hash h in ground (arith, h, k)
