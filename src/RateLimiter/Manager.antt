-- ===== src/RateLimiter/Manager.antt =====
-- `Manager` of internal/resttooling/ratelimiter/v2/rate_limiter.go: loading a configuration, and the
-- decision on a request. Each method runs under the manager's lock and is one step. Go iterates over
-- the map of paths in any order: here the paths are a list, and the theorems hold for every list.
mod Tests
pub mod Loading
pub mod Pairing
pub mod Precedence
pub mod Requests
pub mod Modes
pub mod Reload
pub mod Watch
use issue.Base.{
  ℕ, zero, suc, ◌+◌, Bool, true, false, not, ◌&&◌, ◌||◌, List, [], ◌∷◌, ◌++◌, Bytes, codes, ◌=ᵇ◌,
  ◌==◌, length, take, drop, split, Option, none, some, Result, ok, fail, panic, if◌then◌else◌,
}
use issue.Rate.Window.{Time, Verdict, granted}
use issue.Rate.Limiter
use issue.Rate.Limiter.{WindowConfig, Limiter, new_limiter}
use issue.RateLimiter.Pattern.{
  Pattern, Relationship, equivalent, more_specific, overlaps, same, compare_paths_and_methods,
  match,
}
use issue.RateLimiter.Parse.{PatternError, new_pattern}

-- `Config`; the mode is a string, of which `Allow` looks only for "reporting".
pub record Config : Type 0 where
  pub enabled : Bool
  pub mode : Bytes
  pub paths : List (Bytes × List WindowConfig)

pub record Manager : Type 0 where
  pub enabled : Bool
  pub mode : Bytes
  pub last_config_hash : ℕ
  pub patterns : List Pattern
  pub limiters : List Limiter

-- The zero values that `NewManager` starts from.
unfoldable pub fresh_manager : Manager
fresh_manager = record {
  enabled = false;
  mode = [];
  last_config_hash = 0;
  patterns = [];
  limiters = [];
}

pub data ConfigError : Type 0 where
  getter_failed hash_failed : ConfigError
  bad_path : PatternError → Bytes → ConfigError
  conflict : Bytes → Bytes → ConfigError

-- How a method ends that returns an error or nil, beside the state that it leaves.
pub data Status : Type 0 where
  done panicked : Status
  failed : ConfigError → Status

-- What the inner loop of `parseConfig` finds: a conflict, or where to insert.
pub data Scan : Type 0 where
  conflicts : Pattern → Scan
  insert_at : Option ℕ → Scan
  scan_panics : Scan

pub first_index : Relationship → ℕ → Option ℕ → Option ℕ
unfolding same
first_index r idx (some i) = some i
first_index r idx none = if same r more_specific then some idx else none

pub scan : Pattern → List Pattern → ℕ → Option ℕ → Scan
unfolding first_index same
scan p [] idx ins = insert_at ins
scan p (p2 ∷ ps) idx ins = elim (compare_paths_and_methods p p2) [
  | none ↦ scan_panics
  | some r ↦
      if same r equivalent || same r overlaps
      then conflicts p2
      else scan p ps (idx + 1) (first_index r idx ins)
]

-- `append`, `copy` and the write at the index.
unfoldable pub insert_elem {ℓ} : {A : Type ℓ} → ℕ → A → List A → List A
insert_elem i x xs = take i xs ++ x ∷ drop i xs

-- `if insertionIndex == -1 { insertionIndex = len(m.patterns) }`
pub place : Option ℕ → ℕ → ℕ
place none n = n
place (some i) n = i

pub insert_pattern : Manager → Pattern → List WindowConfig → Scan → Manager × Status
unfolding place
insert_pattern m p windows scan_panics = (m, panicked)
insert_pattern m p windows (conflicts p2) = (m, failed (conflict p.pattern p2.pattern))
insert_pattern m p windows (insert_at ins) =
    let i = place ins (length m.patterns) in
    (
      record m {
        patterns = insert_elem i p m.patterns;
        limiters = insert_elem i (new_limiter windows) m.limiters;
      },
      done,
    )

pub load_parsed :
    Manager → Bytes → List WindowConfig → Result PatternError Pattern → Manager × Status
unfolding insert_pattern scan
load_parsed m path windows panic = (m, panicked)
load_parsed m path windows (fail e) = (m, failed (bad_path e path))
load_parsed m path windows (ok p) = insert_pattern m p windows (scan p m.patterns 0 none)

-- One round of the loop over the paths.
pub load_path : Manager → Bytes → List WindowConfig → Manager × Status
unfolding load_parsed
load_path m path windows = load_parsed m path windows (new_pattern path)

-- The loop goes on only where the round has not returned.
pub if_done : Manager × Status → (Manager → Manager × Status) → Manager × Status
if_done (m, done) next = next m
if_done (m, panicked) next = (m, panicked)
if_done (m, failed e) next = (m, failed e)

pub load_paths : Manager → List (Bytes × List WindowConfig) → Manager × Status
unfolding if_done
load_paths m [] = (m, done)
load_paths m ((path, windows) ∷ rest) =
    if_done (load_path m path windows) (λ m'. load_paths m' rest)

-- What `parseConfig` writes before its loop.
unfoldable pub cleared : Config → ℕ → Manager
cleared cfg hash = record {
  enabled = cfg.enabled;
  mode = cfg.mode;
  last_config_hash = hash;
  patterns = [];
  limiters = [];
}

-- The hash of hashstructure, which may fail, is a parameter of what follows.
module _ (config_hash : Config → Option ℕ) where
  -- `parseConfig`
  pub parse_config : Manager → Config → Manager × Status
  parse_config m cfg = elim (config_hash cfg) [
    | none ↦ (m, failed hash_failed)
    | some hash ↦ load_paths (cleared cfg hash) cfg.paths
  ]

  -- One tick of `watchConfig`, with what the getter returned.
  pub watch_tick : Manager → Option Config → Manager × Status
  watch_tick m none = (m, failed getter_failed)
  watch_tick m (some cfg) = elim (config_hash cfg) [
    | none ↦ (m, failed hash_failed)
    | some hash ↦ if hash == m.last_config_hash then (m, done) else parse_config m cfg
  ]

-- `overrideFetcher`, called with the key and the pattern's text, is a parameter; so are the two
-- readings of the clock.
module _ (fetch : Bytes → Bytes → Bool × List WindowConfig) where
  -- The end of the loop body, where every limit was exceeded.
  pub exceeded : Bytes → Limiter → Verdict → Option (Limiter × Verdict)
  exceeded mode l v = some (l, if mode =ᵇ codes "reporting" then granted else v)

  pub overridden : Bytes → Bytes → Time → Option Limiter → Option (Limiter × Verdict)
  overridden mode key later none = none
  overridden mode key later (some l) =
      let v = Limiter.would_allow l key later in
      if v.allowed then some (l, granted) else exceeded mode l v

  -- The loop body for the pattern that matched, on its limiter.
  pub decide : Bytes → Bytes → Bytes → Time → Time → Limiter → Option (Limiter × Verdict)
  unfolding exceeded overridden
  decide mode key text now later l =
      let (l', v) = Limiter.allow l key now in
      let (has_override, overrides) = fetch key text in
      if v.allowed
      then some (l', granted)
      else if has_override
      then overridden mode key later (Limiter.override_windows l' key overrides)
      else exceeded mode l' v

  pub behind : Limiter → Option (List Limiter × Verdict) → Option (List Limiter × Verdict)
  behind l none = none
  behind l (some (ls, v)) = some (l ∷ ls, v)

  pub in_front : List Limiter → Option (Limiter × Verdict) → Option (List Limiter × Verdict)
  in_front ls none = none
  in_front ls (some (l, v)) = some (l ∷ ls, v)

  -- The loop over the patterns; the limiters stand at the same indices.
  pub allow_loop :
      Bytes
      → Bytes
      → List Bytes
      → Bytes
      → Time
      → Time
      → List Pattern
      → List Limiter
      → Option (List Limiter × Verdict)
  unfolding behind in_front
  allow_loop mode method segments key now later [] ls = some (ls, granted)
  allow_loop mode method segments key now later (p ∷ ps) [] = elim (match p method segments) [
    | none ↦ none
    | some true ↦ none
    | some false ↦ allow_loop mode method segments key now later ps []
  ]
  allow_loop mode method segments key now later (p ∷ ps) (l ∷ ls) = elim (match p method segments) [
    | none ↦ none
    | some true ↦ in_front ls (decide mode key p.pattern now later l)
    | some false ↦ behind l (allow_loop mode method segments key now later ps ls)
  ]

  pub with_limiters : Manager → Option (List Limiter × Verdict) → Option (Manager × Verdict)
  with_limiters m none = none
  with_limiters m (some (ls, v)) = some (record m { limiters = ls }, v)

  -- `Allow`; `none` is a panic.
  pub allow : Manager → Bytes → Bytes → Bytes → Time → Time → Option (Manager × Verdict)
  unfolding with_limiters
  allow m method [] key now later = if m.enabled then none else some (m, granted)
  allow m method (c ∷ path) key now later =
      if m.enabled
      then with_limiters m
          (allow_loop m.mode method (split b'/' path) key now later m.patterns m.limiters)
      else some (m, granted)
