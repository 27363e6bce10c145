-- ===== src/RateLimiter/Manager/Tests.antt =====
-- The theorems on ratelimiter/v2/rate_limiter.go at concrete configurations and requests.
use issue.Base.{
  ◌<◌, ℕ, ◌≡◌, refl, arith, Bool, true, false, Option, none, some, List, [], ◌∷◌, Bytes, codes,
  ◌=ᵇ◌, length, All, split, member, has_byte, before, from, ok,
}
use issue.Base.Int.{pos}
use issue.Rate.Window.{Verdict}
use issue.Rate.Limiter.{WindowConfig, Limiter, new_limiter}
use issue.RateLimiter.Pattern.{
  combine_relationships, same, directed, compare_loop, last_multi?, and_then, not?, choose,
  compare_rest, combine?, compare_paths, compare_methods, compare_segments, last_segment,
  compare_paths_and_methods,
}
use issue.RateLimiter.Parse.{
  missing_slash, new_pattern, parse_path, segments_loop, identifier_segment, cut_suffix, last_byte,
  is_byte, starts_with, inner, validate_method, after_space,
}
use issue.RateLimiter.Tests.{one_user, any_user}
use issue.RateLimiter.Manager.{
  Config, Manager, fresh_manager, done, failed, bad_path, insert_elem, scan, parse_config,
  watch_tick, allow, load_paths, load_path, load_parsed, if_done, insert_pattern, place,
  first_index, cleared,
}
use issue.RateLimiter.Manager.Pairing.{IsInstalled}
use issue.RateLimiter.Manager.Precedence.{IsLoaded, HasSegment, parse_config-IsLoaded}
use issue.RateLimiter.Manager.Requests.{Ends, allow-Ends}
use issue.RateLimiter.Manager.Watch.{
  Ticks, ended, do_until_success, upto_first_reload, is_changed, is_done,
  do_until_success-upto_first_reload,
}
use issue.RateLimiter.Manager.Reload.{parse_config-SameHead, failed_config_stays}

-- One user may be asked for twice in ten nanoseconds, and all users once.
abbrev users_config : Config
users_config = record {
  enabled = true;
  mode = codes "enforce";
  paths =
      (codes "/users/{rest...}", record { limit = 1; duration = pos 10 } ∷ [])
      ∷ (codes "GET /users/{id}", record { limit = 2; duration = pos 10 } ∷ [])
      ∷ [];
}

abbrev users_hash : Config → Option ℕ
users_hash cfg = some 7

abbrev users_manager : Manager
users_manager = (parse_config users_hash fresh_manager users_config).0

parsed_one : new_pattern (codes "GET /users/{id}") ≡ ok one_user
unfolding new_pattern ◌=ᵇ◌ has_byte before from parse_path segments_loop identifier_segment
    cut_suffix last_byte is_byte starts_with inner validate_method after_space member
parsed_one = refl

parsed_any : new_pattern (codes "/users/{rest...}") ≡ ok any_user
unfolding new_pattern ◌=ᵇ◌ has_byte before from parse_path segments_loop identifier_segment
    cut_suffix last_byte is_byte starts_with inner validate_method after_space member
parsed_any = refl

users_config-HasSegment : All HasSegment users_config.paths
users_config-HasSegment = (λ q e s. cc (e, s, parsed_any), (λ q e s. cc (e, s, parsed_one), tt))

users_config_loads : (parse_config users_hash fresh_manager users_config).1 ≡ done
unfolding parse_config load_paths load_path load_parsed if_done insert_pattern scan first_index
    place cleared insert_elem same compare_paths_and_methods compare_methods compare_paths
    compare_loop compare_segments compare_rest combine_relationships directed last_segment
    last_multi? and_then not? choose combine? ◌=ᵇ◌
users_config_loads = rw (parsed_any, parsed_one) refl

parse_config-IsLoaded_example :
    IsLoaded users_manager
    × (length users_manager.patterns ≡ 2)
    × IsInstalled users_config.paths users_manager
parse_config-IsLoaded_example =
    parse_config-IsLoaded users_hash fresh_manager users_config users_config-HasSegment
      users_config_loads

no_overrides : Bytes → Bytes → Bool × List WindowConfig
no_overrides key text = (false, [])

users_manager-IsLoaded : IsLoaded users_manager
users_manager-IsLoaded =
    (parse_config-IsLoaded users_hash fresh_manager users_config users_config-HasSegment
      users_config_loads).0

allow-Ends_example :
    (ls : List Limiter) × (v : Verdict) × (allow no_overrides users_manager
        (codes "GET")
        (codes "/users/7")
        (codes "u1")
        (pos 1)
        (pos 2)
      ≡ some (record users_manager { limiters = ls }, v))
    × Ends no_overrides users_manager.mode
        (codes "GET")
        (split b'/' (codes "users/7"))
        (codes "u1")
        (pos 1)
        (pos 2)
        users_manager.patterns
        users_manager.limiters
        (ls, v)
allow-Ends_example =
    allow-Ends no_overrides users_manager (codes "GET") b'/' (codes "users/7") (codes "u1") (pos 1)
      (pos 2) users_manager-IsLoaded
      (parse_config-SameHead users_hash fresh_manager users_config 7 refl).0

abbrev reporting_manager : Manager
reporting_manager = record {
  enabled = true;
  mode = codes "reporting";
  last_config_hash = 7;
  patterns = one_user ∷ [];
  limiters = new_limiter (record { limit = 0; duration = pos 10 } ∷ []) ∷ [];
}

-- The second path is no pattern.
abbrev bad_config : Config
bad_config = record {
  enabled = true;
  mode = codes "enforce";
  paths = (codes "GET /users/{id}", []) ∷ (codes "users", []) ∷ [];
}

bad_config_fails :
    (parse_config users_hash fresh_manager bad_config).1
    ≡ failed (bad_path missing_slash (codes "users"))
unfolding parse_config load_paths load_path load_parsed if_done insert_pattern scan first_index
    place cleared insert_elem new_pattern ◌=ᵇ◌ has_byte parse_path
bad_config_fails = rw parsed_one refl

failed_config_stays_example :
    watch_tick users_hash (parse_config users_hash fresh_manager bad_config).0 (some bad_config)
    ≡ ((parse_config users_hash fresh_manager bad_config).0, done)
failed_config_stays_example =
    failed_config_stays users_hash fresh_manager bad_config 7
      (bad_path missing_slash (codes "users")) refl bad_config_fails

-- The getter fails, a change is loaded, and another configuration comes that nothing reads.
abbrev ticks : Ticks
ticks = none ∷ some users_config ∷ some bad_config ∷ []

ticks_few : length ticks < 4
ticks_few = omega arith

do_until_success-upto_first_reload_example :
    do_until_success users_hash 4 fresh_manager ticks
    ≡ upto_first_reload users_hash fresh_manager ticks
do_until_success-upto_first_reload_example =
    do_until_success-upto_first_reload users_hash 4 fresh_manager ticks ticks_few

-- What that is: the goroutine has ended.
ticks_run :
    upto_first_reload users_hash fresh_manager ticks ≡ ended users_manager (some bad_config ∷ [])
unfolding upto_first_reload is_changed watch_tick is_done fresh_manager
ticks_run = rw users_config_loads refl
