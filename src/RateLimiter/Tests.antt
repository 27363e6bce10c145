-- ===== src/RateLimiter/Tests.antt =====
-- The theorems on internal/resttooling/ratelimiter/v2 at concrete patterns, configurations and
-- requests.
use issue.Base.{
  ◌≡◌, refl, ◌⊎◌, true, false, none, some, List, [], ◌∷◌, Bytes, codes, ◌=ᵇ◌, member, has_byte,
  before, from, ok,
}
use issue.RateLimiter.Pattern.{Segment, Pattern, Relationship, compare_paths_and_methods, match}
use issue.RateLimiter.Pattern.Relations.{Holds}
use issue.RateLimiter.Pattern.Paths.{PathMatches}
use issue.RateLimiter.Pattern.Matching.{Decides, MethodMatches, match-Decides}
use issue.RateLimiter.Pattern.Soundness.{IsProper, Accepts, compare_sound}
use issue.RateLimiter.Parse.{
  new_pattern, parse_path, segments_loop, identifier_segment, cut_suffix, last_byte, is_byte,
  starts_with, inner, validate_method, after_space, methods,
}
use issue.RateLimiter.Parse.Loop.{Outcome}
use issue.RateLimiter.Parse.WellFormed.{new_pattern-Outcome, root_panics}

-- `GET /users/{id}` and `/users/{rest...}`.
abbrev pub users : Segment
users = record { s = codes "users"; identifier = false; multi = false }

abbrev pub one_user : Pattern
one_user = record {
  pattern = codes "GET /users/{id}";
  method = codes "GET";
  segments = users ∷ record { s = codes "id"; identifier = true; multi = false } ∷ [];
}

abbrev pub any_user : Pattern
any_user = record {
  pattern = codes "/users/{rest...}";
  method = [];
  segments = users ∷ record { s = codes "rest"; identifier = true; multi = true } ∷ [];
}

pub one_user-IsProper : IsProper one_user
one_user-IsProper = record { some_segment = λ e. cc e; multi_last = (λ e. cc e, (λ e. refl, tt)) }

any_user-IsProper : IsProper any_user
any_user-IsProper = record { some_segment = λ e. cc e; multi_last = (λ e. cc e, (λ e. refl, tt)) }

match-Decides_example : Decides (match one_user (codes "GET") (codes "users" ∷ codes "7" ∷ [])) (
    MethodMatches one_user (codes "GET")
    × PathMatches one_user.segments (codes "users" ∷ codes "7" ∷ []))
match-Decides_example =
    match-Decides one_user (codes "GET") (codes "users" ∷ codes "7" ∷ [])
      one_user-IsProper.some_segment one_user-IsProper.multi_last

compare_sound_example :
    (r : Relationship) × (compare_paths_and_methods one_user any_user ≡ some r)
    × ((method : Bytes) (path : List Bytes)
        → Holds r (Accepts one_user method path) (Accepts any_user method path))
compare_sound_example = compare_sound one_user any_user one_user-IsProper any_user-IsProper

pub parsed_one_user : new_pattern (codes "GET /users/{id}") ≡ ok one_user
unfolding new_pattern ◌=ᵇ◌ has_byte before from parse_path segments_loop identifier_segment
    cut_suffix last_byte is_byte starts_with inner validate_method after_space member
parsed_one_user = refl

new_pattern-Outcome_example :
    Outcome one_user.segments
    × (one_user.pattern ≡ codes "GET /users/{id}")
    × ((one_user.method ≡ []) ⊎ (member one_user.method methods ≡ true))
new_pattern-Outcome_example = new_pattern-Outcome (codes "GET /users/{id}") one_user parsed_one_user

root_panics_example :
    (q : Pattern) × (new_pattern (codes "/") ≡ ok q)
    × (match q (codes "GET") (codes "users" ∷ []) ≡ none)
root_panics_example = root_panics (codes "GET") (codes "users") []
