-- ===== src/Rdb/Tests.antt =====
-- The theorems on internal/rdb at a concrete array and text, and at a transaction.
use issue.Base.{
  List, ◌||◌, ◌==◌, ◌⊎◌, Bytes, All, ℕ, ◌=ᵇ◌, ◌+◌, ◌≤◌, refl, Bool, true, false, Option, Result,
  ltb, if◌then◌else◌, length, length-append, arith, ◌≡◌, ◌≢◌, [], ◌∷◌, codes, none, some, ok, fail,
  panic,
}
use issue.Errors.Chain.{leaf, plain}
use issue.Errors.Fault.{Fault, single}
use issue.Retry.{Strategy, allow}
use issue.Retry.Loop.{retry_ten, retry_ten-Runs}
use issue.Rdb.Retryable.{strategy, no_op}
use issue.Rdb.Transaction.{Driver, Session, TxOptions, Db, with_tx, register_after_commit_callback}
use issue.Rdb.Transaction.Callbacks.{CallsDue, with_tx-CallsDue}
use issue.Rdb.Transaction.Repeats.{with_tx-once, with_tx_calls_all}
use issue.Rdb.Query.{Answer, query_context}
use issue.Rdb.Query.Answers.{Answered, query_context-Answered}
use issue.Base.Table.{Table}
use issue.Rdb.Dsn.{DsnError, unterminated, parse_opts}
use issue.Rdb.Dsn.RoundTrip.{IsKey, print_options, inserted, parse_opts-print_options}
use issue.Rdb.Dsn.Ending.{parse_opts-total}
use issue.Rdb.Array.{parse_array, out_of_fuel}
use issue.Rdb.Array.Strings.{StringArray, scan, value}
use issue.Rdb.Array.RoundTrip.{scan-value}
use issue.Rdb.Array.Safety.{parse_array_safe}

-- A quote and a delimiter, the word NULL, and an empty string.
abbrev three_strings : StringArray
three_strings = some (codes "a\",b" ∷ codes "NULL" ∷ [] ∷ [])

scan-value_example : scan none (value three_strings) ≡ ok three_strings
scan-value_example = scan-value none three_strings

parse_array_safe_example :
    (parse_array (codes "{{1,2},{NULL") (codes ",") ≢ panic)
    × (parse_array (codes "{{1,2},{NULL") (codes ",") ≢ fail out_of_fuel)
parse_array_safe_example = parse_array_safe (codes "{{1,2},{NULL") b',' []

-- The server answers at the third attempt, and the function registers the callback 7.
abbrev lost : Fault
lost = single (leaf (record (plain (codes "conn closed")) { pg = some (codes "08006") }))

abbrev driver : Driver ℕ
driver = record {
  begin = λ w. (w + 1, none);
  rollback = λ w. (w, none);
  commit = λ w. (w, if ltb w 3 then some lost else none);
  ctx_err = λ w. none;
}

abbrev registering : Bool → TxOptions ℕ
registering idempotent = record {
  continue_active = false;
  is_idempotent = idempotent;
  f = λ s. (register_after_commit_callback 7 s, ok tt);
}

abbrev at_most : ℕ → Strategy
at_most k n err = ltb n k

abbrev db : Db
db = record { retries = strategy (at_most 9); no_retries = no_op at_most }

abbrev idle : Session ℕ
idle = record { world = 0; callbacks = []; called = []; asked = 0; begun = 0; ended = 0 }

registering_quiet :
    (idempotent : Bool) (s : Session ℕ) → ((registering idempotent).f s).0.called ≡ s.called
unfolding register_after_commit_callback
registering_quiet idempotent s = refl

registering_one_each :
    (s : Session ℕ)
    → (((registering true).f s).0.begun ≡ s.begun)
      × (length ((registering true).f s).0.callbacks ≡ length s.callbacks + 1)
unfolding register_after_commit_callback
registering_one_each s = (refl, length-append s.callbacks (7 ∷ []))

with_tx-CallsDue_example : CallsDue [] (with_tx retry_ten db driver false (registering false) idle)
with_tx-CallsDue_example =
    with_tx-CallsDue driver (registering false) (registering_quiet false) retry_ten db idle
      retry_ten-Runs

with_tx-once_example :
    ((with_tx retry_ten db driver false (registering false) idle).0.asked ≤ 1)
    × ((with_tx retry_ten db driver false (registering false) idle).0.begun ≤ 1)
unfolding register_after_commit_callback
with_tx-once_example =
    with_tx-once driver (registering false) (λ s. (refl, refl)) retry_ten db at_most idle
      retry_ten-Runs refl at_most_refuses refl
  where
    at_most_refuses : (k n : ℕ) (err : Option Fault) → k ≤ n → at_most k n err ≡ false
    at_most_refuses k n err h = ground arith

-- Two transactions fail at their commit, the third ends well: the callback is called three times.
abbrev repeated : Session ℕ × Result Fault (Unit {0})
repeated = with_tx retry_ten db driver false (registering true) idle

repeated_run : (repeated.0.called ≡ 7 ∷ 7 ∷ 7 ∷ []) × (repeated.1 ≡ ok tt)
unfolding with_tx allow strategy register_after_commit_callback plain ◌=ᵇ◌
repeated_run = (refl, refl)

with_tx_calls_all_example : length repeated.0.called + 0 ≡ 0 + repeated.0.begun
with_tx_calls_all_example =
    with_tx_calls_all driver (registering true) registering_one_each retry_ten db idle
      (registering_quiet true) retry_ten-Runs (repeated_run.1)

-- A query that is answered at the second attempt.
abbrev flaky : ℕ → ℕ × Answer ℕ
flaky w = (w + 1, record { value = some w; error = if ltb w 1 then some lost else none })

flaky_run :
    query_context retry_ten (strategy (at_most 9)) flaky 0
    ≡ (2, some (record { value = some 1; error = none }))
unfolding query_context allow strategy plain ◌=ᵇ◌
flaky_run = refl

first_allowed : allow (strategy (at_most 9)) 0 none ≡ true
unfolding allow strategy
first_allowed = refl

query_context-Answered_example : Answered flaky 2 (some 1)
query_context-Answered_example =
    query_context-Answered retry_ten (strategy (at_most 9)) flaky 0 2 (some 1) retry_ten-Runs
      first_allowed flaky_run

-- Options with a quote in a value, over an option that was there.
abbrev is_blank : ℕ → Bool
is_blank c = c == b' ' || c == b'\n'

abbrev options : List (Bytes × Bytes)
options = (codes "host", codes "db'1") ∷ (codes "user", []) ∷ []

abbrev before_options : Table Bytes
before_options = (codes "host", codes "old") ∷ []

options-IsKey : All (IsKey is_blank) options
options-IsKey = ((refl, (refl, (refl, (refl, tt)))), ((refl, (refl, (refl, (refl, tt)))), tt))

parse_opts-print_options_example :
    parse_opts is_blank (print_options options) before_options
    ≡ ok (inserted options before_options)
parse_opts-print_options_example =
    parse_opts-print_options is_blank refl refl options before_options options-IsKey

-- The last value is cut off.
abbrev unfinished : Bytes
unfinished = codes "host = a\\ b;user='x"

parse_opts-total_example :
    ((found : Table Bytes) × (parse_opts is_blank unfinished [] ≡ ok found))
    ⊎ ((err : DsnError) × (parse_opts is_blank unfinished [] ≡ fail err))
parse_opts-total_example = parse_opts-total is_blank unfinished []

unfinished_run : parse_opts is_blank unfinished [] ≡ fail unterminated
unfolding parse_opts
unfinished_run = refl
