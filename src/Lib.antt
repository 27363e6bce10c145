-- ===== src/Lib.antt =====
-- Verification of the core libraries of the repository.
--
-- The program is a set of Go libraries under internal/ and services under app/ that use them. Modelled
-- are its rate limiting, its handling of errors, the retries of HTTP requests, its access to the database,
-- its job scheduler, its caches, the names and queries that it makes, and the threads of the Telegram
-- search.
--
--   Rate           internal/rate/fixed_window.go: fixed windows (Rate/Window) and the limiter that keeps
--                  a list of them for each key (Rate/Limiter). Times and durations are integers of
--                  nanoseconds; `time.Time.Sub` goes to the nearest duration where a difference is none.
--   RateLimiter    internal/resttooling/ratelimiter/v2: `newPattern` (RateLimiter/Parse), the comparison
--                  and the matching of patterns (RateLimiter/Pattern), and the manager that loads a
--                  configuration, orders the patterns and asks the limiter of the pattern that matches a
--                  request (RateLimiter/Manager). The manager uses the limiters of Rate.
--                  RateLimiter/Manager/Watch is the goroutine that reloads the configuration,
--                  `watchConfig` under `DoUntilSuccess` of internal/recoverytooling.
--   Errors         errors that wrap one another: codes (Errors/Codes, internal/status/codes), chains of
--                  errors and `errors.As`/`errors.Is` (Errors/Chain), semantic errors (Errors/Semantic,
--                  internal/semerr), log fields (Errors/Fields, internal/clouderr, internal/codeerr),
--                  statuses (Errors/Status, internal/status), and `FromError` (Errors/Compat), which
--                  turns any error into a status. Errors that are joined, and the error values that packages
--                  declare, are trees over such chains (Errors/Fault).
--   Retry          github.com/kamilsk/retry as a parameter: what its documentation says of `retry.Do` is
--                  the relation `Runs` (Retry/Attempts), and Retry/Loop is a loop that follows it.
--   Http           internal/resttooling: the strategies of restretries/network.go (Http/Network) and
--                  response.go (Http/Response), the bodies of http2tooling (Http/Body), the time limit of
--                  resttimeouts (Http/Timeout), and the round tripper that retries, put together in
--                  Http/Nesting and run in Http/RoundTrip, with Retry around the round tripper inside.
--   Readiness      internal/readiness: the probes of required and optional dependencies at startup, each
--                  with `retry.Do`.
--   Rdb            internal/rdb: the text form of string arrays in array.go, written by `Value` and read by
--                  `Scan` and `parseArray` (Rdb/Array); the transactions of rdb.go, with their commits,
--                  rollbacks and callbacks (Rdb/Transaction), and the errors that are retried
--                  (Rdb/Retryable, internal/pgretries); the statements of retries.go (Rdb/Query); and the
--                  scanner of connection options in internal/driver/dsn.go (Rdb/Dsn).
--   Schedule       internal/scheduletooling: the latch that limits the concurrent runs of a job, as a step
--                  relation over interleaved calls (Schedule/Job, with internal/concurrent/value.go), and
--                  the scheduler that turns jobs on and off as their configurations change
--                  (Schedule/Scheduler). The quartz scheduler is known by the calls that it gets.
--   Concurrent     internal/concurrent: maps behind a lock and the cache whose values expire, with calls that
--                  run one after another.
--   Text           the names of log fields (Text/Snake, internal/logfmt) and of columns (Text/Camel,
--                  internal/encodingtooling), and the queries of internal/sqltooling/query.go (Text/Query),
--                  with a tree of fields for what reflection says of a struct.
--   Telegram       app/telegramsearch/internal/pkg: `findThreads` of story_dump_chat_history.go
--                  (Telegram/Threads) and the loop of story_generate_embeddings.go over the tables that its
--                  statements read and write (Telegram/Embeddings).
--   Base           shared types: byte strings, results, association lists for Go maps, integers.
--
-- A mutable struct is a record, and a method returns the record changed beside its result. A method that
-- holds a mutex is one step. `Option` and `Result` have a value for a panic where the code can index out
-- of range. A uint is a natural number with the wrap-around written out.
--
-- Fuel: the loop of `newPattern` takes at least one byte of the path in each round, so that the length of
-- the path is enough; the error `out_of_fuel` of the model is never returned. Each round
-- of `parseArray` behind its first braces takes the delimiter, so that the length of the text is enough. So
-- does each round of `parseOpts`. A call of `watchConfig` that returns takes a tick, so that one more
-- than the ticks is enough for `DoUntilSuccess`. GenerateEmbeddings may not end; its fuel counts its rounds.
--
-- Parameters: `retry.Do`, the context with a timeout around it, and the strategies of its library, the
-- round tripper inside another, the driver of the database and the function of a transaction, the
-- package unicode, what net/url finds, the parsing of JSON, the service of OpenAI, the errors of the
-- two statements and what the pool makes of errors; the configuration hash (hashstructure), the
-- fetcher of overrides, the clock, and what fmt makes of a format. An error of another package is
-- known by what the code asks of it.
--
-- Not modelled: metrics, spans and logs; stack traces; the wrappers of the database driver, servers,
-- caches and applications, which are glue around third-party packages; formats of dates and numbers; and
-- the small helpers.
pub mod Base
pub mod Concurrent
pub mod Errors
pub mod Http
pub mod Rate
pub mod RateLimiter
pub mod Rdb
pub mod Readiness
pub mod Retry
pub mod Schedule
pub mod Telegram
pub mod Text
