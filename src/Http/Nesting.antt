-- ===== src/Http/Nesting.antt =====
-- internal/resttooling/restretries/client.go and strategies.go: how a round tripper that retries is
-- put together.
pub mod Construction
use issue.Base.{
  ◌≡◌, refl, ℕ, suc, Bool, true, false, not, List, [], ◌∷◌, Option, none, some, Result, ok, fail,
  panic, if◌then◌else◌,
}
use issue.Errors.Fault.{Fault, is_permanent_error}
use issue.Retry.{Strategy}
use issue.Http.Network.{RetryByNetwork}
use issue.Http.Response.{RetryByResponse}

-- What retryableRoundTripper holds besides the round tripper inside.
pub record Settings : Type 0 where
  pub how : List Strategy
  pub check_response : RetryByResponse
  pub check_network_error : RetryByNetwork

-- The values of http.RoundTripper that isRetryableRoundTripper tells apart: nil, one that retries,
-- one with an `Unwrap` method and what that returns, and any other, with a number for its name.
pub data RoundTripper : Type 0 where
  absent : RoundTripper
  retryable : Settings → RoundTripper → RoundTripper
  unwrapping : RoundTripper → RoundTripper
  other : ℕ → RoundTripper

-- unwrap
unfoldable pub unwrap : RoundTripper → RoundTripper
unwrap absent = absent
unwrap (retryable settings rt) = rt
unwrap (unwrapping rt) = rt
unwrap (other name) = absent

-- isRetryableRoundTripper
unfoldable pub is_retryable : RoundTripper → Bool
is_retryable absent = false
is_retryable (retryable settings rt) = true
is_retryable (unwrapping rt) = is_retryable rt
is_retryable (other name) = false

-- mustNotRetryTerminalErrorsStrategy; errors.Is finds nothing in nil.
unfoldable pub must_not_retry_terminal_errors : Strategy
unfolding is_permanent_error
must_not_retry_terminal_errors attempt none = true
must_not_retry_terminal_errors attempt (some err) = not (is_permanent_error err)

unfoldable pub with_checks :
    RoundTripper
    → Option RetryByNetwork
    → List Strategy
    → Option RetryByResponse
    → Result Fault RoundTripper
unfolding must_not_retry_terminal_errors
with_checks rt none how response = panic
with_checks rt (some network) how none = panic
with_checks rt (some network) [] (some response) = panic
with_checks rt (some network) (strategy ∷ how) (some response) = ok (
    retryable
      (record {
        how = must_not_retry_terminal_errors ∷ strategy ∷ how;
        check_response = response;
        check_network_error = network;
      })
      rt)

-- NewRetryableRoundTripper: nil for a strategy is none.
unfoldable pub new_retryable_round_tripper :
    RoundTripper
    → Option RetryByNetwork
    → List Strategy
    → Option RetryByResponse
    → Result Fault RoundTripper
unfolding is_retryable with_checks
new_retryable_round_tripper rt network_retry how response_should_be_retried =
    if is_retryable rt then panic else with_checks rt network_retry how response_should_be_retried
