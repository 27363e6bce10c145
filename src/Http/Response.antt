-- ===== src/Http/Response.antt =====
-- internal/resttooling/restretries/response.go: whether a request is sent again after a response.
use issue.Base.{
  ℕ, Bool, false, List, [], ◌∷◌, codes, decimal, Option, none, some, ◌==◌, if◌then◌else◌, ◌||◌,
  Result, ok, fail, panic,
}
use issue.Errors.Chain.{leaf, wrap, plain, fields_layer}
use issue.Errors.Fault.{Fault, single}

-- What the code reads of an *http.Response.
pub record Response : Type 0 where
  pub status_code : ℕ

-- RetryByResponse: the response, nil included, and the error that asks for another attempt.
abbrev pub RetryByResponse : Type 0
RetryByResponse = Option Response → Result Fault (Unit {0})

-- clouderr.WithFields("response status code is retryable", …)
unfoldable pub retryable_status : ℕ → Fault
unfolding decimal plain
retryable_status status = single (
    wrap (fields_layer (record { key = codes "status"; value = decimal status } ∷ []))
      (leaf (plain (codes "response status code is retryable"))))

-- RetryByStatusCodeFunc
unfoldable pub retry_by_status_code_func : (ℕ → Bool) → RetryByResponse
retry_by_status_code_func should_retry none = panic
retry_by_status_code_func should_retry (some response) =
    if should_retry response.status_code
    then fail (retryable_status response.status_code)
    else ok tt

unfoldable pub among : List ℕ → ℕ → Bool
among [] response_code = false
among (code ∷ codes) response_code = code == response_code || among codes response_code

-- RetryByStatusCode
unfoldable pub retry_by_status_code : List ℕ → RetryByResponse
unfolding retry_by_status_code_func among
retry_by_status_code retryable_codes = retry_by_status_code_func (among retryable_codes)

-- RepeatRetriableStatusCodes: service unavailable, too many requests, bad gateway, locked.
unfoldable pub repeat_retriable_status_codes : RetryByResponse
unfolding retry_by_status_code
repeat_retriable_status_codes = retry_by_status_code (503 ∷ 429 ∷ 502 ∷ 423 ∷ [])
