-- ===== src/Http/Timeout.antt =====
-- internal/resttooling/resttimeouts: a limit on the time of one call of a round tripper.
use issue.Base.{Option, none, some}
use issue.Errors.Fault.{Fault, own, temporary, joined, single}
use issue.Errors.Chain.{Err}

-- What `RoundTrip` of a round tripper returns. Each part may be nil.
pub record Reply {ℓ} (Response : Type ℓ) : Type ℓ where
  pub response : Option Response
  pub error : Option Fault

-- timeoutsRoundTripper.RoundTrip. `ended` is what `ctx.Err()` is if the `select` took the case of
-- the context's end, which it may do also when the reply is there.
unfoldable pub limit_time {ℓ} : {Response : Type ℓ} → Option Err → Reply Response → Reply Response
limit_time none reply = reply
limit_time (some ended) reply = record {
  response = none;
  error = some (joined (own temporary) (single ended));
}
