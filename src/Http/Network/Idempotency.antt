-- ===== src/Http/Network/Idempotency.antt =====
-- When the strategies of internal/resttooling/restretries/network.go give up after an error.
use issue.Base.{
  ◌≡◌, refl, ◌∙◌, ap, Bool, true, false, not, ◌&&◌, ◌||◌, List, Bytes, Option, none, some, member,
  arith,
}
use issue.Errors.Chain.{context_canceled, unexpected_eof, is_some}
use issue.Errors.Fault.{Fault, is_in, is_permanent_error, new_permanent_error, is_timeout}
use issue.Http.Network.{
  Request, RetryByNetwork, stopped, check_context, is_connection_reset_by_peer,
  is_connection_refused, is_network_timeout, is_idempotent, retry_by_slug, retry_by_method,
  unless_found, unless_cancelled, uri_slug_based_network_retry, straightforward_network_retry,
  unconditional_network_retry,
}

-- The strategy makes a permanent error of the error.
abbrev pub gives_up : RetryByNetwork → Fault → Request → Bool
gives_up retry err req = elim (retry (some err) req) [
  | none ↦ false
  | some outcome ↦ is_permanent_error outcome
]

-- The caller cancelled the request: its context says so, or the error does.
abbrev pub is_cancelled : Fault → Request → Bool
is_cancelled err req = is_some (stopped req.ctx_err) || is_in context_canceled err

-- The error is one that a request may have been carried out in spite of.
abbrev pub is_blamed : Fault → Bool
is_blamed err =
    is_connection_reset_by_peer err
    || is_connection_refused err
    || is_in unexpected_eof err
    || is_network_timeout err

check_context-cancelled :
    (err : Fault) (req : Request) → is_some (check_context req.ctx_err err) ≡ is_cancelled err req
unfolding check_context is_some
check_context-cancelled err req = ground arith

pub new_permanent_error-permanent :
    (err : Fault) → is_permanent_error (new_permanent_error err) ≡ true
unfolding is_permanent_error new_permanent_error
new_permanent_error-permanent err = ground arith

permanent-unless_found :
    (found : Option Fault) (next : Fault)
    → is_permanent_error (unless_found found next) ≡ (is_some found || is_permanent_error next)
unfolding unless_found is_some
permanent-unless_found none next = refl
permanent-unless_found (some cancelled) next = new_permanent_error-permanent cancelled

-- What a strategy decides once the context is checked.
gives_up-unless_cancelled :
    (rest : Fault → Request → Fault) (err : Fault) (req : Request)
    → gives_up (unless_cancelled rest) err req
      ≡ (is_cancelled err req || is_permanent_error (rest err req))
unfolding unless_cancelled
gives_up-unless_cancelled rest err req =
    permanent-unless_found (check_context req.ctx_err err) (rest err req)
    ∙ ap (λ found. found || is_permanent_error (rest err req)) (check_context-cancelled err req)

module _ (err : Fault) (req : Request) (fresh : is_permanent_error err ≡ false) where
  retry_by_method-permanent :
      is_permanent_error (retry_by_method err req)
      ≡ (not (is_timeout err) && not (is_idempotent req.method) && is_blamed err)
  unfolding retry_by_method
  retry_by_method-permanent = ground (arith, new_permanent_error-permanent err)

  retry_by_slug-permanent :
      (slugs : List Bytes) (adhere : Bool)
      → is_permanent_error (retry_by_slug slugs adhere err req)
        ≡ not (
            is_timeout err
            || is_idempotent req.method && adhere
            || member req.slug slugs
            || is_connection_refused err)
  unfolding retry_by_slug
  retry_by_slug-permanent slugs adhere = ground (arith, new_permanent_error-permanent err)

  -- The straightforward strategy gives up after an error that is not permanent yet exactly when the
  -- request is cancelled, or when the error is not the time limit of one call, the method is not
  -- idempotent, and the connection was reset or refused, the response ended early or the network
  -- timed out.
  pub straightforward_gives_up : gives_up straightforward_network_retry err req ≡ (
      is_cancelled err req
      || not (is_timeout err) && not (is_idempotent req.method) && is_blamed err)
  unfolding straightforward_network_retry
  straightforward_gives_up =
      gives_up-unless_cancelled retry_by_method err req
      ∙ ap (λ b. is_cancelled err req || b) retry_by_method-permanent

  -- The strategy by slugs gives up after an error that is not permanent yet exactly when the request
  -- is cancelled, or when none of these holds: the error is the time limit of one call, the method
  -- is idempotent and the strategy adheres to that, the slug is listed, the connection was refused.
  pub uri_slug_based_gives_up :
      (slugs : List Bytes) (adhere : Bool)
      → gives_up (uri_slug_based_network_retry slugs adhere) err req ≡ (
          is_cancelled err req
          || not (
              is_timeout err
              || is_idempotent req.method && adhere
              || member req.slug slugs
              || is_connection_refused err))
  unfolding uri_slug_based_network_retry
  uri_slug_based_gives_up slugs adhere =
      gives_up-unless_cancelled (retry_by_slug slugs adhere) err req
      ∙ ap (λ b. is_cancelled err req || b) (retry_by_slug-permanent slugs adhere)

  pub unconditional_gives_up : gives_up unconditional_network_retry err req ≡ is_cancelled err req
  unfolding unconditional_network_retry
  unconditional_gives_up = gives_up-unless_cancelled (λ e r. e) err req ∙ ground (arith, fresh)
