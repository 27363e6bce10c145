-- ===== src/Http/Network.antt =====
-- internal/resttooling/restretries/network.go: whether a request is sent again after an error of
-- the network. The log lines are left out.
pub mod Idempotency
pub mod TimeLimit
use issue.Base.{
  Bool, true, false, not, ◌&&◌, ◌||◌, List, [], ◌∷◌, Bytes, codes, Option, none, some,
  if◌then◌else◌, member, contains, Option-cases,
}
use issue.Errors.Chain.{
  Err, Sentinel, Foreign, context_canceled, context_deadline_exceeded, connection_reset,
  connection_refused, unexpected_eof, is, is_some,
}
use issue.Errors.Fault.{
  Fault, single, noted, fault_text, find_in, is_in, new_permanent_error, is_timeout,
}

-- What the strategies read of an *http.Request: its method, `ctx.Err()` of its context, and the
-- slug that `getSlug` finds in that context.
pub record Request : Type 0 where
  pub method : Bytes
  pub ctx_err : Option Err
  pub slug : Bytes

-- RetryByNetwork: the error of the attempt, nil if there is none, and what the strategy makes of it.
abbrev pub RetryByNetwork : Type 0
RetryByNetwork = Option Fault → Request → Option Fault

-- The error of the context, unless it is that the deadline passed.
abbrev stopped : Option Err → Option Err
stopped none = none
stopped (some e) = if is context_deadline_exceeded e then none else some e

-- checkContext, of an error that is not nil
unfoldable pub check_context : Option Err → Fault → Option Fault
unfolding is_in is
check_context ctx_err err =
    if is_some (stopped ctx_err)
    then some (noted (codes "context canceled with underlying error") err)
    else if is_in context_canceled err
    then some err
    else none

-- isConnectionResetByPeer
unfoldable pub is_connection_reset_by_peer : Fault → Bool
unfolding is_in is
is_connection_reset_by_peer = is_in connection_reset

-- isConnectionRefused
unfoldable pub is_connection_refused : Fault → Bool
unfolding is_in is
is_connection_refused = is_in connection_refused

-- `errors.As(err, &timeoutErr) && timeoutErr.Timeout()`
abbrev times_out : Option Bool → Bool
times_out none = false
times_out (some answer) = answer

-- IsTemporaryNetworkErr
unfoldable pub is_temporary_network_err : Fault → Bool
unfolding is_connection_reset_by_peer is_connection_refused find_in
is_temporary_network_err err =
    if is_connection_reset_by_peer err
    then true
    else if is_connection_refused err
    then true
    else times_out (find_in (λ x. x.timeout) err)

-- isNetworkTimeout
unfoldable pub is_network_timeout : Fault → Bool
unfolding fault_text find_in contains
is_network_timeout err =
    if contains (fault_text err) (codes "request canceled")
    then true
    else times_out (find_in (λ x. x.timeout) err)

-- idempotentHTTPMethods
abbrev idempotent_http_methods : List Bytes
idempotent_http_methods = codes "GET" ∷ codes "HEAD" ∷ codes "OPTIONS" ∷ []

unfoldable pub is_idempotent : Bytes → Bool
unfolding member
is_idempotent method = member method idempotent_http_methods

-- The tests of URISlugBasedNetworkRetry once the context is checked.
unfoldable pub retry_by_slug : List Bytes → Bool → Fault → Request → Fault
unfolding is_timeout is_idempotent is_connection_refused member
retry_by_slug slugs adhere err req =
    if is_timeout err
    then err
    else if is_idempotent req.method && adhere
    then err
    else if member req.slug slugs
    then err
    else if is_connection_refused err
    then err
    else new_permanent_error err

-- The tests of StraightforwardNetworkRetry once the context is checked.
unfoldable pub retry_by_method : Fault → Request → Fault
unfolding is_timeout is_idempotent is_connection_reset_by_peer is_connection_refused is_in
    is_network_timeout
retry_by_method err req =
    let of_method = if is_idempotent req.method then err else new_permanent_error err in
    if is_timeout err
    then err
    else if is_connection_reset_by_peer err
    then of_method
    else if is_connection_refused err
    then of_method
    else if is_in unexpected_eof err
    then of_method
    else if is_network_timeout err
    then of_method
    else err

-- What the check of the context found, if anything, goes before the other tests.
unfoldable pub unless_found : Option Fault → Fault → Fault
unfolding new_permanent_error
unless_found none next = next
unless_found (some cancelled) next = new_permanent_error cancelled

-- What the three strategies share: no error is none, and a cancelled request is not sent again.
unfoldable pub unless_cancelled : (Fault → Request → Fault) → RetryByNetwork
unfolding check_context unless_found
unless_cancelled rest none req = none
unless_cancelled rest (some err) req =
    some (unless_found (check_context req.ctx_err err) (rest err req))

-- URISlugBasedNetworkRetry
unfoldable pub uri_slug_based_network_retry : List Bytes → Bool → RetryByNetwork
unfolding unless_cancelled retry_by_slug
uri_slug_based_network_retry slugs adhere = unless_cancelled (retry_by_slug slugs adhere)

-- StraightforwardNetworkRetry
unfoldable pub straightforward_network_retry : RetryByNetwork
unfolding unless_cancelled retry_by_method
straightforward_network_retry = unless_cancelled retry_by_method

-- UnconditionalNetworkRetry
unfoldable pub unconditional_network_retry : RetryByNetwork
unfolding unless_cancelled
unconditional_network_retry = unless_cancelled (λ err req. err)
