-- ===== src/Errors/Compat.antt =====
-- `FromError` of internal/status/compat.go, and internal/status/networkerrs.
pub mod Conversion
pub mod Boundary
use issue.Base.{
  ℕ, Bool, true, false, ◌||◌, List, [], ◌∷◌, Bytes, codes, Option, none, some, contains, member,
  if◌then◌else◌,
}
use issue.Errors.Codes.{
  Code, unknown, canceled, invalid_argument, deadline_exceeded, not_found, already_exists,
  permission_denied, too_many_requests, failed_precondition, unimplemented, internal, unavailable,
  unauthenticated, unprocessable, not_acceptable, locked,
}
use issue.Errors.Chain.{
  Semantic, semantic_unknown, semantic_not_implemented, semantic_unavailable,
  semantic_invalid_input, semantic_timeout, semantic_internal, semantic_authentication,
  semantic_forbidden, semantic_failed_precondition, semantic_not_found, semantic_already_exists,
  semantic_canceled, semantic_unprocessable, semantic_not_acceptable, semantic_resource_locked,
  semantic_too_many_requests, semantic_skip_error, semantic_partial_success, Foreign, OgenKind,
  security_error, decode_params_error, decode_request_error, other_ogen_error, Sentinel,
  context_canceled, context_deadline_exceeded, connection_reset, connection_refused, Err, find, ask,
  is,
}
use issue.Errors.Semantic.{SemanticError, as_semantic_error}
use issue.Errors.Status.{Status, no_details, as_status}

-- Each `codeFrom` function returns the code, or `none` where it returns false and a code that the
-- caller ignores.
-- `codeFromContext`
unfoldable pub code_from_context : Err → Option Code
unfolding is
code_from_context err =
    if is context_canceled err
    then some canceled
    else if is context_deadline_exceeded err
    then some deadline_exceeded
    else none

unfoldable pub canceled_lookup : Option Bytes → Option Code
unfolding contains
canceled_lookup none = none
canceled_lookup (some text) =
    if contains text (codes "operation was canceled") then some canceled else none

-- `codeFromDNSErr`
unfoldable pub code_from_dns_err : Err → Option Code
unfolding find ask canceled_lookup
code_from_dns_err err = canceled_lookup (find (ask (λ x. x.dns)) err)

-- The switch of `codeFromSemerr`.
unfoldable pub code_of_semantic : Semantic → Option Code
code_of_semantic semantic_already_exists = some already_exists
code_of_semantic semantic_authentication = some unauthenticated
code_of_semantic semantic_canceled = some canceled
code_of_semantic semantic_failed_precondition = some failed_precondition
code_of_semantic semantic_forbidden = some permission_denied
code_of_semantic semantic_internal = some internal
code_of_semantic semantic_invalid_input = some invalid_argument
code_of_semantic semantic_not_found = some not_found
code_of_semantic semantic_not_implemented = some unimplemented
code_of_semantic semantic_resource_locked = some locked
code_of_semantic semantic_too_many_requests = some too_many_requests
code_of_semantic semantic_timeout = some deadline_exceeded
code_of_semantic semantic_unavailable = some unavailable
code_of_semantic semantic_unprocessable = some unprocessable
code_of_semantic semantic_not_acceptable = some not_acceptable
code_of_semantic s = none

unfoldable pub semantic_code : Option SemanticError → Option Code
unfolding code_of_semantic
semantic_code none = none
semantic_code (some e) = code_of_semantic e.semantic

-- `codeFromSemerr`
unfoldable pub code_from_semerr : Err → Option Code
unfolding as_semantic_error semantic_code
code_from_semerr err = semantic_code (as_semantic_error err)

unfoldable pub ogen_code : Option OgenKind → Option Code
ogen_code none = none
ogen_code (some security_error) = some unauthenticated
ogen_code (some decode_params_error) = some invalid_argument
ogen_code (some decode_request_error) = some invalid_argument
ogen_code (some other_ogen_error) = none

-- `codeFromOgenerr`
unfoldable pub code_from_ogenerr : Err → Option Code
unfolding find ask ogen_code
code_from_ogenerr err = ogen_code (find (ask (λ x. x.ogen)) err)

-- ConnectionFailure, ConnectionException, TooManyConnections and CannotConnectNow of pgerrcode.
unfoldable pub transitional : List Bytes
transitional = codes "08006" ∷ codes "08000" ∷ codes "53300" ∷ codes "57P03" ∷ []

unfoldable pub pg_code : Option Bytes → Option Code
unfolding transitional
pg_code none = none
pg_code (some c) = some (if member c transitional then unavailable else unknown)

-- `codeFromPGDriver`
unfoldable pub code_from_pg_driver : Err → Option Code
unfolding find ask pg_code
code_from_pg_driver err = pg_code (find (ask (λ x. x.pg)) err)

unfoldable pub or_false : Option Bool → Bool
or_false none = false
or_false (some b) = b

-- `IsNetworkErrTranslatesToUnavailable`
unfoldable pub is_network_err_translates_to_unavailable : Err → Bool
unfolding is find ask or_false
is_network_err_translates_to_unavailable err =
    if is connection_reset err
    then true
    else if is connection_refused err
    then true
    else or_false (find (ask (λ x. x.timeout)) err)

-- `codeFromNetworkErr`
unfoldable pub code_from_network_err : Err → Option Code
unfolding is_network_err_translates_to_unavailable
code_from_network_err err =
    if is_network_err_translates_to_unavailable err then some unavailable else none

-- The first code of the list.
unfoldable pub first_code : List (Option Code) → Code
first_code [] = unknown
first_code (none ∷ cs) = first_code cs
first_code (some c ∷ cs) = c

-- The function literal of `FromError`.
unfoldable pub code_from : Err → Code
unfolding first_code
code_from err = first_code (
    code_from_context err
    ∷ code_from_dns_err err
    ∷ code_from_semerr err
    ∷ code_from_ogenerr err
    ∷ code_from_pg_driver err
    ∷ code_from_network_err err
    ∷ [])

unfoldable pub status_or : Err → Option Status → Status
unfolding code_from no_details
status_or err (some s) = s
status_or err none = record { code = code_from err; err = err; details = no_details }

-- `FromError`
unfoldable pub from_error : Err → Status
unfolding as_status status_or
from_error err = status_or err (as_status err)
