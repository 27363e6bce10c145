-- ===== src/Errors/Status/Helpers.antt =====
-- internal/status/helpers.go: a constructor and a test for each code.
use issue.Base.{Bool, Bytes}
use issue.Errors.Codes.{
  unknown, canceled, invalid_argument, deadline_exceeded, not_found, already_exists,
  permission_denied, too_many_requests, failed_precondition, aborted, unimplemented, internal,
  unavailable, unauthenticated, unprocessable, not_acceptable, locked, same_code,
}
use issue.Errors.Status.{Status, new_status, message}

unfoldable pub new_unknown : Bytes → Status
unfolding new_status
new_unknown message = new_status unknown message

unfoldable pub new_canceled : Bytes → Status
unfolding new_status
new_canceled message = new_status canceled message

unfoldable pub new_invalid_argument : Bytes → Status
unfolding new_status
new_invalid_argument message = new_status invalid_argument message

unfoldable pub new_deadline_exceeded : Bytes → Status
unfolding new_status
new_deadline_exceeded message = new_status deadline_exceeded message

unfoldable pub new_not_found : Bytes → Status
unfolding new_status
new_not_found message = new_status not_found message

unfoldable pub new_already_exists : Bytes → Status
unfolding new_status
new_already_exists message = new_status already_exists message

unfoldable pub new_permission_denied : Bytes → Status
unfolding new_status
new_permission_denied message = new_status permission_denied message

unfoldable pub new_too_many_requests : Bytes → Status
unfolding new_status
new_too_many_requests message = new_status too_many_requests message

unfoldable pub new_failed_precondition : Bytes → Status
unfolding new_status
new_failed_precondition message = new_status failed_precondition message

unfoldable pub new_aborted : Bytes → Status
unfolding new_status
new_aborted message = new_status aborted message

unfoldable pub new_unimplemented : Bytes → Status
unfolding new_status
new_unimplemented message = new_status unimplemented message

unfoldable pub new_internal : Bytes → Status
unfolding new_status
new_internal message = new_status internal message

unfoldable pub new_unavailable : Bytes → Status
unfolding new_status
new_unavailable message = new_status unavailable message

unfoldable pub new_unauthenticated : Bytes → Status
unfolding new_status
new_unauthenticated message = new_status unauthenticated message

unfoldable pub new_unprocessable : Bytes → Status
unfolding new_status
new_unprocessable message = new_status unprocessable message

unfoldable pub new_not_acceptable : Bytes → Status
unfolding new_status
new_not_acceptable message = new_status not_acceptable message

unfoldable pub new_locked : Bytes → Status
unfolding new_status
new_locked message = new_status locked message

unfoldable pub is_unknown : Status → Bool
unfolding same_code
is_unknown s = same_code s.code unknown

unfoldable pub is_canceled : Status → Bool
unfolding same_code
is_canceled s = same_code s.code canceled

unfoldable pub is_invalid_argument : Status → Bool
unfolding same_code
is_invalid_argument s = same_code s.code invalid_argument

unfoldable pub is_deadline_exceeded : Status → Bool
unfolding same_code
is_deadline_exceeded s = same_code s.code deadline_exceeded

unfoldable pub is_not_found : Status → Bool
unfolding same_code
is_not_found s = same_code s.code not_found

unfoldable pub is_already_exists : Status → Bool
unfolding same_code
is_already_exists s = same_code s.code already_exists

unfoldable pub is_permission_denied : Status → Bool
unfolding same_code
is_permission_denied s = same_code s.code permission_denied

unfoldable pub is_too_many_requests : Status → Bool
unfolding same_code
is_too_many_requests s = same_code s.code too_many_requests

unfoldable pub is_failed_precondition : Status → Bool
unfolding same_code
is_failed_precondition s = same_code s.code failed_precondition

unfoldable pub is_aborted : Status → Bool
unfolding same_code
is_aborted s = same_code s.code aborted

unfoldable pub is_unimplemented : Status → Bool
unfolding same_code
is_unimplemented s = same_code s.code unimplemented

unfoldable pub is_internal : Status → Bool
unfolding same_code
is_internal s = same_code s.code internal

unfoldable pub is_unavailable : Status → Bool
unfolding same_code
is_unavailable s = same_code s.code unavailable

unfoldable pub is_unauthenticated : Status → Bool
unfolding same_code
is_unauthenticated s = same_code s.code unauthenticated

unfoldable pub is_unprocessable : Status → Bool
unfolding same_code
is_unprocessable s = same_code s.code unprocessable

unfoldable pub is_not_acceptable : Status → Bool
unfolding same_code
is_not_acceptable s = same_code s.code not_acceptable

unfoldable pub is_locked : Status → Bool
unfolding same_code
is_locked s = same_code s.code locked
