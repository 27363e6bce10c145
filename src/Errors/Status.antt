-- ===== src/Errors/Status.antt =====
-- internal/status/status.go: a status, as it is made and as an error. A `With` method changes the status
-- that it is called on and returns it: here it returns the status changed.
pub mod Helpers
pub mod Constructors
pub mod Messages
pub mod Reasons
use issue.Base.{
  ℕ, Bool, true, false, List, [], ◌∷◌, ◌++◌, Bytes, codes, Option, none, some, ◌==◌, if◌then◌else◌,
}
use issue.Rate.Window.{Duration}
use issue.Errors.Codes.{Code}
use issue.Errors.Chain.{
  Field, ErrorInfo, ErrorDetails, plain, Layer, foreign_layer, semantic_layer, status_layer,
  raw_layer, code_layer, fields_layer, Err, leaf, wrap, error_text, find,
}
use issue.Errors.Semantic.{message_with_fields}

pub record Status : Type 0 where
  pub code : Code
  pub err : Err
  pub details : ErrorDetails

unfoldable pub no_details : ErrorDetails
no_details = record { error_info = none; retry_info = none; user_facing_message = none }

-- `New`
unfoldable pub new_status : Code → Bytes → Status
unfolding no_details
new_status code message = record {
  code = code;
  err = wrap raw_layer (leaf (plain message));
  details = no_details;
}

-- `message`: that of the first error of the chain that has one. No error of another package is taken
-- to have such a method.
unfoldable pub message : Err → Option Bytes
message (leaf x) = none
message (wrap (semantic_layer s m fields) e) = some (message_with_fields s m fields e)
message (wrap raw_layer e) = some (error_text e)
message (wrap (foreign_layer x) e) = message e
message (wrap (status_layer c details) e) = message e
message (wrap (code_layer c) e) = message e
message (wrap (fields_layer fields) e) = message e

unfoldable pub or_unknown : Option Bytes → Bytes
or_unknown none = codes "unknown error"
or_unknown (some m) = m

-- `Message`
unfoldable pub status_message : Status → Bytes
unfolding message or_unknown
status_message s = or_unknown (message s.err)

-- `WithDetails`
unfoldable pub with_details : Status → ErrorDetails → Status
with_details s details = record s { details = details }

-- `WithErrorInfo`
unfoldable pub with_error_info : Status → ErrorInfo → Status
with_error_info s ei = record s { details = record s.details { error_info = some ei } }

unfoldable pub set_reason : Bytes → Option ErrorInfo → ErrorInfo
set_reason reason none = record { reason = reason; metadata = [] }
set_reason reason (some ei) = record ei { reason = reason }

-- `WithReason`
unfoldable pub with_reason : Status → Bytes → Status
unfolding set_reason
with_reason s reason = record s {
  details = record s.details { error_info = some (set_reason reason s.details.error_info) };
}

-- `WithRetryDelay`
unfoldable pub with_retry_delay : Status → Duration → Status
with_retry_delay s delay = record s { details = record s.details { retry_info = some delay } }

-- `WithUserFacingMessage`
unfoldable pub with_user_facing_message : Status → Bytes → Status
with_user_facing_message s ufm = record s {
  details = record s.details { user_facing_message = some ufm };
}

-- `Error`
unfoldable pub error : Status → Err
error s = wrap (status_layer s.code s.details) s.err

-- The status of a `*Error`.
unfoldable pub status_of_layer : Err → Option Status
status_of_layer (wrap (status_layer c d) e) = some (record { code = c; err = e; details = d })
status_of_layer e = none

-- errors.As with a `*Error`, and its `Status`.
unfoldable pub as_status : Err → Option Status
unfolding find
as_status err = find status_of_layer err
