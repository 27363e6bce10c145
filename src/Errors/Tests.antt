-- ===== src/Errors/Tests.antt =====
-- The theorems on internal/semerr, internal/clouderr and internal/status at concrete errors.
use issue.Base.{◌≡◌, refl, List, [], ◌∷◌, ◌++◌, Bytes, codes, some}
use issue.Errors.Codes.{not_found}
use issue.Errors.Chain.{
  Field, semantic_not_found, semantic_internal, plain, Layer, semantic_layer, fields_layer,
  code_layer, Err, leaf, wrap, find, or_else, is, is_some, ask, foreign_of, if_sentinel,
  is_sentinel,
}
use issue.Errors.Semantic.{wrap_error}
use issue.Errors.Fields.{fields_from_context, context_with_fields}
use issue.Errors.Fields.Collection.{added, context_with_fields-nested}
use issue.Errors.Status.{
  Status, new_status, error, status_message, as_status, status_of_layer, with_reason,
}
use issue.Errors.Compat.{
  from_error, code_of_semantic, code_from_context, code_from_dns_err, canceled_lookup,
}
use issue.Errors.Compat.Conversion.{wrap_all, from_error-error, status_message-from_error_hidden}
use issue.Errors.Compat.Boundary.{IsUndecided}

-- A text without verbs is printed as it is.
abbrev as_written : Bytes → Bytes
as_written text = text

abbrev user_field : Field
user_field = record { key = codes "user"; value = codes "7" }

abbrev other_user_field : Field
other_user_field = record { key = codes "user"; value = codes "8" }

abbrev no_rows : Err
no_rows = leaf (plain (codes "no rows"))

abbrev user_missing : Err
user_missing =
    wrap_error as_written semantic_not_found no_rows (codes "no such user") (user_field ∷ [])

abbrev two_users : Err
two_users =
    wrap (fields_layer (user_field ∷ [])) (wrap (fields_layer (other_user_field ∷ [])) no_rows)

context_with_fields-nested_example :
    fields_from_context
      (context_with_fields (context_with_fields [] (user_field ∷ [])) (other_user_field ∷ []))
    ≡ fields_from_context (context_with_fields [] (user_field ∷ []))
      ++ added (other_user_field ∷ [])
context_with_fields-nested_example =
    context_with_fields-nested [] (user_field ∷ []) (other_user_field ∷ [])

abbrev limited : Status
limited = with_reason (new_status not_found (codes "gone")) (codes "PROJECT_NOT_FOUND")

abbrev two_layers : List Layer
two_layers =
    semantic_layer semantic_internal (codes "lookup") []
    ∷ code_layer (codes "PROJECTS_LIMIT_EXCEEDED")
    ∷ []

from_error-error_example : from_error (wrap_all two_layers (error limited)) ≡ limited
from_error-error_example = from_error-error limited two_layers (tt, (tt, tt))

abbrev hidden_error : Err
hidden_error = wrap (code_layer (codes "PROJECTS_LIMIT_EXCEEDED")) no_rows

status_message-from_error_hidden_example :
    status_message (from_error hidden_error) ≡ codes "unknown error"
status_message-from_error_hidden_example = status_message-from_error_hidden hidden_error (tt, tt)

code_of_not_found : code_of_semantic semantic_not_found ≡ some not_found
unfolding code_of_semantic
code_of_not_found = refl

no_rows-IsUndecided : IsUndecided no_rows
unfolding as_status code_from_context code_from_dns_err find or_else status_of_layer is is_some
    if_sentinel is_sentinel ask foreign_of canceled_lookup plain
no_rows-IsUndecided = record { status = refl; context = refl; dns = refl }
