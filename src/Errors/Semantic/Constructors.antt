-- ===== src/Errors/Semantic/Constructors.antt =====
-- The constructors and tests of internal/semerr/semantic.go, one pair for each meaning, and
-- `UnwrapPanic`.
use issue.Base.{Bool, List, [], Bytes, codes}
use issue.Errors.Chain.{
  Field, semantic_not_implemented, semantic_unavailable, semantic_invalid_input, semantic_timeout,
  semantic_internal, semantic_authentication, semantic_forbidden, semantic_failed_precondition,
  semantic_not_found, semantic_already_exists, semantic_canceled, semantic_unprocessable,
  semantic_not_acceptable, semantic_resource_locked, semantic_too_many_requests,
  semantic_skip_error, semantic_partial_success, plain, Err, leaf, error_text,
}
use issue.Errors.Semantic.{new_error, wrap_error, is_semantic_error}

module _ (sprintf : Bytes → Bytes) where
  unfoldable pub internal : Bytes → List Field → Err
  unfolding new_error
  internal text fields = new_error sprintf semantic_internal text fields

  unfoldable pub not_implemented : Bytes → List Field → Err
  unfolding new_error
  not_implemented text fields = new_error sprintf semantic_not_implemented text fields

  unfoldable pub unavailable : Bytes → List Field → Err
  unfolding new_error
  unavailable text fields = new_error sprintf semantic_unavailable text fields

  unfoldable pub resource_locked : Bytes → List Field → Err
  unfolding new_error
  resource_locked text fields = new_error sprintf semantic_resource_locked text fields

  unfoldable pub invalid_input : Bytes → List Field → Err
  unfolding new_error
  invalid_input text fields = new_error sprintf semantic_invalid_input text fields

  unfoldable pub authentication : Bytes → List Field → Err
  unfolding new_error
  authentication text fields = new_error sprintf semantic_authentication text fields

  unfoldable pub forbidden : Bytes → List Field → Err
  unfolding new_error
  forbidden text fields = new_error sprintf semantic_forbidden text fields

  unfoldable pub failed_precondition : Bytes → List Field → Err
  unfolding new_error
  failed_precondition text fields = new_error sprintf semantic_failed_precondition text fields

  unfoldable pub not_found : Bytes → List Field → Err
  unfolding new_error
  not_found text fields = new_error sprintf semantic_not_found text fields

  unfoldable pub already_exists : Bytes → List Field → Err
  unfolding new_error
  already_exists text fields = new_error sprintf semantic_already_exists text fields

  unfoldable pub unprocessable : Bytes → List Field → Err
  unfolding new_error
  unprocessable text fields = new_error sprintf semantic_unprocessable text fields

  unfoldable pub not_acceptable : Bytes → List Field → Err
  unfolding new_error
  not_acceptable text fields = new_error sprintf semantic_not_acceptable text fields

  unfoldable pub too_many_requests : Bytes → List Field → Err
  unfolding new_error
  too_many_requests text fields = new_error sprintf semantic_too_many_requests text fields

  unfoldable pub partial_success : Bytes → List Field → Err
  unfolding new_error
  partial_success text fields = new_error sprintf semantic_partial_success text fields

  unfoldable pub wrap_with_canceled : Err → Bytes → List Field → Err
  unfolding wrap_error
  wrap_with_canceled err text fields = wrap_error sprintf semantic_canceled err text fields

  unfoldable pub wrap_with_internal : Err → Bytes → List Field → Err
  unfolding wrap_error
  wrap_with_internal err text fields = wrap_error sprintf semantic_internal err text fields

  unfoldable pub wrap_with_not_implemented : Err → Bytes → List Field → Err
  unfolding wrap_error
  wrap_with_not_implemented err text fields =
      wrap_error sprintf semantic_not_implemented err text fields

  unfoldable pub wrap_with_unavailable : Err → Bytes → List Field → Err
  unfolding wrap_error
  wrap_with_unavailable err text fields = wrap_error sprintf semantic_unavailable err text fields

  unfoldable pub wrap_with_timeout : Err → Bytes → List Field → Err
  unfolding wrap_error
  wrap_with_timeout err text fields = wrap_error sprintf semantic_timeout err text fields

  unfoldable pub wrap_with_resource_locked : Err → Bytes → List Field → Err
  unfolding wrap_error
  wrap_with_resource_locked err text fields =
      wrap_error sprintf semantic_resource_locked err text fields

  unfoldable pub wrap_with_too_many_requests : Err → Bytes → List Field → Err
  unfolding wrap_error
  wrap_with_too_many_requests err text fields =
      wrap_error sprintf semantic_too_many_requests err text fields

  unfoldable pub wrap_with_invalid_input : Err → Bytes → List Field → Err
  unfolding wrap_error
  wrap_with_invalid_input err text fields =
      wrap_error sprintf semantic_invalid_input err text fields

  unfoldable pub wrap_with_authentication : Err → Bytes → List Field → Err
  unfolding wrap_error
  wrap_with_authentication err text fields =
      wrap_error sprintf semantic_authentication err text fields

  unfoldable pub wrap_with_forbidden : Err → Bytes → List Field → Err
  unfolding wrap_error
  wrap_with_forbidden err text fields = wrap_error sprintf semantic_forbidden err text fields

  unfoldable pub wrap_with_failed_precondition : Err → Bytes → List Field → Err
  unfolding wrap_error
  wrap_with_failed_precondition err text fields =
      wrap_error sprintf semantic_failed_precondition err text fields

  unfoldable pub wrap_with_not_found : Err → Bytes → List Field → Err
  unfolding wrap_error
  wrap_with_not_found err text fields = wrap_error sprintf semantic_not_found err text fields

  unfoldable pub wrap_with_already_exists : Err → Bytes → List Field → Err
  unfolding wrap_error
  wrap_with_already_exists err text fields =
      wrap_error sprintf semantic_already_exists err text fields

  unfoldable pub wrap_with_unprocessable : Err → Bytes → List Field → Err
  unfolding wrap_error
  wrap_with_unprocessable err text fields =
      wrap_error sprintf semantic_unprocessable err text fields

  unfoldable pub wrap_with_not_acceptable : Err → Bytes → List Field → Err
  unfolding wrap_error
  wrap_with_not_acceptable err text fields =
      wrap_error sprintf semantic_not_acceptable err text fields

  -- `WrapWithSkipError`
  unfoldable pub wrap_with_skip_error : Err → List Field → Err
  unfolding wrap_error
  wrap_with_skip_error err fields =
      wrap_error sprintf semantic_skip_error err (error_text err) fields

  -- What `recover` gives `UnwrapPanic`: nil, an error, or a value with what `%v` shows of it.
  pub data Panic : Type 0 where
    no_panic : Panic
    of_error : Err → Panic
    of_value : Bytes → Panic

  -- `UnwrapPanic`
  unfoldable pub unwrap_panic : Panic → Err
  unfolding internal wrap_with_internal
  unwrap_panic no_panic = internal (codes "panic") []
  unwrap_panic (of_error err) = err
  unwrap_panic (of_value v) = wrap_with_internal (leaf (plain v)) (codes "panic") []

unfoldable pub is_not_implemented : Err → Bool
unfolding is_semantic_error
is_not_implemented err = is_semantic_error err semantic_not_implemented

unfoldable pub is_resource_locked : Err → Bool
unfolding is_semantic_error
is_resource_locked err = is_semantic_error err semantic_resource_locked

unfoldable pub is_unavailable : Err → Bool
unfolding is_semantic_error
is_unavailable err = is_semantic_error err semantic_unavailable

unfoldable pub is_internal : Err → Bool
unfolding is_semantic_error
is_internal err = is_semantic_error err semantic_internal

unfoldable pub is_invalid_input : Err → Bool
unfolding is_semantic_error
is_invalid_input err = is_semantic_error err semantic_invalid_input

unfoldable pub is_authentication : Err → Bool
unfolding is_semantic_error
is_authentication err = is_semantic_error err semantic_authentication

unfoldable pub is_forbidden : Err → Bool
unfolding is_semantic_error
is_forbidden err = is_semantic_error err semantic_forbidden

unfoldable pub is_failed_precondition : Err → Bool
unfolding is_semantic_error
is_failed_precondition err = is_semantic_error err semantic_failed_precondition

unfoldable pub is_not_found : Err → Bool
unfolding is_semantic_error
is_not_found err = is_semantic_error err semantic_not_found

unfoldable pub is_already_exists : Err → Bool
unfolding is_semantic_error
is_already_exists err = is_semantic_error err semantic_already_exists

unfoldable pub is_unprocessable : Err → Bool
unfolding is_semantic_error
is_unprocessable err = is_semantic_error err semantic_unprocessable

unfoldable pub is_not_acceptable : Err → Bool
unfolding is_semantic_error
is_not_acceptable err = is_semantic_error err semantic_not_acceptable

unfoldable pub is_too_many_requests : Err → Bool
unfolding is_semantic_error
is_too_many_requests err = is_semantic_error err semantic_too_many_requests

unfoldable pub is_partial_success : Err → Bool
unfolding is_semantic_error
is_partial_success err = is_semantic_error err semantic_partial_success
