-- ===== src/Errors/Semantic.antt =====
-- internal/semerr/semantic.go: errors with a meaning. The stack that an error carries is left out,
-- and `fields` are what the variadic arguments hold.
pub mod Constructors
pub mod Meaning
pub mod Recognition
use issue.Base.{
  ℕ, Bool, true, false, List, [], ◌∷◌, ◌++◌, map, join, Bytes, codes, Option, none, some, ◌==◌,
  if◌then◌else◌,
}
use issue.Errors.Fields.{unwrap_fields, field_to_string}
use issue.Errors.Chain.{
  Field, Semantic, semantic_unknown, semantic_not_implemented, semantic_unavailable,
  semantic_invalid_input, semantic_timeout, semantic_internal, semantic_authentication,
  semantic_forbidden, semantic_failed_precondition, semantic_not_found, semantic_already_exists,
  semantic_canceled, semantic_unprocessable, semantic_not_acceptable, semantic_resource_locked,
  semantic_too_many_requests, semantic_skip_error, semantic_partial_success, plain, Layer,
  foreign_layer, semantic_layer, Err, leaf, wrap, error_text, find,
}

-- The values of the constants.
unfoldable pub semantic_number : Semantic → ℕ
semantic_number semantic_unknown = 0
semantic_number semantic_not_implemented = 1
semantic_number semantic_unavailable = 2
semantic_number semantic_invalid_input = 3
semantic_number semantic_timeout = 4
semantic_number semantic_internal = 5
semantic_number semantic_authentication = 6
semantic_number semantic_forbidden = 7
semantic_number semantic_failed_precondition = 8
semantic_number semantic_not_found = 9
semantic_number semantic_already_exists = 10
semantic_number semantic_canceled = 11
semantic_number semantic_unprocessable = 12
semantic_number semantic_not_acceptable = 13
semantic_number semantic_resource_locked = 14
semantic_number semantic_too_many_requests = 15
semantic_number semantic_skip_error = 16
semantic_number semantic_partial_success = 17

-- Go's `==` on them.
unfoldable pub same_semantic : Semantic → Semantic → Bool
unfolding semantic_number
same_semantic s t = semantic_number s == semantic_number t

-- `Error`, with the error that it wraps.
pub record SemanticError : Type 0 where
  pub semantic : Semantic
  pub err : Err
  pub fields : List Field
  pub message : Bytes

unfoldable pub as_layer : Err → Option SemanticError
as_layer (wrap (semantic_layer s m fs) e) =
    some (record { semantic = s; err = e; fields = fs; message = m })
as_layer e = none

-- `AsSemanticError`; `none` is the nil pointer.
unfoldable pub as_semantic_error : Err → Option SemanticError
unfolding find
as_semantic_error e = find as_layer e

unfoldable pub with_fields_text : Bytes → List Field → Bytes
unfolding field_to_string
with_fields_text message [] = message
with_fields_text message (f ∷ ff) =
    message ++ codes "; " ++ join (map field_to_string (f ∷ ff)) (codes ", ")

-- `MessageWithFields` of the error that the layer makes of `e`.
unfoldable pub message_with_fields : Semantic → Bytes → List Field → Err → Bytes
unfolding unwrap_fields with_fields_text
message_with_fields s message fields e =
    with_fields_text message (unwrap_fields (wrap (semantic_layer s message fields) e))

unfoldable pub has_semantic : Option SemanticError → Semantic → Bool
unfolding same_semantic
has_semantic none s = false
has_semantic (some e) s = same_semantic e.semantic s

-- `IsSemanticError`
unfoldable pub is_semantic_error : Err → Semantic → Bool
unfolding as_semantic_error has_semantic
is_semantic_error err s = has_semantic (as_semantic_error err) s

-- What fmt makes of a format without arguments is a parameter.
module _ (sprintf : Bytes → Bytes) where
  -- `newError`
  unfoldable pub new_error : Semantic → Bytes → List Field → Err
  new_error s text fields = wrap (semantic_layer s text fields) (leaf (plain (sprintf text)))

  -- `wrapError`; xerrors.Errorf of a format that ends in `: %w` wraps the error.
  unfoldable pub wrap_error : Semantic → Err → Bytes → List Field → Err
  wrap_error s err text fields =
      wrap (semantic_layer s text fields)
        (wrap (foreign_layer (plain (sprintf text ++ codes ": " ++ error_text err))) err)
