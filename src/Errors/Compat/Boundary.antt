-- ===== src/Errors/Compat/Boundary.antt =====
-- `FromError` of internal/status/compat.go on semantic errors.
use issue.Base.{◌≡◌, refl, List, ◌++◌, Bytes, codes, none, some}
use issue.Errors.Codes.{Code}
use issue.Errors.Chain.{
  Field, Semantic, foreign_layer, semantic_layer, plain, Err, leaf, wrap, find, or_else, ask,
  foreign_of, error_text, is, is_some, if_sentinel, is_sentinel,
}
use issue.Errors.Semantic.{as_layer, as_semantic_error, new_error, wrap_error, message_with_fields}
use issue.Errors.Status.{no_details, status_of_layer, as_status, status_message, or_unknown}
use issue.Errors.Compat.{
  code_from_context, canceled_lookup, code_from_dns_err, code_of_semantic, semantic_code,
  code_from_semerr, first_code, code_from, status_or, from_error,
}

-- No error of the chain decides the code before its semantic errors are asked.
pub record IsUndecided (e : Err) : Type 0 where
  pub status : as_status e ≡ none
  pub context : code_from_context e ≡ none
  pub dns : code_from_dns_err e ≡ none

plain-IsUndecided : (text : Bytes) → IsUndecided (leaf (plain text))
unfolding as_status code_from_context code_from_dns_err find or_else status_of_layer is is_some
    if_sentinel is_sentinel ask foreign_of canceled_lookup plain
plain-IsUndecided text = record { status = refl; context = refl; dns = refl }

foreign-IsUndecided :
    (text : Bytes) (e : Err) → IsUndecided e → IsUndecided (wrap (foreign_layer (plain text)) e)
unfolding as_status code_from_context code_from_dns_err find or_else status_of_layer is is_some
    if_sentinel is_sentinel ask foreign_of canceled_lookup plain
foreign-IsUndecided text e u = record { status = u.status; context = u.context; dns = u.dns }

semantic-IsUndecided :
    (s : Semantic) (m : Bytes) (fields : List Field) (e : Err)
    → IsUndecided e
    → IsUndecided (wrap (semantic_layer s m fields) e)
unfolding as_status code_from_context code_from_dns_err find or_else status_of_layer is is_some
    if_sentinel is_sentinel ask foreign_of canceled_lookup
semantic-IsUndecided s m fields e u = record { status = u.status; context = u.context; dns = u.dns }

code_from_semerr-semantic :
    (s : Semantic) (m : Bytes) (fields : List Field) (e : Err)
    → code_from_semerr (wrap (semantic_layer s m fields) e) ≡ code_of_semantic s
unfolding code_from_semerr as_semantic_error find or_else as_layer semantic_code
code_from_semerr-semantic s m fields e = refl

-- The status of the error that a semantic layer makes of `e`.
Shows : Code → Semantic → Bytes → List Field → Err → Type 0
Shows c s m fields e =
    (from_error (wrap (semantic_layer s m fields) e)
      ≡ record { code = c; err = wrap (semantic_layer s m fields) e; details = no_details })
    × (status_message (from_error (wrap (semantic_layer s m fields) e))
        ≡ message_with_fields s m fields e)

undecided-Shows :
    (c : Code) (s : Semantic) (m : Bytes) (fields : List Field) (e : Err)
    → code_of_semantic s ≡ some c
    → IsUndecided e
    → Shows c s m fields e
unfolding from_error status_or code_from first_code status_message or_unknown Shows
undecided-Shows c s m fields e k u =
    let v = semantic-IsUndecided s m fields e u in
    rw (v.status, v.context, v.dns, code_from_semerr-semantic s m fields e, k) (refl, refl)

module _ (sprintf : Bytes → Bytes) where
  -- An error that `newError` makes with a meaning that has a code becomes a status with that code,
  -- no details, and the message that the error was given, with its fields.
  pub from_error-new_error :
      (s : Semantic) (c : Code) (text : Bytes) (fields : List Field)
      → code_of_semantic s ≡ some c
      → (from_error (new_error sprintf s text fields)
          ≡ record { code = c; err = new_error sprintf s text fields; details = no_details })
        × (status_message (from_error (new_error sprintf s text fields))
            ≡ message_with_fields s text fields (leaf (plain (sprintf text))))
  unfolding new_error Shows
  from_error-new_error s c text fields k =
      undecided-Shows c s text fields (leaf (plain (sprintf text))) k
        (plain-IsUndecided (sprintf text))

  -- Wrapping decides the code: whatever meaning the wrapped error had, the status has the code of the
  -- new meaning and shows the new message, if the wrapped error holds no status, no context error and
  -- no cancelled DNS lookup.
  pub from_error-wrap_error :
      (s : Semantic) (c : Code) (err : Err) (text : Bytes) (fields : List Field)
      → code_of_semantic s ≡ some c
      → IsUndecided err
      → (from_error (wrap_error sprintf s err text fields)
          ≡ record { code = c; err = wrap_error sprintf s err text fields; details = no_details })
        × (status_message (from_error (wrap_error sprintf s err text fields))
            ≡ message_with_fields s text fields
                (wrap (foreign_layer (plain (sprintf text ++ codes ": " ++ error_text err))) err))
  unfolding wrap_error Shows
  from_error-wrap_error s c err text fields k u =
      undecided-Shows c s text fields
        (wrap (foreign_layer (plain (sprintf text ++ codes ": " ++ error_text err))) err) k
        (foreign-IsUndecided (sprintf text ++ codes ": " ++ error_text err) err u)
