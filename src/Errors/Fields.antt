-- ===== src/Errors/Fields.antt =====
-- internal/clouderr/clouderr.go: log fields in a context and in errors; and internal/codeerr.
pub mod Collection
use issue.Base.{
  ℕ, zero, suc, ◌+◌, ◌-◌, Bool, true, false, List, [], ◌∷◌, ◌++◌, map, Bytes, codes, Option, none,
  some, length, Result, ok, fail, panic, if◌then◌else◌,
}
use issue.Base.Table.{Table, lookup, insert}
use issue.Errors.Chain.{
  Field, Layer, semantic_layer, fields_layer, code_layer, plain, Err, leaf, wrap, find, error_text,
}

-- What a context holds under a key of type `ctxkey`.
pub data ContextValue : Type 0 where
  log_fields : List Field → ContextValue
  log_field_keys : Table ℕ → ContextValue

-- A context, by the values that it holds under the key `ctxkey{}`, the last one first. The variables
-- `logFieldsContextKey` and `logFieldKeysMapContextKey` hold this same key: both are the empty struct
-- of the same type.
abbrev pub Context : Type 0
Context = List ContextValue

-- `ctx.Value`
unfoldable pub value : Context → Option ContextValue
value [] = none
value (v ∷ ctx) = some v

-- `FieldsFromContext`; the nil slice is the empty list.
unfoldable pub fields_from_context : Context → List Field
unfolding value
fields_from_context ctx = elim (value ctx) [
  | none ↦ []
  | some (log_fields fields) ↦ fields
  | some (log_field_keys keys) ↦ []
]

-- `logFieldKeyMapFromContext`
unfoldable pub log_field_key_map_from_context : Context → Table ℕ
unfolding value
log_field_key_map_from_context ctx = elim (value ctx) [
  | none ↦ []
  | some (log_fields fields) ↦ []
  | some (log_field_keys keys) ↦ keys
]

-- `lf[idx] = f`; the indices of the map are in range.
unfoldable pub replace_at {ℓ} : {A : Type ℓ} → ℕ → A → List A → List A
replace_at i a [] = []
replace_at zero a (x ∷ xs) = a ∷ xs
replace_at (suc i) a (x ∷ xs) = x ∷ replace_at i a xs

-- One round of the loop of `ContextWithFields`, with what the key map says of the field's key.
unfoldable pub add_field : Table ℕ → List Field → Field → Option ℕ → Table ℕ × List Field
unfolding replace_at
add_field lkm lf f none = (insert f.key (length lf) lkm, lf ++ f ∷ [])
add_field lkm lf f (some idx) = (lkm, replace_at idx f lf)

-- The loop, with the key map and the fields.
unfoldable pub add_fields : Table ℕ → List Field → List Field → Table ℕ × List Field
unfolding add_field
add_fields lkm lf [] = (lkm, lf)
add_fields lkm lf (f ∷ fields) =
    let (lkm', lf') = add_field lkm lf f (lookup f.key lkm) in add_fields lkm' lf' fields

-- `ContextWithFields`. Slices and maps are values here: that a parent's map or array is written in
-- place, where the parent has one, is not modelled.
unfoldable pub context_with_fields : Context → List Field → Context
context_with_fields ctx fields =
    let (lkm, lf) =
      add_fields (log_field_key_map_from_context ctx) (fields_from_context ctx) fields in
    log_fields lf ∷ log_field_keys lkm ∷ ctx

-- `WrapWithFields`
unfoldable pub wrap_with_fields : Err → List Field → Err
wrap_with_fields err [] = err
wrap_with_fields err (f ∷ fields) = wrap (fields_layer (f ∷ fields)) err

-- `WithFields`
unfoldable pub with_fields : Bytes → List Field → Err
unfolding wrap_with_fields
with_fields text fields = wrap_with_fields (leaf (plain text)) fields

-- `WithFieldsFromContext`
unfoldable pub with_fields_from_context : Context → Bytes → List Field → Err
unfolding with_fields fields_from_context
with_fields_from_context ctx text fields = with_fields text (fields_from_context ctx ++ fields)

-- `WrapWithFieldsFromContext`
unfoldable pub wrap_with_fields_from_context : Context → Err → List Field → Err
unfolding wrap_with_fields fields_from_context
wrap_with_fields_from_context ctx err fields =
    wrap_with_fields err (fields_from_context ctx ++ fields)

-- The `Fields()` of an error that has it.
unfoldable pub fields_of : Layer → List Field
fields_of (semantic_layer s message fields) = fields
fields_of (fields_layer fields) = fields
fields_of l = []

-- The inner loop of `UnwrapFields`, on its map.
unfoldable pub store_fields : List Field → Table Field → Table Field
store_fields [] m = m
store_fields (f ∷ fs) m = store_fields fs (insert f.key f m)

-- The outer loop of `UnwrapFields`, from the outermost error in.
unfoldable pub collect : Err → Table Field → Table Field
unfolding fields_of store_fields
collect (leaf x) m = m
collect (wrap l e) m = collect e (store_fields (fields_of l) m)

-- `UnwrapFields`; Go leaves the order of the result open.
unfoldable pub unwrap_fields : Err → List Field
unfolding collect
unwrap_fields err = map (λ (k, f). f) (collect err [])

-- `FieldToString`
unfoldable pub field_to_string : Field → Bytes
field_to_string f = f.key ++ codes ":\"" ++ f.value ++ codes "\""

-- `Wrap` of internal/codeerr/codes.go
unfoldable pub wrap_code : Bytes → Err → Err
wrap_code code err = wrap (code_layer code) err

unfoldable pub code_of_layer : Err → Option (Bytes × Err)
code_of_layer (wrap (code_layer c) e) = some (c, e)
code_of_layer e = none

-- `AsCodeErr`: the code and the wrapped error.
unfoldable pub as_code_err : Err → Option (Bytes × Err)
unfolding find
as_code_err err = find code_of_layer err
