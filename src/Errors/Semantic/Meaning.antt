-- ===== src/Errors/Semantic/Meaning.antt =====
-- `IsSemanticError` of internal/semerr/semantic.go against the chain of an error.
use issue.Base.{
  ◌≡◌, refl, ap, sym, ◌∙◌, ◌↔◌, true, List, [], ◌∷◌, Option, none, some, ==_iff, get_elem?,
}
use issue.Errors.Chain.{
  Semantic, semantic_unknown, semantic_not_implemented, semantic_unavailable,
  semantic_invalid_input, semantic_timeout, semantic_internal, semantic_authentication,
  semantic_forbidden, semantic_failed_precondition, semantic_not_found, semantic_already_exists,
  semantic_canceled, semantic_unprocessable, semantic_not_acceptable, semantic_resource_locked,
  semantic_too_many_requests, semantic_skip_error, semantic_partial_success, Err, find,
}
use issue.Errors.Chain.Search.{IsFirst, find-IsFirst, IsFirst-find}
use issue.Errors.Semantic.{
  semantic_number, same_semantic, SemanticError, as_layer, as_semantic_error, has_semantic,
  is_semantic_error,
}

abbrev all_semantics : List Semantic
all_semantics =
    semantic_unknown ∷ semantic_not_implemented ∷ semantic_unavailable ∷ semantic_invalid_input
    ∷ semantic_timeout ∷ semantic_internal ∷ semantic_authentication ∷ semantic_forbidden
    ∷ semantic_failed_precondition ∷ semantic_not_found ∷ semantic_already_exists
    ∷ semantic_canceled ∷ semantic_unprocessable ∷ semantic_not_acceptable
    ∷ semantic_resource_locked ∷ semantic_too_many_requests ∷ semantic_skip_error
    ∷ semantic_partial_success ∷ []

-- The position of a meaning is its number.
get_elem?-semantic_number : (s : Semantic) → get_elem? all_semantics (semantic_number s) ≡ some s
unfolding semantic_number
get_elem?-semantic_number semantic_unknown = refl
get_elem?-semantic_number semantic_not_implemented = refl
get_elem?-semantic_number semantic_unavailable = refl
get_elem?-semantic_number semantic_invalid_input = refl
get_elem?-semantic_number semantic_timeout = refl
get_elem?-semantic_number semantic_internal = refl
get_elem?-semantic_number semantic_authentication = refl
get_elem?-semantic_number semantic_forbidden = refl
get_elem?-semantic_number semantic_failed_precondition = refl
get_elem?-semantic_number semantic_not_found = refl
get_elem?-semantic_number semantic_already_exists = refl
get_elem?-semantic_number semantic_canceled = refl
get_elem?-semantic_number semantic_unprocessable = refl
get_elem?-semantic_number semantic_not_acceptable = refl
get_elem?-semantic_number semantic_resource_locked = refl
get_elem?-semantic_number semantic_too_many_requests = refl
get_elem?-semantic_number semantic_skip_error = refl
get_elem?-semantic_number semantic_partial_success = refl

pub same_semantic_iff : (s t : Semantic) → (same_semantic s t ≡ true) ↔ (s ≡ t)
unfolding same_semantic
same_semantic_iff s t = (
  λ h.
      let equal_numbers : semantic_number s ≡ semantic_number t =
        (==_iff (semantic_number s) (semantic_number t)).0 h in
      let found : some s ≡ some t =
        sym (get_elem?-semantic_number s)
        ∙ (ap (λ n. get_elem? all_semantics n) equal_numbers ∙ get_elem?-semantic_number t) in
      cc,
  λ e. (==_iff (semantic_number s) (semantic_number t)).1 (ap semantic_number e),
)

-- The outermost semantic error of the chain has the meaning.
pub record HasMeaning (err : Err) (s : Semantic) : Type 0 where
  pub found : SemanticError
  pub first : IsFirst as_layer err found
  pub meaning : found.semantic ≡ s

-- `IsSemanticError` holds exactly if the outermost semantic error of the chain has the meaning, at
-- whatever depth it stands; a semantic error behind it does not count.
pub is_semantic_error_iff :
    (err : Err) (s : Semantic) → (is_semantic_error err s ≡ true) ↔ HasMeaning err s
unfolding is_semantic_error as_semantic_error has_semantic
is_semantic_error_iff err s = (
  λ h. from_found (find as_layer err) refl h,
  λ m.
      rw (IsFirst-find as_layer err m.found m.first)
        ((same_semantic_iff m.found.semantic s).1 m.meaning),
)
  where
    from_found :
        (r : Option SemanticError)
        → find as_layer err ≡ r
        → has_semantic r s ≡ true
        → HasMeaning err s
    from_found none k h = cc h
    from_found (some e) k h = record {
      found = e;
      first = find-IsFirst as_layer err e k;
      meaning = (same_semantic_iff e.semantic s).0 h;
    }
