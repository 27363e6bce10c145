-- ===== src/Errors/Semantic/Recognition.antt =====
-- Which semantic errors of internal/semerr/semantic.go are recognized as what.
use issue.Base.{◌≡◌, refl, Bool, List, [], ◌∷◌, Bytes, All, All-map}
use issue.Errors.Chain.{
  Field, Semantic, semantic_not_implemented, semantic_unavailable, semantic_invalid_input,
  semantic_timeout, semantic_internal, semantic_authentication, semantic_forbidden,
  semantic_failed_precondition, semantic_not_found, semantic_already_exists, semantic_canceled,
  semantic_unprocessable, semantic_not_acceptable, semantic_resource_locked,
  semantic_too_many_requests, semantic_partial_success, Err, find, or_else,
}
use issue.Errors.Semantic.{
  same_semantic, as_layer, as_semantic_error, has_semantic, is_semantic_error, new_error,
  wrap_error,
}
use issue.Errors.Semantic.Constructors.{
  internal, not_implemented, unavailable, resource_locked, invalid_input, authentication, forbidden,
  failed_precondition, not_found, already_exists, unprocessable, not_acceptable, too_many_requests,
  partial_success, wrap_with_canceled, wrap_with_internal, wrap_with_not_implemented,
  wrap_with_unavailable, wrap_with_timeout, wrap_with_resource_locked, wrap_with_too_many_requests,
  wrap_with_invalid_input, wrap_with_authentication, wrap_with_forbidden,
  wrap_with_failed_precondition, wrap_with_not_found, wrap_with_already_exists,
  wrap_with_unprocessable, wrap_with_not_acceptable, is_not_implemented, is_resource_locked,
  is_unavailable, is_internal, is_invalid_input, is_authentication, is_forbidden,
  is_failed_precondition, is_not_found, is_already_exists, is_unprocessable, is_not_acceptable,
  is_too_many_requests, is_partial_success,
}

-- Each function that tests for a meaning, with the meaning.
abbrev pub testers : List (Semantic × (Err → Bool))
testers =
    (semantic_not_implemented, is_not_implemented)
    ∷ (semantic_resource_locked, is_resource_locked)
    ∷ (semantic_unavailable, is_unavailable)
    ∷ (semantic_internal, is_internal)
    ∷ (semantic_invalid_input, is_invalid_input)
    ∷ (semantic_authentication, is_authentication)
    ∷ (semantic_forbidden, is_forbidden)
    ∷ (semantic_failed_precondition, is_failed_precondition)
    ∷ (semantic_not_found, is_not_found)
    ∷ (semantic_already_exists, is_already_exists)
    ∷ (semantic_unprocessable, is_unprocessable)
    ∷ (semantic_not_acceptable, is_not_acceptable)
    ∷ (semantic_too_many_requests, is_too_many_requests)
    ∷ (semantic_partial_success, is_partial_success)
    ∷ []

abbrev Tests : Semantic × (Err → Bool) → Type 0
Tests (t, test) = (err : Err) → test err ≡ is_semantic_error err t

testers_lem : All Tests testers
unfolding is_not_implemented is_resource_locked is_unavailable is_internal is_invalid_input
    is_authentication is_forbidden is_failed_precondition is_not_found is_already_exists
    is_unprocessable is_not_acceptable is_too_many_requests is_partial_success
testers_lem = (
  λ e. refl,
  (
    λ e. refl,
    (
      λ e. refl,
      (
        λ e. refl,
        (
          λ e. refl,
          (
            λ e. refl,
            (
              λ e. refl,
              (
                λ e. refl,
                (λ e. refl, (λ e. refl, (λ e. refl, (λ e. refl, (λ e. refl, (λ e. refl, tt)))))),
              ),
            ),
          ),
        ),
      ),
    ),
  ),
)

module _ (sprintf : Bytes → Bytes) where
  -- Each constructor, with its meaning.
  abbrev pub constructors : List (Semantic × (Bytes → List Field → Err))
  constructors =
      (semantic_internal, internal sprintf)
      ∷ (semantic_not_implemented, not_implemented sprintf)
      ∷ (semantic_unavailable, unavailable sprintf)
      ∷ (semantic_resource_locked, resource_locked sprintf)
      ∷ (semantic_invalid_input, invalid_input sprintf)
      ∷ (semantic_authentication, authentication sprintf)
      ∷ (semantic_forbidden, forbidden sprintf)
      ∷ (semantic_failed_precondition, failed_precondition sprintf)
      ∷ (semantic_not_found, not_found sprintf)
      ∷ (semantic_already_exists, already_exists sprintf)
      ∷ (semantic_unprocessable, unprocessable sprintf)
      ∷ (semantic_not_acceptable, not_acceptable sprintf)
      ∷ (semantic_too_many_requests, too_many_requests sprintf)
      ∷ (semantic_partial_success, partial_success sprintf)
      ∷ []

  abbrev pub wrappers : List (Semantic × (Err → Bytes → List Field → Err))
  wrappers =
      (semantic_canceled, wrap_with_canceled sprintf)
      ∷ (semantic_internal, wrap_with_internal sprintf)
      ∷ (semantic_not_implemented, wrap_with_not_implemented sprintf)
      ∷ (semantic_unavailable, wrap_with_unavailable sprintf)
      ∷ (semantic_timeout, wrap_with_timeout sprintf)
      ∷ (semantic_resource_locked, wrap_with_resource_locked sprintf)
      ∷ (semantic_too_many_requests, wrap_with_too_many_requests sprintf)
      ∷ (semantic_invalid_input, wrap_with_invalid_input sprintf)
      ∷ (semantic_authentication, wrap_with_authentication sprintf)
      ∷ (semantic_forbidden, wrap_with_forbidden sprintf)
      ∷ (semantic_failed_precondition, wrap_with_failed_precondition sprintf)
      ∷ (semantic_not_found, wrap_with_not_found sprintf)
      ∷ (semantic_already_exists, wrap_with_already_exists sprintf)
      ∷ (semantic_unprocessable, wrap_with_unprocessable sprintf)
      ∷ (semantic_not_acceptable, wrap_with_not_acceptable sprintf)
      ∷ []

  abbrev Makes : Semantic × (Bytes → List Field → Err) → Type 0
  Makes (s, make) =
      (text : Bytes) (fields : List Field) → make text fields ≡ new_error sprintf s text fields

  abbrev Wraps : Semantic × (Err → Bytes → List Field → Err) → Type 0
  Wraps (s, make) =
      (err : Err) (text : Bytes) (fields : List Field)
      → make err text fields ≡ wrap_error sprintf s err text fields

  -- The test accepts what the constructor makes exactly if the two have the same meaning.
  abbrev pub Recognizes : Semantic × (Bytes → List Field → Err) → Semantic × (Err → Bool) → Type 0
  Recognizes (s, make) (t, test) =
      (text : Bytes) (fields : List Field) → test (make text fields) ≡ same_semantic s t

  abbrev pub RecognizesWrap :
      Semantic × (Err → Bytes → List Field → Err) → Semantic × (Err → Bool) → Type 0
  RecognizesWrap (s, make) (t, test) =
      (err : Err) (text : Bytes) (fields : List Field)
      → test (make err text fields) ≡ same_semantic s t

  constructors_lem : All Makes constructors
  unfolding internal not_implemented unavailable resource_locked invalid_input authentication
      forbidden failed_precondition not_found already_exists unprocessable not_acceptable
      too_many_requests partial_success
  constructors_lem = (
    λ t f. refl,
    (
      λ t f. refl,
      (
        λ t f. refl,
        (
          λ t f. refl,
          (
            λ t f. refl,
            (
              λ t f. refl,
              (
                λ t f. refl,
                (
                  λ t f. refl,
                  (
                    λ t f. refl,
                    (λ t f. refl, (λ t f. refl, (λ t f. refl, (λ t f. refl, (λ t f. refl, tt))))),
                  ),
                ),
              ),
            ),
          ),
        ),
      ),
    ),
  )

  wrappers_lem : All Wraps wrappers
  unfolding wrap_with_canceled wrap_with_internal wrap_with_not_implemented wrap_with_unavailable
      wrap_with_timeout wrap_with_resource_locked wrap_with_too_many_requests
      wrap_with_invalid_input wrap_with_authentication wrap_with_forbidden
      wrap_with_failed_precondition wrap_with_not_found wrap_with_already_exists
      wrap_with_unprocessable wrap_with_not_acceptable
  wrappers_lem = (
    λ e t f. refl,
    (
      λ e t f. refl,
      (
        λ e t f. refl,
        (
          λ e t f. refl,
          (
            λ e t f. refl,
            (
              λ e t f. refl,
              (
                λ e t f. refl,
                (
                  λ e t f. refl,
                  (
                    λ e t f. refl,
                    (
                      λ e t f. refl,
                      (
                        λ e t f. refl,
                        (λ e t f. refl, (λ e t f. refl, (λ e t f. refl, (λ e t f. refl, tt)))),
                      ),
                    ),
                  ),
                ),
              ),
            ),
          ),
        ),
      ),
    ),
  )

  is_semantic_error-new_error :
      (s t : Semantic) (text : Bytes) (fields : List Field)
      → is_semantic_error (new_error sprintf s text fields) t ≡ same_semantic s t
  unfolding is_semantic_error as_semantic_error has_semantic find or_else as_layer new_error
  is_semantic_error-new_error s t text fields = refl

  is_semantic_error-wrap_error :
      (s t : Semantic) (err : Err) (text : Bytes) (fields : List Field)
      → is_semantic_error (wrap_error sprintf s err text fields) t ≡ same_semantic s t
  unfolding is_semantic_error as_semantic_error has_semantic find or_else as_layer wrap_error
  is_semantic_error-wrap_error s t err text fields = refl

  constructor_recognized :
      (c : Semantic × (Bytes → List Field → Err)) → Makes c → All (Recognizes c) testers
  constructor_recognized (s, make) made =
      All-map {P = Tests} {Q = Recognizes (s, make)}
        (λ (t, test) tests text fields.
          rw (tests (make text fields), made text fields)
            (is_semantic_error-new_error s t text fields))
        testers testers_lem

  wrapper_recognized :
      (c : Semantic × (Err → Bytes → List Field → Err)) → Wraps c → All (RecognizesWrap c) testers
  wrapper_recognized (s, make) made =
      All-map {P = Tests} {Q = RecognizesWrap (s, make)}
        (λ (t, test) tests err text fields.
          rw (tests (make err text fields), made err text fields)
            (is_semantic_error-wrap_error s t err text fields))
        testers testers_lem

  -- Every constructor makes errors that exactly the test for its own meaning accepts.
  pub constructors_recognized : All (λ c. All (Recognizes c) testers) constructors
  constructors_recognized =
      All-map {P = Makes} {Q = λ c. All (Recognizes c) testers} constructor_recognized constructors
        constructors_lem

  -- Wrapping an error replaces its meaning: exactly the test for the new meaning accepts it, whatever
  -- the wrapped error was.
  pub wrappers_recognized : All (λ c. All (RecognizesWrap c) testers) wrappers
  wrappers_recognized =
      All-map {P = Wraps} {Q = λ c. All (RecognizesWrap c) testers} wrapper_recognized wrappers
        wrappers_lem
