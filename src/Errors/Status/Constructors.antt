-- ===== src/Errors/Status/Constructors.antt =====
-- What the constructors of internal/status/helpers.go make, for its tests and for `Message`.
use issue.Base.{◌≡◌, refl, Bool, List, [], ◌∷◌, Bytes, All, All-map}
use issue.Errors.Codes.{
  Code, unknown, canceled, invalid_argument, deadline_exceeded, not_found, already_exists,
  permission_denied, too_many_requests, failed_precondition, aborted, unimplemented, internal,
  unavailable, unauthenticated, unprocessable, not_acceptable, locked, same_code,
}
use issue.Errors.Chain.{error_text, plain}
use issue.Errors.Status.{Status, new_status, status_message, message, or_unknown}
use issue.Errors.Status.Helpers.{
  new_unknown, new_canceled, new_invalid_argument, new_deadline_exceeded, new_not_found,
  new_already_exists, new_permission_denied, new_too_many_requests, new_failed_precondition,
  new_aborted, new_unimplemented, new_internal, new_unavailable, new_unauthenticated,
  new_unprocessable, new_not_acceptable, new_locked, is_unknown, is_canceled, is_invalid_argument,
  is_deadline_exceeded, is_not_found, is_already_exists, is_permission_denied, is_too_many_requests,
  is_failed_precondition, is_aborted, is_unimplemented, is_internal, is_unavailable,
  is_unauthenticated, is_unprocessable, is_not_acceptable, is_locked,
}

abbrev pub status_constructors : List (Code × (Bytes → Status))
status_constructors =
    (unknown, new_unknown)
    ∷ (canceled, new_canceled)
    ∷ (invalid_argument, new_invalid_argument)
    ∷ (deadline_exceeded, new_deadline_exceeded)
    ∷ (not_found, new_not_found)
    ∷ (already_exists, new_already_exists)
    ∷ (permission_denied, new_permission_denied)
    ∷ (too_many_requests, new_too_many_requests)
    ∷ (failed_precondition, new_failed_precondition)
    ∷ (aborted, new_aborted)
    ∷ (unimplemented, new_unimplemented)
    ∷ (internal, new_internal)
    ∷ (unavailable, new_unavailable)
    ∷ (unauthenticated, new_unauthenticated)
    ∷ (unprocessable, new_unprocessable)
    ∷ (not_acceptable, new_not_acceptable)
    ∷ (locked, new_locked)
    ∷ []

abbrev pub status_testers : List (Code × (Status → Bool))
status_testers =
    (unknown, is_unknown)
    ∷ (canceled, is_canceled)
    ∷ (invalid_argument, is_invalid_argument)
    ∷ (deadline_exceeded, is_deadline_exceeded)
    ∷ (not_found, is_not_found)
    ∷ (already_exists, is_already_exists)
    ∷ (permission_denied, is_permission_denied)
    ∷ (too_many_requests, is_too_many_requests)
    ∷ (failed_precondition, is_failed_precondition)
    ∷ (aborted, is_aborted)
    ∷ (unimplemented, is_unimplemented)
    ∷ (internal, is_internal)
    ∷ (unavailable, is_unavailable)
    ∷ (unauthenticated, is_unauthenticated)
    ∷ (unprocessable, is_unprocessable)
    ∷ (not_acceptable, is_not_acceptable)
    ∷ (locked, is_locked)
    ∷ []

abbrev MakesStatus : Code × (Bytes → Status) → Type 0
MakesStatus (c, make) = (text : Bytes) → make text ≡ new_status c text

abbrev TestsStatus : Code × (Status → Bool) → Type 0
TestsStatus (c, test) = (s : Status) → test s ≡ same_code s.code c

-- What the constructor makes passes the test exactly if both have the same code.
abbrev pub RecognizesStatus : Code × (Bytes → Status) → Code × (Status → Bool) → Type 0
RecognizesStatus (c, make) (d, test) = (text : Bytes) → test (make text) ≡ same_code c d

-- The text given to the constructor is what the status shows to the outside.
abbrev pub ShowsText : Code × (Bytes → Status) → Type 0
ShowsText (c, make) = (text : Bytes) → status_message (make text) ≡ text

constructors_make : All MakesStatus status_constructors
unfolding new_unknown new_canceled new_invalid_argument new_deadline_exceeded new_not_found
    new_already_exists new_permission_denied new_too_many_requests new_failed_precondition
    new_aborted new_unimplemented new_internal new_unavailable new_unauthenticated new_unprocessable
    new_not_acceptable new_locked
constructors_make = (
  λ t. refl,
  (
    λ t. refl,
    (
      λ t. refl,
      (
        λ t. refl,
        (
          λ t. refl,
          (
            λ t. refl,
            (
              λ t. refl,
              (
                λ t. refl,
                (
                  λ t. refl,
                  (
                    λ t. refl,
                    (
                      λ t. refl,
                      (
                        λ t. refl,
                        (λ t. refl, (λ t. refl, (λ t. refl, (λ t. refl, (λ t. refl, tt))))),
                      ),
                    ),
                  ),
                ),
              ),
            ),
          ),
        ),
      ),
    ),
  ),
)

testers_test : All TestsStatus status_testers
unfolding is_unknown is_canceled is_invalid_argument is_deadline_exceeded is_not_found
    is_already_exists is_permission_denied is_too_many_requests is_failed_precondition is_aborted
    is_unimplemented is_internal is_unavailable is_unauthenticated is_unprocessable
    is_not_acceptable is_locked
testers_test = (
  λ s. refl,
  (
    λ s. refl,
    (
      λ s. refl,
      (
        λ s. refl,
        (
          λ s. refl,
          (
            λ s. refl,
            (
              λ s. refl,
              (
                λ s. refl,
                (
                  λ s. refl,
                  (
                    λ s. refl,
                    (
                      λ s. refl,
                      (
                        λ s. refl,
                        (λ s. refl, (λ s. refl, (λ s. refl, (λ s. refl, (λ s. refl, tt))))),
                      ),
                    ),
                  ),
                ),
              ),
            ),
          ),
        ),
      ),
    ),
  ),
)

new_status-code : (c d : Code) (text : Bytes) → same_code (new_status c text).code d ≡ same_code c d
unfolding new_status
new_status-code c d text = refl

status_message-new_status : (c : Code) (text : Bytes) → status_message (new_status c text) ≡ text
unfolding status_message message or_unknown new_status error_text plain
status_message-new_status c text = refl

constructor_holds :
    (c : Code × (Bytes → Status))
    → MakesStatus c
    → All (RecognizesStatus c) status_testers × ShowsText c
constructor_holds (c, make) made = (
  All-map {P = TestsStatus} {Q = RecognizesStatus (c, make)}
      (λ (d, test) tests text. rw (tests (make text), made text) (new_status-code c d text))
      status_testers testers_test,
  λ text. rw (made text) (status_message-new_status c text),
)

-- A status passes exactly the test of the code that its constructor names, and shows the text that
-- the constructor was given.
pub status_constructors_recognized :
    All (λ c. All (RecognizesStatus c) status_testers × ShowsText c) status_constructors
status_constructors_recognized =
    All-map {P = MakesStatus} {Q = λ c. All (RecognizesStatus c) status_testers × ShowsText c}
      constructor_holds status_constructors constructors_make
