-- ===== src/Errors/Status/Reasons.antt =====
-- `EnrichWithUserFacingMessage` of internal/status/user_facing_messages.go, with the constants of
-- internal/status/details/reason.
use issue.Base.{◌≡◌, refl, ◌≢◌, [], ◌∷◌, Bytes, codes, Option, none, some}
use issue.Base.Table.{Table, lookup}
use issue.Errors.Chain.{ErrorInfo}
use issue.Errors.Status.{Status, with_user_facing_message}

-- The cases of the switch.
unfoldable pub reason_messages : Table Bytes
reason_messages =
    (
      codes "ROLE_PROTECTED",
      codes
          "The role you're attempting to use is protected and cannot be used for password-based authentication. Please pick a different role and try again.",
    )
    ∷ (
      codes "RESOURCE_NOT_FOUND",
      codes
          "The requested resource could not be found, or you don't have access to it. Please check the provided ID and try again.",
    )
    ∷ (
      codes "PROJECT_NOT_FOUND",
      codes
          "The requested project could not be found, or you don't have access to it. Please check the provided ID and try again.",
    )
    ∷ (
      codes "ENDPOINT_NOT_FOUND",
      codes
          "The requested endpoint could not be found, or you don't have access to it. Please check the provided ID and try again.",
    )
    ∷ (
      codes "BRANCH_NOT_FOUND",
      codes
          "The requested branch could not be found, or you don't have access to it. Please check the provided ID and try again.",
    )
    ∷ (
      codes "RATE_LIMIT_EXCEEDED",
      codes "You've exceeded the rate limit. Please wait a moment and try again.",
    )
    ∷ (
      codes "NON_PRIMARY_BRANCH_COMPUTE_TIME_EXCEEDED",
      codes
          "You've exceeded the compute time for this branch. Upgrade your plan to increase limits or connect to another branch.",
    )
    ∷ (
      codes "ACTIVE_TIME_QUOTA_EXCEEDED",
      codes
          "Your project has exceeded the active time quota. Upgrade your plan to increase limits.",
    )
    ∷ (
      codes "COMPUTE_TIME_QUOTA_EXCEEDED",
      codes
          "Your account or project has exceeded the compute time quota. Upgrade your plan to increase limits.",
    )
    ∷ (
      codes "WRITTEN_DATA_QUOTA_EXCEEDED",
      codes
          "Your project has exceeded the written data quota. Upgrade your plan to increase limits.",
    )
    ∷ (
      codes "DATA_TRANSFER_QUOTA_EXCEEDED",
      codes
          "Your project has exceeded the data transfer quota. Upgrade your plan to increase limits.",
    )
    ∷ (
      codes "LOGICAL_SIZE_QUOTA_EXCEEDED",
      codes
          "Your project has exceeded the logical size quota. Upgrade your plan to increase limits.",
    )
    ∷ (
      codes "RUNNING_OPERATIONS",
      codes
          "Your project already has running operations. Please wait until they complete, and then try again.",
    )
    ∷ (
      codes "ACTIVE_ENDPOINTS_LIMIT_EXCEEDED",
      codes
          "You have exceeded the limit of concurrently active endpoints. Please suspend some endpoints and try again.",
    )
    ∷ []

unfoldable pub say : Status → Option Bytes → Status
unfolding with_user_facing_message
say s none = s
say s (some text) = with_user_facing_message s text

unfoldable pub enrich_by : Status → Option Bytes → Option ErrorInfo → Status
unfolding say
enrich_by s (some ufm) info = s
enrich_by s none none = s
enrich_by s none (some info) = say s (lookup info.reason reason_messages)

-- `EnrichWithUserFacingMessage`
unfoldable pub enrich_with_user_facing_message : Status → Status
unfolding enrich_by
enrich_with_user_facing_message s = enrich_by s s.details.user_facing_message s.details.error_info

-- `after` is `before` enriched once and for all.
record Enriched (before after : Status) : Type 0 where
  once : enrich_with_user_facing_message after ≡ after
  code : after.code ≡ before.code
  err : after.err ≡ before.err
  error_info : after.details.error_info ≡ before.details.error_info
  retry_info : after.details.retry_info ≡ before.details.retry_info

say-Enriched :
    (s : Status) (i : ErrorInfo) (r : Option Bytes)
    → s.details.user_facing_message ≡ none
    → s.details.error_info ≡ some i
    → lookup i.reason reason_messages ≡ r
    → Enriched s (say s r)
unfolding say with_user_facing_message enrich_with_user_facing_message enrich_by
say-Enriched s i none e f k = record {
  once = rw (e, f, k) refl;
  code = refl;
  err = refl;
  error_info = refl;
  retry_info = refl;
}
say-Enriched s i (some t) e f k = record {
  once = refl;
  code = refl;
  err = refl;
  error_info = refl;
  retry_info = refl;
}

unchanged : (s : Status) → enrich_with_user_facing_message s ≡ s → Enriched s s
unchanged s h = record { once = h; code = refl; err = refl; error_info = refl; retry_info = refl }

enrich_by-Enriched :
    (s : Status) (ufm : Option Bytes) (info : Option ErrorInfo)
    → s.details.user_facing_message ≡ ufm
    → s.details.error_info ≡ info
    → Enriched s (enrich_by s ufm info) × (ufm ≢ none → enrich_by s ufm info ≡ s)
unfolding enrich_by enrich_with_user_facing_message
enrich_by-Enriched s (some u) info e f = (unchanged s (rw e refl), λ n. refl)
enrich_by-Enriched s none none e f = (unchanged s (rw (e, f) refl), λ n. absurd (n refl))
enrich_by-Enriched s none (some i) e f =
    (say-Enriched s i (lookup i.reason reason_messages) e f refl, λ n. absurd (n refl))

-- Enriching twice is enriching once. It changes nothing but the user-facing message, and not even
-- that where there is one.
pub enrich_idempotent :
    (s : Status)
    → (enrich_with_user_facing_message (enrich_with_user_facing_message s)
        ≡ enrich_with_user_facing_message s)
      × ((enrich_with_user_facing_message s).code ≡ s.code)
      × ((enrich_with_user_facing_message s).err ≡ s.err)
      × ((enrich_with_user_facing_message s).details.error_info ≡ s.details.error_info)
      × ((enrich_with_user_facing_message s).details.retry_info ≡ s.details.retry_info)
      × (s.details.user_facing_message ≢ none → enrich_with_user_facing_message s ≡ s)
unfolding enrich_with_user_facing_message
enrich_idempotent s =
    let (enriched, kept) =
      enrich_by-Enriched s s.details.user_facing_message s.details.error_info refl refl in
    (enriched.once, enriched.code, enriched.err, enriched.error_info, enriched.retry_info, kept)
