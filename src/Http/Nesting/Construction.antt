-- ===== src/Http/Nesting/Construction.antt =====
-- What NewRetryableRoundTripper of internal/resttooling/restretries/client.go puts together.
use issue.Base.{
  ◌≡◌, refl, ◌∙◌, ap, inl, inr, ℕ, suc, false, List, [], ◌∷◌, Option, none, some, ok, Bool-cases,
}
use issue.Retry.{Strategy}
use issue.Http.Network.{RetryByNetwork}
use issue.Http.Response.{RetryByResponse}
use issue.Http.Nesting.{
  Settings, RoundTripper, absent, retryable, unwrapping, other, is_retryable,
  must_not_retry_terminal_errors, with_checks, new_retryable_round_tripper,
}

-- The round trippers in the chain that retry.
abbrev pub count_retryable : RoundTripper → ℕ
count_retryable absent = 0
count_retryable (retryable settings rt) = suc (count_retryable rt)
count_retryable (unwrapping rt) = count_retryable rt
count_retryable (other name) = 0

not_retryable_counts : (rt : RoundTripper) → is_retryable rt ≡ false → count_retryable rt ≡ 0
unfolding is_retryable
not_retryable_counts absent h = refl
not_retryable_counts (retryable settings rt) h = absurd (cc h)
not_retryable_counts (unwrapping rt) h = not_retryable_counts rt h
not_retryable_counts (other name) h = refl

-- What was given stands in the round tripper, behind the strategy that stops at permanent errors.
abbrev pub IsBuilt :
    RoundTripper
    → Option RetryByNetwork
    → List Strategy
    → Option RetryByResponse
    → RoundTripper
    → Type 0
IsBuilt rt network how response built =
    (settings : Settings) × (built ≡ retryable settings rt)
    × (settings.how ≡ must_not_retry_terminal_errors ∷ how)
    × (network ≡ some settings.check_network_error)
    × (response ≡ some settings.check_response)

module _ (rt : RoundTripper) {built : RoundTripper} where
  with_checks-IsBuilt :
      (network : Option RetryByNetwork) (how : List Strategy) (response : Option RetryByResponse)
      → with_checks rt network how response ≡ ok built
      → IsBuilt rt network how response built
  unfolding with_checks
  with_checks-IsBuilt none how response h = absurd (cc h)
  with_checks-IsBuilt (some network) how none h = absurd (cc h)
  with_checks-IsBuilt (some network) [] (some response) h = absurd (cc h)
  with_checks-IsBuilt (some network) (strategy ∷ how) (some response) h =
      let settings : Settings = record {
        how = must_not_retry_terminal_errors ∷ strategy ∷ how;
        check_response = response;
        check_network_error = network;
      } in
      let made : built ≡ retryable settings rt = cc h in (settings, made, refl, refl, refl)

  module _ (network : Option RetryByNetwork) (how : List Strategy)
      (response : Option RetryByResponse)
      (h : new_retryable_round_tripper rt network how response ≡ ok built) where
    built-checked : (is_retryable rt ≡ false) × (with_checks rt network how response ≡ ok built)
    unfolding new_retryable_round_tripper
    built-checked = elim (Bool-cases (is_retryable rt)) [
      | inl nested ↦ absurd (cc (rw nested at h))
      | inr flat ↦ (flat, rw flat at h)
    ]

    -- A round tripper that the constructor returns, which it does only from a chain with none that
    -- retries, holds what was given, with the strategy that stops at permanent errors before the
    -- others, and is the only one of its chain that retries.
    pub new_retryable_round_tripper-IsBuilt :
        IsBuilt rt network how response built × (count_retryable built ≡ 1)
    new_retryable_round_tripper-IsBuilt =
        let b = with_checks-IsBuilt network how response (built-checked.1) in
        (b, ap count_retryable (b.1) ∙ ap suc (not_retryable_counts rt (built-checked.0)))
