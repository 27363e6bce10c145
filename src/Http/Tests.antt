-- ===== src/Http/Tests.antt =====
-- The theorems on internal/resttooling at concrete requests.
use issue.Base.{
  ℕ, ◌+◌, ◌≡◌, refl, ◌≤◌, true, false, [], ◌∷◌, codes, none, some, Option, length, if◌then◌else◌,
  ltb, arith, member, ◌=ᵇ◌,
}
use issue.Errors.Chain.{
  Err, leaf, plain, context_deadline_exceeded, connection_reset, is, is_some, find, ask,
  if_sentinel, is_sentinel, same_sentinel, foreign_of, or_else,
}
use issue.Errors.Fault.{
  Fault, single, own, temporary, joined, is_in, is_permanent_error, is_timeout,
}
use issue.Http.Timeout.{limit_time}
use issue.Http.Network.{
  Request, is_idempotent, straightforward_network_retry, uri_slug_based_network_retry,
  is_connection_reset_by_peer,
}
use issue.Http.Network.Idempotency.{gives_up, straightforward_gives_up}
use issue.Http.Network.TimeLimit.{limit_time-gives_up}
use issue.Http.Response.{retryable_status, repeat_retriable_status_codes}
use issue.Http.Body.{Body, whole, Content}
use issue.Http.Nesting.{Settings, must_not_retry_terminal_errors}
use issue.Http.RoundTrip.{Transport, Traffic, retrying_round_trip}
use issue.Retry.{Strategy, allow}
use issue.Retry.Loop.{retry_ten, retry_ten-Runs}
use issue.Http.RoundTrip.Conduct.{
  IsTidy, SentWhole, round_trip-IsTidy, round_trip-SentWhole, round_trip-limit,
}
use issue.Http.RoundTrip.Once.{IsUncertain, round_trip-once}

-- A server that resets each connection before it reads, and one that is busy at first and reads the
-- body of each request.
abbrev reset_error : Fault
reset_error =
    single (
      leaf (record (plain (codes "connection reset by peer")) { sentinel = some connection_reset }))

abbrev resetting : Transport ℕ
resetting n body = ((n + 1, body), record { response = none; error = some reset_error })

abbrev busy : Transport ℕ
busy n body = (
  (n + 1, some (whole [])),
  record { response = some (record { status_code = if ltb n 2 then 503 else 200 }); error = none },
)

abbrev post : Request
post = record { method = codes "POST"; ctx_err = none; slug = codes "create" }

abbrev at_most_three : Strategy
at_most_three n err = ltb n 3

abbrev settings : Settings
settings = record {
  how = must_not_retry_terminal_errors ∷ at_most_three ∷ [];
  check_response = repeat_retriable_status_codes;
  check_network_error = straightforward_network_retry;
}

abbrev content : Content
content = record { body = some (whole (codes "{}")); get_body = none }

reset_error-fresh : is_permanent_error reset_error ≡ false
unfolding is_permanent_error
reset_error-fresh = refl

straightforward_gives_up_example : gives_up straightforward_network_retry reset_error post ≡ true
unfolding is_timeout is_idempotent member ◌=ᵇ◌ is_connection_reset_by_peer is_in is is_some find ask
    if_sentinel is_sentinel same_sentinel foreign_of or_else
straightforward_gives_up_example = straightforward_gives_up reset_error post reset_error-fresh

abbrev deadline : Err
deadline = leaf (record (plain (codes "context deadline exceeded")) {
  sentinel = some context_deadline_exceeded;
  timeout = some true;
})

abbrev late : Fault
late = joined (own temporary) (single deadline)

limit_time-gives_up_example :
    (gives_up straightforward_network_retry late post ≡ false)
    × (gives_up (uri_slug_based_network_retry [] true) late post ≡ false)
unfolding limit_time is is_some find ask if_sentinel is_sentinel same_sentinel foreign_of or_else
limit_time-gives_up_example = limit_time-gives_up deadline post (busy 0 none).1 [] true late refl

abbrev traffic : Traffic ℕ
traffic = (retrying_round_trip retry_ten settings (λ w. post) busy 0 content).0

-- Two busy answers are thrown away, the third is returned.
traffic_run : (traffic.opened ≡ 3) × (traffic.closed ≡ 2) × (length traffic.sent ≡ 3)
unfolding retrying_round_trip allow must_not_retry_terminal_errors straightforward_network_retry
    repeat_retriable_status_codes retryable_status
traffic_run = (refl, refl, refl)

round_trip-IsTidy_example : IsTidy traffic
round_trip-IsTidy_example =
    round_trip-IsTidy retry_ten retry_ten-Runs settings (λ w. post) busy 0 content

round_trip-SentWhole_example : SentWhole (codes "{}") traffic
round_trip-SentWhole_example =
    round_trip-SentWhole retry_ten retry_ten-Runs settings (λ w. post) busy 0 (codes "{}")

round_trip-limit_example : length traffic.sent ≤ 3
round_trip-limit_example =
    round_trip-limit retry_ten retry_ten-Runs settings (λ w. post) busy 0 content
      (must_not_retry_terminal_errors ∷ []) [] at_most_three 3 refl at_most_three_refuses
  where
    at_most_three_refuses : (n : ℕ) (err : Option Fault) → 3 ≤ n → at_most_three n err ≡ false
    at_most_three_refuses n err h = ground arith

resetting-IsUncertain : (body : Option Body) → IsUncertain (resetting 0 body).1
unfolding is_permanent_error is_timeout is_connection_reset_by_peer is_in is is_some find ask
    if_sentinel is_sentinel same_sentinel foreign_of or_else
resetting-IsUncertain body = (reset_error, refl, refl, refl, refl)

post-mutating : is_idempotent post.method ≡ false
unfolding is_idempotent member ◌=ᵇ◌
post-mutating = refl

round_trip-once_example :
    length (retrying_round_trip retry_ten settings (λ w. post) resetting 0 content).0.sent ≤ 1
round_trip-once_example =
    round_trip-once retry_ten retry_ten-Runs settings (λ w. post) resetting 0 (at_most_three ∷ [])
      content refl refl resetting-IsUncertain (λ w. post-mutating)
