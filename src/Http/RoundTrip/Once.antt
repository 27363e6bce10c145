-- ===== src/Http/RoundTrip/Once.antt =====
-- When RoundTrip of internal/resttooling/restretries/client.go does not send a request again.
use issue.Base.{
  ◌⊎◌, inl, inr, ◌≡◌, refl, ◌∙◌, ℕ, ◌≤◌, true, false, List, ◌∷◌, length, Option, none, some, Result,
  ok, fail, panic, arith,
}
use issue.Errors.Fault.{Fault, is_permanent_error, new_permanent_error, is_timeout}
use issue.Http.Timeout.{Reply}
use issue.Http.Network.{Request, is_idempotent, straightforward_network_retry}
use issue.Http.Network.Idempotency.{
  gives_up, is_blamed, new_permanent_error-permanent, straightforward_gives_up,
}
use issue.Http.Response.{Response}
use issue.Http.Body.{Body, Content, ensure_get_body_method}
use issue.Http.Nesting.{Settings, must_not_retry_terminal_errors}
use issue.Http.RoundTrip.{
  Transport, Traffic, start, discard, exchange, judge_response, judge, new_body, body_for, send,
  send_body, action, with_content, retrying_round_trip,
}
use issue.Retry.{Strategy, allow, RetryDo}
use issue.Retry.Attempts.{Runs, refused, interrupted, succeeded, crashed, again, Runs-refused}
use issue.Http.RoundTrip.Conduct.{action-sent}

-- The outcome of an attempt that no other follows.
abbrev Stops : Result Fault (Unit {0}) → Type 0
Stops (ok t) = ⊥
Stops (fail err) = is_permanent_error err ≡ true
Stops panic = Unit

module _ {W : Type 0} (settings : Settings) (request : W → Request) (round_trip : Transport W) where
  module _ (t : Traffic W)
      (stops : (body : Option Body) → Stops (send settings request round_trip t body).1) where
    send_body-Stops :
        (body : Result Fault Body)
        → Stops (send_body settings request round_trip t (new_body body)).1
    unfolding send_body new_body new_permanent_error
    send_body-Stops (ok body) = stops (some body)
    send_body-Stops (fail err) = new_permanent_error-permanent err
    send_body-Stops panic = tt

    body_for-Stops :
        (body : Option Body) (get_body : Option (ℕ → Result Fault Body)) (n : ℕ)
        → Stops (send_body settings request round_trip t (body_for body get_body n)).1
    unfolding body_for send_body
    body_for-Stops body none n = stops body
    body_for-Stops body (some get) n = send_body-Stops (get n)

module _ {S : Type 0} (how : List Strategy) (act : S → S × Result Fault (Unit {0}))
    (checked : (n : ℕ) (err : Fault)
      → is_permanent_error err ≡ true
      → allow how n (some err) ≡ false) where
  -- Where the first attempt stops, the end is before it or behind it.
  Runs-Stops :
      (s : S) (end : S × Result Fault (Unit {0}))
      → Stops (act s).1
      → Runs how act 0 none s end
      → (end.0 ≡ s) ⊎ (end.0 ≡ (act s).0)
  Runs-Stops s end stops (refused _ _ _ h) = inl refl
  Runs-Stops s end stops (interrupted _ _ _ cause) = inl refl
  Runs-Stops s end stops (succeeded _ _ _ s' h a) = absurd (rw a at stops)
  Runs-Stops s end stops (crashed _ _ _ s' h a) = inr (rw a refl)
  Runs-Stops s end stops (again _ _ _ s' cause _ h a rest) = inr (
      Runs-refused how act 1 (some cause) s' end (checked 1 cause (rw a at stops)) rest ∙ rw a refl)

module _ {W : Type 0} (retry_do : RetryDo (Traffic W))
    (documented : (how : List Strategy) (act : Traffic W → Traffic W × Result Fault (Unit {0}))
        (t : Traffic W)
      → Runs how act 0 none t (retry_do how act t))
    (settings : Settings) (request : W → Request) (round_trip : Transport W) (world : W)
    (how : List Strategy) (built : settings.how ≡ must_not_retry_terminal_errors ∷ how) where
  checked :
      (n : ℕ) (err : Fault)
      → is_permanent_error err ≡ true
      → allow settings.how n (some err) ≡ false
  unfolding allow must_not_retry_terminal_errors
  checked n err h = rw built (ground (arith, h))

  module _
      (stops : (before body : Option Body)
        → Stops
            (send settings request round_trip
              (record (start world before) { tries = 1 })
              body).1) where
    with_content-once :
        (content : Result Fault Content)
        → length (with_content retry_do settings request round_trip world content).0.sent ≤ 1
    unfolding with_content action
    with_content-once (ok content) =
        let act = action settings request round_trip content in
        let first = action-sent settings request round_trip content (start world content.body) in
        elim (Runs-Stops settings.how act checked (start world content.body)
          (retry_do settings.how act (start world content.body))
          (body_for-Stops settings request round_trip
            (record (start world content.body) { tries = 1 }) (stops content.body) content.body
            content.get_body 0)
          (documented settings.how act (start world content.body))) [
            | inl unsent ↦ rw unsent (omega arith)
            | inr sent ↦ rw sent first
          ]
    with_content-once (fail err) = omega arith
    with_content-once panic = omega arith

-- The strategy gave up on the error of the reply.
judge_response-Stops :
    (settings : Settings) (response : Option Response) (outcome : Option Fault)
    → (elim outcome [ none ↦ false | some err ↦ is_permanent_error err ]) ≡ true
    → Stops (judge_response settings response outcome)
unfolding judge_response
judge_response-Stops settings response none h = cc h
judge_response-Stops settings response (some err) h = h

-- The reply is an error after which the request may have been carried out, and no time limit of one
-- call nor an error that must not be retried anyway.
abbrev pub IsUncertain : Reply Response → Type 0
IsUncertain reply =
    (err : Fault) × (reply.error ≡ some err)
    × (is_permanent_error err ≡ false)
    × (is_timeout err ≡ false)
    × (is_blamed err ≡ true)

uncertain_gives_up :
    (err : Fault) (req : Request)
    → is_permanent_error err ≡ false
    → is_timeout err ≡ false
    → is_blamed err ≡ true
    → is_idempotent req.method ≡ false
    → gives_up straightforward_network_retry err req ≡ true
uncertain_gives_up err req fresh untimed blamed mutating =
    straightforward_gives_up err req fresh ∙ ground (arith, untimed, blamed, mutating)

judge-Stops :
    (settings : Settings) (reply : Reply Response) (req : Request)
    → settings.check_network_error ≡ straightforward_network_retry
    → IsUncertain reply
    → is_idempotent req.method ≡ false
    → Stops (judge settings reply req)
unfolding judge
judge-Stops settings reply req straightforward (err, is_error, fresh, untimed, blamed) mutating =
    judge_response-Stops settings reply.response (settings.check_network_error reply.error req)
      (rw (straightforward, is_error) (uncertain_gives_up err req fresh untimed blamed mutating))

module _ {W : Type 0} (retry_do : RetryDo (Traffic W))
    (documented : (how : List Strategy) (act : Traffic W → Traffic W × Result Fault (Unit {0}))
        (t : Traffic W)
      → Runs how act 0 none t (retry_do how act t))
    (settings : Settings) (request : W → Request) (round_trip : Transport W) (world : W)
    (how : List Strategy) where
  -- With the straightforward strategy, a request whose method is not idempotent is sent once at most
  -- if the answer to it is an error after which it may have been carried out, other than the time
  -- limit of one call.
  pub round_trip-once :
      (content : Content)
      → settings.how ≡ must_not_retry_terminal_errors ∷ how
      → settings.check_network_error ≡ straightforward_network_retry
      → ((body : Option Body) → IsUncertain (round_trip world body).1)
      → ((w : W) → is_idempotent (request w).method ≡ false)
      → length (retrying_round_trip retry_do settings request round_trip world content).0.sent ≤ 1
  unfolding retrying_round_trip send discard exchange
  round_trip-once content built straightforward uncertain mutating =
      with_content-once retry_do documented settings request round_trip world how built stops
        (ensure_get_body_method content)
    where
      stops :
          (before body : Option Body)
          → Stops
              (send settings request round_trip (record (start world before) { tries = 1 }) body).1
      stops before body =
          let after =
            exchange round_trip body (discard (record (start world before) { tries = 1 })) in
          judge-Stops settings after.1 (request after.0.world) straightforward (uncertain body)
            (mutating after.0.world)
