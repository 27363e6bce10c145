-- ===== src/Http/RoundTrip.antt =====
-- retryableRoundTripper.RoundTrip of internal/resttooling/restretries/client.go. The library
-- kamilsk/retry and the round tripper inside are parameters.
pub mod Conduct
pub mod Once
use issue.Base.{
  ◌≡◌, refl, ℕ, ◌+◌, Bool, true, false, ◌&&◌, List, [], ◌∷◌, ◌++◌, Option, none, some, Result, ok,
  fail, panic, if◌then◌else◌,
}
use issue.Errors.Chain.{is_some}
use issue.Errors.Fault.{Fault, new_permanent_error}
use issue.Http.Timeout.{Reply}
use issue.Http.Network.{Request, RetryByNetwork}
use issue.Http.Response.{Response, RetryByResponse}
use issue.Http.Body.{Body, Content, ensure_get_body_method}
use issue.Retry.{RetryDo}
use issue.Http.Nesting.{Settings}

-- The round tripper inside: the world after it, what it leaves of the body of the request, and its
-- reply. The first argument is the state of the world that it sees.
abbrev pub Transport : Type 0 → Type 0
Transport W = W → Option Body → (W × Option Body) × Reply Response

-- The variables of a call of RoundTrip: the world, `resp`, the calls of `GetBody` so far and the body
-- that the request has now, which each attempt sets and the round tripper inside reads. Beside them
-- stand the bodies of the requests sent, and the numbers of the responses got and of those drained
-- and closed.
pub record Traffic (W : Type 0) : Type 0 where
  pub world : W
  pub resp : Option Response
  pub tries : ℕ
  pub body : Option Body
  pub sent : List (Option Body)
  pub opened : ℕ
  pub closed : ℕ

unfoldable pub one_if : Bool → ℕ
one_if true = 1
one_if false = 0

module _ {W : Type 0} where
  abbrev pub start : W → Option Body → Traffic W
  start world body = record {
    world = world;
    resp = none;
    tries = 0;
    body = body;
    sent = [];
    opened = 0;
    closed = 0;
  }

  -- The response of the attempt before is drained and closed.
  unfoldable pub discard : Traffic W → Traffic W
  unfolding one_if is_some
  discard t = record t { closed = t.closed + one_if (is_some t.resp) }

  -- The round tripper inside gets the request.
  unfoldable pub exchange : Transport W → Option Body → Traffic W → Traffic W × Reply Response
  unfolding one_if is_some
  exchange round_trip body t =
      let ((world, left), reply) = round_trip t.world body in
      (
        record t {
          world = world;
          resp = reply.response;
          body = left;
          sent = t.sent ++ body ∷ [];
          opened = t.opened + one_if (is_some reply.response);
        },
        reply,
      )

-- What the two strategies make of a reply.
unfoldable pub judge_response : Settings → Option Response → Option Fault → Result Fault (Unit {0})
judge_response settings response (some err) = fail err
judge_response settings response none = settings.check_response response

unfoldable pub judge : Settings → Reply Response → Request → Result Fault (Unit {0})
unfolding judge_response
judge settings reply req =
    judge_response settings reply.response (settings.check_network_error reply.error req)

-- The body for an attempt: a new reader from `GetBody`, if the request has that, and what the attempt
-- before left of its own otherwise.
unfoldable pub new_body : Result Fault Body → Result Fault (Option Body)
unfolding new_permanent_error
new_body (ok body) = ok (some body)
new_body (fail err) = fail (new_permanent_error err)
new_body panic = panic

unfoldable pub body_for :
    Option Body → Option (ℕ → Result Fault Body) → ℕ → Result Fault (Option Body)
unfolding new_body
body_for body none n = ok body
body_for body (some get) n = new_body (get n)

module _ {W : Type 0} (settings : Settings) (request : W → Request) (round_trip : Transport W) where
  unfoldable pub send : Traffic W → Option Body → Traffic W × Result Fault (Unit {0})
  unfolding discard exchange judge
  send t body =
      let (after, reply) = exchange round_trip body (discard t) in
      (after, judge settings reply (request after.world))

  unfoldable pub send_body :
      Traffic W → Result Fault (Option Body) → Traffic W × Result Fault (Unit {0})
  unfolding send
  send_body t (ok body) = send t body
  send_body t (fail err) = (record t { body = none }, fail err)
  send_body t panic = (t, panic)

  -- `action`
  unfoldable pub action : Content → Traffic W → Traffic W × Result Fault (Unit {0})
  unfolding body_for send_body
  action content t =
      send_body (record t { tries = t.tries + 1 }) (body_for t.body content.get_body t.tries)

-- What RoundTrip returns once `retry.Do` has.
unfoldable pub returned : Option Response → Result Fault (Unit {0}) → Option (Reply Response)
returned resp (ok t) = some (record { response = resp; error = none })
returned resp (fail err) = some (record { response = resp; error = some err })
returned resp panic = none

module _ {W : Type 0} (retry_do : RetryDo (Traffic W)) (settings : Settings) (request : W → Request)
    (round_trip : Transport W) where
  unfoldable pub with_content : W → Result Fault Content → Traffic W × Option (Reply Response)
  unfolding action returned
  with_content world (ok content) =
      let (t, outcome) =
        retry_do settings.how (action settings request round_trip content)
          (start world content.body) in
      (t, returned t.resp outcome)
  with_content world (fail err) =
      (start world none, some (record { response = none; error = some (new_permanent_error err) }))
  with_content world panic = (start world none, none)

  -- RoundTrip: what it did, and what it returns, none if it panics.
  unfoldable pub retrying_round_trip : W → Content → Traffic W × Option (Reply Response)
  unfolding with_content ensure_get_body_method
  retrying_round_trip world original = with_content world (ensure_get_body_method original)
