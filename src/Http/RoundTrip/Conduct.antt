-- ===== src/Http/RoundTrip/Conduct.antt =====
-- What RoundTrip of internal/resttooling/restretries/client.go does over all its attempts.
use issue.Base.{
  ◌≡◌, refl, ℕ, ◌+◌, ◌≤◌, false, List, [], ◌∷◌, ◌++◌, length, length-append, All, All-append,
  Option, none, some, Result, ok, fail, panic, arith,
}
use issue.Errors.Chain.{is_some}
use issue.Errors.Fault.{Fault}
use issue.Http.Network.{Request}
use issue.Http.Body.{
  Body, whole, Content, read_all, noting, ensure_get_body, ensure_get_body_method,
}
use issue.Http.Nesting.{Settings}
use issue.Http.RoundTrip.{
  Transport, Traffic, start, one_if, discard, exchange, body_for, send, send_body, action,
  with_content, retrying_round_trip,
}
use issue.Retry.{Strategy, allow, RetryDo}
use issue.Retry.Attempts.{Runs, Runs-invariant, Runs-count}

-- One strategy that refuses is enough.
allow-refused :
    (before : List Strategy) (strategy : Strategy) (after : List Strategy) (n : ℕ)
    (err : Option Fault)
    → strategy n err ≡ false
    → allow (before ++ strategy ∷ after) n err ≡ false
unfolding allow
allow-refused [] strategy after n err h = ground (arith, h)
allow-refused (s ∷ before) strategy after n err h =
    ground (arith, allow-refused before strategy after n err h)

module _ {W : Type 0} where
  -- Every response got so far is closed, or is the one at hand.
  abbrev pub IsTidy : Traffic W → Type 0
  IsTidy t = t.opened ≡ t.closed + one_if (is_some t.resp)

  -- Every request so far was sent with the bytes.
  abbrev pub SentWhole : List ℕ → Traffic W → Type 0
  SentWhole buf t = All (λ body. body ≡ some (whole buf)) t.sent

abbrev pub buffered : List ℕ → Content
buffered buf = record { body = some (whole buf); get_body = some (λ n. ok (whole buf)) }

module _ {W : Type 0} (settings : Settings) (request : W → Request) (round_trip : Transport W) where
  send_body-IsTidy :
      (t : Traffic W) (body : Result Fault (Option Body))
      → IsTidy t
      → IsTidy (send_body settings request round_trip t body).0
  unfolding send_body send exchange discard
  send_body-IsTidy t (ok body) h = omega arith
  send_body-IsTidy t (fail err) h = h
  send_body-IsTidy t panic h = h

  pub action-IsTidy :
      (content : Content) (t : Traffic W)
      → IsTidy t
      → IsTidy (action settings request round_trip content t).0
  unfolding action
  action-IsTidy content t h =
      send_body-IsTidy (record t { tries = t.tries + 1 }) (body_for t.body content.get_body t.tries)
        h

  send_body-sent :
      (t : Traffic W) (body : Result Fault (Option Body))
      → length (send_body settings request round_trip t body).0.sent ≤ length t.sent + 1
  unfolding send_body send exchange discard
  send_body-sent t (ok body) = omega (arith, length-append t.sent (body ∷ []))
  send_body-sent t (fail err) = omega arith
  send_body-sent t panic = omega arith

  pub action-sent :
      (content : Content) (t : Traffic W)
      → length (action settings request round_trip content t).0.sent ≤ length t.sent + 1
  unfolding action
  action-sent content t =
      send_body-sent (record t { tries = t.tries + 1 }) (body_for t.body content.get_body t.tries)

  pub action-SentWhole :
      (buf : List ℕ) (t : Traffic W)
      → SentWhole buf t
      → SentWhole buf (action settings request round_trip (buffered buf) t).0
  unfolding action send_body send exchange discard body_for
  action-SentWhole buf t h =
      All-append (λ body. body ≡ some (whole buf)) t.sent (some (whole buf) ∷ []) h (refl, tt)

module _ {W : Type 0} (retry_do : RetryDo (Traffic W))
    (documented : (how : List Strategy) (act : Traffic W → Traffic W × Result Fault (Unit {0}))
        (t : Traffic W)
      → Runs how act 0 none t (retry_do how act t))
    (settings : Settings) (request : W → Request) (round_trip : Transport W) (world : W) where
  attempts :
      (content : Content)
      → Runs settings.how
          (action settings request round_trip content)
          0
          none
          (start world content.body)
          (retry_do settings.how
            (action settings request round_trip content)
            (start world content.body))
  attempts content =
      documented settings.how (action settings request round_trip content)
        (start world content.body)

  with_content-invariant {ℓ} :
      (P : Traffic W → Type ℓ) (content : Result Fault Content)
      → ((c : Content) (t : Traffic W)
          → content ≡ ok c
          → P t
          → P (action settings request round_trip c t).0)
      → ((body : Option Body) → P (start world body))
      → P (with_content retry_do settings request round_trip world content).0
  unfolding with_content
  with_content-invariant P (ok content) kept p =
      let act = action settings request round_trip content in
      Runs-invariant settings.how act P (λ t. kept content t refl) 0 none (start world content.body)
        (retry_do settings.how act (start world content.body)) (attempts content) (p content.body)
  with_content-invariant P (fail err) kept p = p none
  with_content-invariant P panic kept p = p none

  -- When RoundTrip is done, each response that any of its attempts got has been drained and closed,
  -- but for the one that the last request got, if that got one.
  pub round_trip-IsTidy :
      (content : Content)
      → IsTidy (retrying_round_trip retry_do settings request round_trip world content).0
  unfolding retrying_round_trip
  round_trip-IsTidy content =
      with_content-invariant IsTidy (ensure_get_body_method content)
        (λ c t e. action-IsTidy settings request round_trip c t) (λ body. refl)

  -- A body that can be read to its end and that no `GetBody` repeats is sent whole with every
  -- request of the call, however much of it the round tripper inside reads and leaves.
  pub round_trip-SentWhole :
      (buf : List ℕ)
      → SentWhole buf
          (retrying_round_trip retry_do settings request round_trip world
            (record { body = some (whole buf); get_body = none })).0
  unfolding retrying_round_trip ensure_get_body_method ensure_get_body read_all noting with_content
  round_trip-SentWhole buf =
      let act = action settings request round_trip (buffered buf) in
      Runs-invariant settings.how act (SentWhole buf)
        (action-SentWhole settings request round_trip buf) 0 none (start world (some (whole buf)))
        (retry_do settings.how act (start world (some (whole buf)))) (attempts (buffered buf)) tt

  with_content-limit :
      (limit : ℕ) (content : Result Fault Content)
      → ((n : ℕ) (err : Option Fault) → limit ≤ n → allow settings.how n err ≡ false)
      → length (with_content retry_do settings request round_trip world content).0.sent ≤ limit
  unfolding with_content
  with_content-limit limit (ok content) limited =
      let act = action settings request round_trip content in
      Runs-count settings.how act (λ t. length t.sent)
        (action-sent settings request round_trip content) limit limited 0 none
        (start world content.body) (retry_do settings.how act (start world content.body))
        (attempts content) (omega arith) (omega arith)
  with_content-limit limit (fail err) limited = omega arith
  with_content-limit limit panic limited = omega arith

  -- Where a strategy allows no attempt with a number from the limit on, RoundTrip sends the limit of
  -- requests at most.
  pub round_trip-limit :
      (content : Content) (before after : List Strategy) (strategy : Strategy) (limit : ℕ)
      → settings.how ≡ before ++ strategy ∷ after
      → ((n : ℕ) (err : Option Fault) → limit ≤ n → strategy n err ≡ false)
      → length (retrying_round_trip retry_do settings request round_trip world content).0.sent
        ≤ limit
  unfolding retrying_round_trip
  round_trip-limit content before after strategy limit among refuses =
      with_content-limit limit (ensure_get_body_method content)
        λ n err h. rw among (allow-refused before strategy after n err (refuses n err h))
