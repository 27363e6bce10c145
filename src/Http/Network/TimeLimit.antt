-- ===== src/Http/Network/TimeLimit.antt =====
-- What the strategies of internal/resttooling/restretries/network.go make of the time limit of one
-- call, internal/resttooling/resttimeouts.
use issue.Base.{◌≡◌, refl, ◌∙◌, subst, Bool, true, false, ◌||◌, List, Bytes, some, arith}
use issue.Errors.Chain.{Err, context_canceled, is, is_some}
use issue.Errors.Fault.{
  Fault, own, temporary, joined, single, is_in, is_permanent_error, is_timeout,
}
use issue.Http.Timeout.{Reply, limit_time}
use issue.Http.Network.{
  Request, stopped, straightforward_network_retry, uri_slug_based_network_retry,
}
use issue.Http.Network.Idempotency.{gives_up, straightforward_gives_up, uri_slug_based_gives_up}

-- The caller gave up: its own context says so, or the one of the call ended for that.
abbrev pub caller_gave_up : Err → Request → Bool
caller_gave_up ended req = is_some (stopped req.ctx_err) || is context_canceled ended

module _ (ended : Err) (req : Request) where
  abbrev out_of_time : Fault
  out_of_time = joined (own temporary) (single ended)

  out_of_time_marks :
      (is_permanent_error out_of_time ≡ false)
      × (is_timeout out_of_time ≡ true)
      × (is_in context_canceled out_of_time ≡ is context_canceled ended)
  unfolding is_permanent_error is_timeout is_in
  out_of_time_marks = (refl, refl, refl)

  -- After the time limit of one call, a request is sent again whatever its method and its slug
  -- unless the caller gave up: so decide the straightforward strategy and the one by slugs.
  pub limit_time-gives_up :
      {Response : Type 0} (reply : Reply Response) (slugs : List Bytes) (adhere : Bool)
      (err : Fault)
      → (limit_time (some ended) reply).error ≡ some err
      → (gives_up straightforward_network_retry err req ≡ caller_gave_up ended req)
        × (gives_up (uri_slug_based_network_retry slugs adhere) err req ≡ caller_gave_up ended req)
  unfolding limit_time
  limit_time-gives_up reply slugs adhere err h =
      let marks = out_of_time_marks in
      let same : out_of_time ≡ err = cc h in
      subst
        (λ e.
          (gives_up straightforward_network_retry e req ≡ caller_gave_up ended req)
          × (gives_up (uri_slug_based_network_retry slugs adhere) e req ≡ caller_gave_up ended req))
        same
        (
          straightforward_gives_up out_of_time req (marks.0) ∙ ground (arith, marks.1, marks.2),
          uri_slug_based_gives_up out_of_time req (marks.0) slugs adhere
              ∙ ground (arith, marks.1, marks.2),
        )
