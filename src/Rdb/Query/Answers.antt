-- ===== src/Rdb/Query/Answers.antt =====
-- What a statement with retries of internal/rdb/retries.go answers.
use issue.Base.{
  ◌≢◌, ◌≡◌, refl, ◌∙◌, sym, ap, ℕ, ◌+◌, true, false, List, Option, none, some, Result, ok, fail,
  panic,
}
use issue.Errors.Fault.{Fault}
use issue.Retry.{Strategy, allow, RetryDo}
use issue.Retry.Attempts.{Runs, refused, interrupted, succeeded, crashed, again}
use issue.Rdb.Query.{Answer, Attempted, to_result, store, answer_of, query_context}

false_ne_true : false ≢ true
false_ne_true h = cc h

to_result-ok : (err : Option Fault) → to_result err ≡ ok tt → err ≡ none
unfolding to_result
to_result-ok none h = refl
to_result-ok (some err) h = absurd (cc h)

-- The method, in some world, answered so without an error.
module _ {W R : Type 0} where
  abbrev pub Answered : (W → W × Answer R) → W → Option R → Type 0
  Answered method world' value =
      (world : W) × (method world ≡ (world', record { value = value; error = none }))

  answer_of-value :
      (a : Attempted W R) (result : Result Fault (Unit {0})) (value : Option R)
      → answer_of a result ≡ some (record { value = value; error = none })
      → (result ≡ ok tt) × (a.value ≡ value)
  unfolding answer_of
  answer_of-value a (ok t) value h = (refl, cc h)
  answer_of-value a (fail err) value h = absurd (cc h)
  answer_of-value a panic value h = absurd (cc h)

  module _ (how : List Strategy) (method : W → W × Answer R) where
    store-ok :
        (a a' : Attempted W R) → store method a ≡ (a', ok tt) → Answered method a'.world a'.value
    unfolding store
    store-ok a a' h =
        let error : (method a.world).1.error ≡ none = to_result-ok _ (ap (λ end. end.1) h) in
        let world : (method a.world).0 ≡ a'.world = ap (λ end. end.0.world) h in
        let value : (method a.world).1.value ≡ a'.value = ap (λ end. end.0.value) h in (a.world, cc)

    Runs-Answered :
        (n : ℕ) (err : Option Fault) (a : Attempted W R)
        (end : Attempted W R × Result Fault (Unit {0}))
        → Runs how (store method) n err a end
        → (err ≡ none → allow how n none ≡ true)
        → end.1 ≡ ok tt
        → Answered method end.0.world end.0.value
    Runs-Answered n none a end (refused _ _ _ h) first e =
        absurd (false_ne_true (sym h ∙ first refl))
    Runs-Answered n (some err) a end (refused _ _ _ h) first e = absurd (cc e)
    Runs-Answered n err a end (interrupted _ _ _ cause) first e = absurd (cc e)
    Runs-Answered n err a end (succeeded _ _ _ a' h s) first e = store-ok a a' s
    Runs-Answered n err a end (crashed _ _ _ a' h s) first e = absurd (cc e)
    Runs-Answered n err a end (again _ _ _ a' cause _ h s rest) first e =
        Runs-Answered (n + 1) (some cause) a' end rest (λ e. absurd (cc e)) e

  -- What QueryContext returns without an error is what the method answered last, and in the world it
  -- left: where the strategies allow a first attempt. So it never returns the rows of an attempt that
  -- failed.
  pub query_context-Answered :
      (retry_do : RetryDo (Attempted W R)) (how : List Strategy) (method : W → W × Answer R)
      (world end : W) (value : Option R)
      → ((how : List Strategy) (act : Attempted W R → Attempted W R × Result Fault (Unit {0}))
            (a : Attempted W R)
          → Runs how act 0 none a (retry_do how act a))
      → allow how 0 none ≡ true
      → query_context retry_do how method world
        ≡ (end, some (record { value = value; error = none }))
      → Answered method end value
  unfolding query_context
  query_context-Answered retry_do how method world end value documented allowed h =
      let start : Attempted W R = record { world = world; value = none } in
      let run = retry_do how (store method) start in
      let ended = answer_of-value run.0 run.1 value (ap (λ answer. answer.1) h) in
      let same_world : run.0.world ≡ end = ap (λ answer. answer.0) h in
      let found =
        Runs-Answered how method 0 none start run (documented how (store method) start)
          (λ e. allowed) (ended.0) in
      let same_value : run.0.value ≡ value = ended.1 in
      let answered : method (found.0)
          ≡ (run.0.world, record { value = run.0.value; error = none }) =
        found.1 in
      (found.0, cc)
