-- ===== src/Rdb/Transaction/Callbacks.antt =====
-- When the callbacks of RegisterAfterCommitCallback of internal/rdb/rdb.go are called.
use issue.Base.{
  ◌≡◌, refl, ◌∙◌, sym, ap, ℕ, ◌+◌, false, List, [], ◌++◌, append-nil, Option, none, some, Result,
  ok, fail, panic, if◌then◌else◌, of_branches,
}
use issue.Errors.Fault.{Fault}
use issue.Retry.{Strategy, RetryDo}
use issue.Retry.Attempts.{Runs, refused, interrupted, succeeded, crashed, again}
use issue.Rdb.Retryable.{is_context_error}
use issue.Rdb.Transaction.{
  Driver, Session, TxOptions, call_callbacks, rollback, committed, commit, finish_tx, after_begin,
  attempt, Db, with_tx,
}

-- The callbacks that are called: those registered, if all ended well.
abbrev pub due : List ℕ → Result Fault (Unit {0}) → List ℕ
due callbacks (ok t) = callbacks
due callbacks (fail err) = []
due callbacks panic = []

module _ {W : Type 0} where
  -- Behind the callbacks that had been called stand those that are due.
  abbrev pub CallsDue : List ℕ → Session W × Result Fault (Unit {0}) → Type 0
  CallsDue called end = end.0.called ≡ called ++ due end.0.callbacks end.1

module _ {W : Type 0} (driver : Driver W) where
  nothing_due : (s : Session W) → s.called ≡ s.called ++ []
  nothing_due s = sym (append-nil s.called)

  committed-CallsDue : (e : Option Fault) (s : Session W) → CallsDue s.called (committed driver e s)
  unfolding committed call_callbacks
  committed-CallsDue none s = refl
  committed-CallsDue (some e) s = nothing_due s

  finish_tx-CallsDue :
      (s : Session W) (result : Result Fault (Unit {0}))
      → CallsDue s.called (finish_tx driver s result)
  unfolding finish_tx commit rollback
  finish_tx-CallsDue s (ok t) =
      committed-CallsDue (driver.commit s.world).1
        (record s { world = (driver.commit s.world).0; ended = s.ended + 1 })
  finish_tx-CallsDue s panic = nothing_due s
  finish_tx-CallsDue s (fail err) =
      of_branches {this = (s, fail err)} {other = rollback driver err s}
        (λ end. CallsDue s.called end) (is_context_error err) (nothing_due s) (nothing_due s)

  module _ (o : TxOptions W) (quiet : (s : Session W) → (o.f s).0.called ≡ s.called) where
    after_begin-CallsDue :
        (err : Option Fault) (s : Session W) → CallsDue s.called (after_begin driver o err s)
    unfolding after_begin
    after_begin-CallsDue (some err) s = nothing_due s
    after_begin-CallsDue none s =
        let inside = o.f (record s { begun = s.begun + 1 }) in
        finish_tx-CallsDue inside.0 inside.1
        ∙ ap
            (λ called.
              called
              ++ due (finish_tx driver inside.0 inside.1).0.callbacks
                  (finish_tx driver inside.0 inside.1).1)
            (quiet (record s { begun = s.begun + 1 }))

    attempt-CallsDue : (s : Session W) → CallsDue s.called (attempt driver o s)
    unfolding attempt
    attempt-CallsDue s =
        after_begin-CallsDue (driver.begin s.world).1
          (record s { world = (driver.begin s.world).0; asked = s.asked + 1 })

    Runs-CallsDue :
        (how : List Strategy) (n : ℕ) (err : Option Fault) (s : Session W)
        (end : Session W × Result Fault (Unit {0}))
        → Runs how (attempt driver o) n err s end
        → (err ≡ none → s.callbacks ≡ [])
        → CallsDue s.called end
    Runs-CallsDue how n none s end (refused _ _ _ h) first = rw (first refl) (nothing_due s)
    Runs-CallsDue how n (some err) s end (refused _ _ _ h) first = nothing_due s
    Runs-CallsDue how n err s end (interrupted _ _ _ cause) first = nothing_due s
    Runs-CallsDue how n err s end (succeeded _ _ _ s' h a) first = rw a at (attempt-CallsDue s)
    Runs-CallsDue how n err s end (crashed _ _ _ s' h a) first = rw a at (attempt-CallsDue s)
    Runs-CallsDue how n err s end (again _ _ _ s' cause _ h a rest) first =
        Runs-CallsDue how (n + 1) (some cause) s' end rest (λ e. absurd (cc e))
        ∙ ap (λ called. called ++ due end.0.callbacks end.1)
            (unchanged (rw a at (attempt-CallsDue s)))
      where
        unchanged : s'.called ≡ s.called ++ [] → s'.called ≡ s.called
        unchanged e = e ∙ append-nil s.called

    -- Outside a transaction, WithTx calls the callbacks that are registered when it ends, in their
    -- order, if it returns no error, and none otherwise: where the function calls none itself.
    pub with_tx-CallsDue :
        (retry_do : RetryDo (Session W)) (db : Db) (s : Session W)
        → ((how : List Strategy) (act : Session W → Session W × Result Fault (Unit {0}))
              (t : Session W)
            → Runs how act 0 none t (retry_do how act t))
        → CallsDue s.called (with_tx retry_do db driver false o s)
    unfolding with_tx
    with_tx-CallsDue retry_do db s documented =
        let how = if o.is_idempotent then db.retries else db.no_retries in
        let fresh : Session W = record s { callbacks = [] } in
        Runs-CallsDue how 0 none fresh (retry_do how (attempt driver o) fresh)
          (documented how (attempt driver o) fresh) (λ e. refl)
