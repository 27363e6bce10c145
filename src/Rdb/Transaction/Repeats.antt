-- ===== src/Rdb/Transaction/Repeats.antt =====
-- How often WithTx of internal/rdb/rdb.go runs its function, and what is left of the runs that
-- failed.
use issue.Base.{
  ◌≡◌, refl, ◌∙◌, ap, ℕ, ◌+◌, ◌-◌, ◌≤◌, false, List, [], ◌++◌, length, length-append, Option, none,
  some, Result, ok, fail, panic, if◌then◌else◌, of_branches, arith,
}
use issue.Errors.Fault.{Fault}
use issue.Retry.{Strategy, allow, RetryDo}
use issue.Retry.Attempts.{Runs, Runs-invariant, Runs-count}
use issue.Rdb.Retryable.{is_context_error, no_op}
use issue.Rdb.Transaction.{
  Driver, Session, TxOptions, call_callbacks, rollback, committed, commit, finish_tx, after_begin,
  attempt, Db, with_tx,
}
use issue.Rdb.Transaction.Callbacks.{due, with_tx-CallsDue}

allow-no_op :
    (limit : ℕ → Strategy) (n : ℕ) (err : Option Fault)
    → limit 1 n err ≡ false
    → allow (no_op limit) n err ≡ false
unfolding allow no_op
allow-no_op limit n err h = ground (arith, h)

-- What the end of a transaction leaves alone.
abbrev Kept : {W : Type 0} → Session W → Session W → Type 0
Kept s s' = (s'.asked ≡ s.asked) × (s'.begun ≡ s.begun) × (s'.callbacks ≡ s.callbacks)

module _ {W : Type 0} (driver : Driver W) where
  committed-Kept : (e : Option Fault) (s : Session W) → Kept s (committed driver e s).0
  unfolding committed call_callbacks
  committed-Kept none s = (refl, refl, refl)
  committed-Kept (some e) s = (refl, refl, refl)

  finish_tx-Kept :
      (s : Session W) (result : Result Fault (Unit {0})) → Kept s (finish_tx driver s result).0
  unfolding finish_tx commit rollback
  finish_tx-Kept s (ok t) =
      committed-Kept (driver.commit s.world).1
        (record s { world = (driver.commit s.world).0; ended = s.ended + 1 })
  finish_tx-Kept s panic = (refl, refl, refl)
  finish_tx-Kept s (fail err) =
      of_branches {this = (s, fail err)} {other = rollback driver err s} (λ end. Kept s end.0)
        (is_context_error err) (refl, refl, refl) (refl, refl, refl)

  module _ (o : TxOptions W)
      (begins : (s : Session W) → ((o.f s).0.asked ≡ s.asked) × ((o.f s).0.begun ≡ s.begun)) where
    after_begin-counts :
        (err : Option Fault) (s : Session W)
        → ((after_begin driver o err s).0.asked ≡ s.asked)
          × ((after_begin driver o err s).0.begun ≤ s.begun + 1)
    unfolding after_begin
    after_begin-counts (some err) s = (refl, omega arith)
    after_begin-counts none s =
        let start : Session W = record s { begun = s.begun + 1 } in
        let inside = o.f start in
        let kept = finish_tx-Kept inside.0 inside.1 in
        (omega (arith, kept.0, (begins start).0), omega (arith, kept.1, (begins start).1))

    attempt-counts :
        (s : Session W)
        → ((attempt driver o s).0.asked ≡ s.asked + 1)
          × ((attempt driver o s).0.begun ≤ s.begun + 1)
    unfolding attempt
    attempt-counts s =
        after_begin-counts (driver.begin s.world).1
          (record s { world = (driver.begin s.world).0; asked = s.asked + 1 })

    -- Outside a transaction, WithTx asks the driver for a transaction once at most, and so does not
    -- repeat that after an error, and runs the function in one at most: where the function is not
    -- marked idempotent and begins no transaction itself, and NoOp allows one attempt.
    pub with_tx-once :
        (retry_do : RetryDo (Session W)) (db : Db) (limit : ℕ → Strategy) (s : Session W)
        → ((how : List Strategy) (act : Session W → Session W × Result Fault (Unit {0}))
              (t : Session W)
            → Runs how act 0 none t (retry_do how act t))
        → db.no_retries ≡ no_op limit
        → ((k n : ℕ) (err : Option Fault) → k ≤ n → limit k n err ≡ false)
        → o.is_idempotent ≡ false
        → ((with_tx retry_do db driver false o s).0.asked ≤ s.asked + 1)
          × ((with_tx retry_do db driver false o s).0.begun ≤ s.begun + 1)
    unfolding with_tx
    with_tx-once retry_do db limit s documented no_op_used limits once = rw once (
      omega (
        arith,
        counted (λ t. t.asked - s.asked) (λ t. omega (arith, (attempt-counts t).0)) (omega arith),
      ),
      omega (
        arith,
        counted (λ t. t.begun - s.begun) (λ t. omega (arith, (attempt-counts t).1)) (omega arith),
      ),
    )
      where
        fresh : Session W
        fresh = record s { callbacks = [] }

        one_attempt : (n : ℕ) (err : Option Fault) → 1 ≤ n → allow db.no_retries n err ≡ false
        one_attempt n err h = rw no_op_used (allow-no_op limit n err (limits 1 n err h))

        counted :
            (count : Session W → ℕ)
            → ((t : Session W) → count (attempt driver o t).0 ≤ count t + 1)
            → count fresh ≤ 0
            → count (retry_do db.no_retries (attempt driver o) fresh).0 ≤ 1
        counted count grows none_yet =
            Runs-count db.no_retries (attempt driver o) count grows 1 one_attempt 0 none fresh
              (retry_do db.no_retries (attempt driver o) fresh)
              (documented db.no_retries (attempt driver o) fresh) none_yet (omega arith)

-- One callback was registered for each transaction begun since there were `before`.
abbrev OneEach : {W : Type 0} → ℕ → Session W → Type 0
OneEach before s = length s.callbacks + before ≡ s.begun

module _ {W : Type 0} (driver : Driver W) (o : TxOptions W)
    (one_each : (s : Session W)
      → ((o.f s).0.begun ≡ s.begun) × (length (o.f s).0.callbacks ≡ length s.callbacks + 1)) where
  after_begin-OneEach :
      (before : ℕ) (err : Option Fault) (s : Session W)
      → OneEach before s
      → OneEach before (after_begin driver o err s).0
  unfolding after_begin
  after_begin-OneEach before (some err) s h = h
  after_begin-OneEach before none s h =
      let start : Session W = record s { begun = s.begun + 1 } in
      let inside = o.f start in
      let kept = finish_tx-Kept driver inside.0 inside.1 in
      omega
        (arith, kept.1, ap (λ cs. length cs) (kept.2), (one_each start).0, (one_each start).1, h)

  attempt-OneEach :
      (before : ℕ) (s : Session W) → OneEach before s → OneEach before (attempt driver o s).0
  unfolding attempt
  attempt-OneEach before s h =
      after_begin-OneEach before (driver.begin s.world).1
        (record s { world = (driver.begin s.world).0; asked = s.asked + 1 }) h

  -- Where the function registers one callback whenever it runs, and calls none itself, a call of
  -- WithTx outside a transaction that returns no error has called as many callbacks as it began
  -- transactions: those of the transactions that failed, too.
  pub with_tx_calls_all :
      (retry_do : RetryDo (Session W)) (db : Db) (s : Session W)
      → ((s : Session W) → (o.f s).0.called ≡ s.called)
      → ((how : List Strategy) (act : Session W → Session W × Result Fault (Unit {0}))
            (t : Session W)
          → Runs how act 0 none t (retry_do how act t))
      → (with_tx retry_do db driver false o s).1 ≡ ok tt
      → length (with_tx retry_do db driver false o s).0.called + s.begun
        ≡ length s.called + (with_tx retry_do db driver false o s).0.begun
  unfolding with_tx
  with_tx_calls_all retry_do db s quiet documented ended_well =
      let end = with_tx retry_do db driver false o s in
      let called : end.0.called ≡ s.called ++ end.0.callbacks =
        with_tx-CallsDue driver o quiet retry_do db s documented
        ∙ ap (λ result. s.called ++ due end.0.callbacks result) ended_well in
      omega (arith, ap (λ cs. length cs) called, length-append s.called end.0.callbacks, counted)
    where
      counted : OneEach s.begun (with_tx retry_do db driver false o s).0
      counted =
          let how = if o.is_idempotent then db.retries else db.no_retries in
          let fresh : Session W = record s { callbacks = [] } in
          Runs-invariant how (attempt driver o) (OneEach s.begun) (attempt-OneEach s.begun) 0 none
            fresh (retry_do how (attempt driver o) fresh) (documented how (attempt driver o) fresh)
            (omega arith)
