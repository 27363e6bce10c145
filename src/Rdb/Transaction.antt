-- ===== src/Rdb/Transaction.antt =====
-- Transactions: WithTx, beginTx and RegisterAfterCommitCallback of internal/rdb/rdb.go. The driver
-- and the function that runs inside the transaction are parameters.
pub mod Callbacks
pub mod Repeats
use issue.Base.{
  ℕ, ◌+◌, Bool, true, false, not, ◌||◌, List, [], ◌∷◌, ◌++◌, codes, Option, none, some, Result, ok,
  fail, panic, if◌then◌else◌,
}
use issue.Errors.Chain.{leaf, plain, tx_done, is_some}
use issue.Errors.Fault.{Fault, single, noted, paired, joined, own, transaction_aborted, is_in}
use issue.Retry.{Strategy, RetryDo}
use issue.Rdb.Retryable.{is_context_error}

-- What the driver does with the world `W`: BeginTxx, Rollback and Commit, with their errors, and
-- `ctx.Err()` of the context of the call.
pub record Driver (W : Type 0) : Type 0 where
  pub begin : W → W × Option Fault
  pub rollback : W → W × Option Fault
  pub commit : W → W × Option Fault
  pub ctx_err : W → Option Fault

-- What a call of WithTx works on: the callbacks registered in its context, those called so far, and
-- how often the driver was asked for a transaction, gave one, and was told to commit or to roll back.
-- Callbacks are numbers.
pub record Session (W : Type 0) : Type 0 where
  pub world : W
  pub callbacks : List ℕ
  pub called : List ℕ
  pub asked : ℕ
  pub begun : ℕ
  pub ended : ℕ

-- TxOptions, with F as it changes the session.
pub record TxOptions (W : Type 0) : Type 0 where
  pub continue_active : Bool
  pub is_idempotent : Bool
  pub f : Session W → Session W × Result Fault (Unit {0})

module _ {W : Type 0} where
  -- RegisterAfterCommitCallback
  unfoldable pub register_after_commit_callback : ℕ → Session W → Session W
  register_after_commit_callback callback s = record s { callbacks = s.callbacks ++ callback ∷ [] }

  -- The callbacks are called, in the order of their registration.
  unfoldable pub call_callbacks : Session W → Session W
  call_callbacks s = record s { called = s.called ++ s.callbacks }

-- The error of Rollback, if any, is added to that of the function.
unfoldable pub rollback_error : Fault → Option Fault → Option Fault → Fault
unfolding is_in
rollback_error err none ctx_err = err
rollback_error err (some e) ctx_err =
    let with_cause : Fault = elim ctx_err [
      | none ↦ err
      | some cause ↦ noted (codes "failed to rollback transaction after error") (paired err cause)
    ] in
    if not (is_in tx_done e)
    then noted (codes "failed to rollback transaction after error") (paired err e)
    else with_cause

-- The error of Commit.
unfoldable pub commit_error : Fault → Option Fault → Fault
unfolding is_context_error is_in
commit_error e ctx_err =
    let when_done : Fault = elim ctx_err [
      | some cause ↦ noted (codes "failed to commit transaction") cause
      | none ↦
          noted (codes "failed to commit rollbacked transaction (timeout)")
            (joined e (own transaction_aborted))
    ] in
    if is_context_error e
    then noted (codes "failed to commit transaction") e
    else if is_in tx_done e
    then when_done
    else noted (codes "failed to commit transaction") (joined e (own transaction_aborted))

module _ {W : Type 0} (driver : Driver W) where
  unfoldable pub rollback : Fault → Session W → Session W × Result Fault (Unit {0})
  unfolding rollback_error
  rollback err s =
      let (world, e) = driver.rollback s.world in
      (
        record s { world = world; ended = s.ended + 1 },
        fail (rollback_error err e (driver.ctx_err world)),
      )

  unfoldable pub committed : Option Fault → Session W → Session W × Result Fault (Unit {0})
  unfolding commit_error call_callbacks
  committed none s = (call_callbacks s, ok tt)
  committed (some e) s = (s, fail (commit_error e (driver.ctx_err s.world)))

  unfoldable pub commit : Session W → Session W × Result Fault (Unit {0})
  unfolding committed
  commit s =
      let (world, e) = driver.commit s.world in
      committed e (record s { world = world; ended = s.ended + 1 })

  -- finishTx of the result of F: after an error of the context the driver has ended the transaction.
  -- A panic of F passes it by.
  unfoldable pub finish_tx :
      Session W → Result Fault (Unit {0}) → Session W × Result Fault (Unit {0})
  unfolding rollback commit is_context_error
  finish_tx s (ok t) = commit s
  finish_tx s (fail err) =
      let undone = rollback err s in if is_context_error err then (s, fail err) else undone
  finish_tx s panic = (s, panic)

  -- beginTx, and what WithTx does with the transaction.
  unfoldable pub after_begin :
      TxOptions W → Option Fault → Session W → Session W × Result Fault (Unit {0})
  unfolding finish_tx
  after_begin o (some err) s = (s, fail (noted (codes "could not open transaction") err))
  after_begin o none s =
      let (after, result) = o.f (record s { begun = s.begun + 1 }) in finish_tx after result

  -- One attempt of `retry.Do`.
  unfoldable pub attempt : TxOptions W → Session W → Session W × Result Fault (Unit {0})
  unfolding after_begin
  attempt o s =
      let (world, err) = driver.begin s.world in
      after_begin o err (record s { world = world; asked = s.asked + 1 })

-- DB: the strategies of its retries.
pub record Db : Type 0 where
  pub retries : List Strategy
  pub no_retries : List Strategy

module _ {W : Type 0} (retry_do : RetryDo (Session W)) (db : Db) (driver : Driver W) where
  -- WithTx. The flag tells whether the context has a transaction.
  unfoldable pub with_tx : Bool → TxOptions W → Session W → Session W × Result Fault (Unit {0})
  unfolding attempt
  with_tx active o s =
      let how = if o.is_idempotent then db.retries else db.no_retries in
      let started = retry_do how (attempt driver o) (record s { callbacks = [] }) in
      let continued = o.f s in
      if active
      then (if not o.continue_active
          then (s, fail (single (leaf (plain (codes "failed to begin new tx, tx already exists")))))
          else continued)
      else started
