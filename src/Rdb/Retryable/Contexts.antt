-- ===== src/Rdb/Retryable/Contexts.antt =====
-- Whether internal/rdb tries a transaction again after its commit failed: what isRetryable of
-- internal/rdb/internal/pgretries makes of the errors that rdb adds to.
use issue.Base.{
  ◌≡◌, refl, ◌∙◌, Bool, true, false, ◌||◌, Option, none, some, Bytes, if◌then◌else◌, Bool-cases,
  inl, inr, arith,
}
use issue.Errors.Fault.{Fault, own, transaction_aborted, Own, noted, joined, find_in, is_in}
use issue.Errors.Chain.{Foreign, or_else, tx_done, context_canceled, context_deadline_exceeded}
use issue.Rdb.Retryable.{is_context_error, is_retryable}
use issue.Rdb.Transaction.{commit_error}

or_else-none {ℓ} : {A : Type ℓ} (o : Option A) → or_else o none ≡ o
unfolding or_else
or_else-none none = refl
or_else-none (some a) = refl

or_false : (b : Bool) → (b || false) ≡ b
or_false true = refl
or_false false = refl

find_in-joined {ℓ} :
    {A : Type ℓ} (f : Foreign → Option A) (err : Fault) (o : Own)
    → find_in f (joined err (own o)) ≡ find_in f err
unfolding find_in
find_in-joined f err o = or_else-none (find_in f err)

is_context_error-joined :
    (err : Fault) (o : Own) → is_context_error (joined err (own o)) ≡ is_context_error err
unfolding is_context_error is_in
is_context_error-joined err o =
    ground
      (arith, or_false (is_in context_canceled err), or_false (is_in context_deadline_exceeded err))

-- An error of the repository that is joined to another does not count.
is_retryable-joined : (err : Fault) (o : Own) → is_retryable (joined err (own o)) ≡ is_retryable err
unfolding is_retryable find_in is_context_error is_in
is_retryable-joined err o = simp (or_else-none, or_false)

is_retryable-noted : (text : Bytes) (err : Fault) → is_retryable (noted text err) ≡ is_retryable err
unfolding is_retryable is_context_error find_in is_in
is_retryable-noted text err = refl

-- What the error of a failed commit is about: if the driver says that the transaction is done, the
-- end of the caller's context, if it has ended.
abbrev pub reported : Fault → Option Fault → Fault
reported e none = e
reported e (some cause) = if is_context_error e then e else if is_in tx_done e then cause else e

-- A transaction whose commit failed is tried again, if it may be, exactly after the errors of the
-- driver, or of the caller's context where that ended it, that isRetryable names: what WithTx adds
-- to the error does not change that.
pub commit_error-is_retryable :
    (e : Fault) (ctx_err : Option Fault)
    → is_retryable (commit_error e ctx_err) ≡ is_retryable (reported e ctx_err)
unfolding commit_error
commit_error-is_retryable e ctx_err = elim (Bool-cases (is_context_error e)) [
  | inl ended ↦ by_context ctx_err ended
  | inr going_on ↦ elim (Bool-cases (is_in tx_done e)) [
    | inl done ↦ by_done ctx_err going_on done
    | inr failed ↦ by_failure ctx_err going_on failed
  ]
]
  where
    aborted : Bytes → Fault
    aborted text = noted text (joined e (own transaction_aborted))

    same : (text : Bytes) → is_retryable (aborted text) ≡ is_retryable e
    same text =
        is_retryable-noted text (joined e (own transaction_aborted))
        ∙ is_retryable-joined e transaction_aborted

    by_context :
        (c : Option Fault)
        → is_context_error e ≡ true
        → is_retryable (commit_error e c) ≡ is_retryable (reported e c)
    by_context none ended = rw ended (is_retryable-noted _ e)
    by_context (some cause) ended = rw ended (is_retryable-noted _ e)

    by_done :
        (c : Option Fault)
        → is_context_error e ≡ false
        → is_in tx_done e ≡ true
        → is_retryable (commit_error e c) ≡ is_retryable (reported e c)
    by_done none going_on done = rw (going_on, done) (same _)
    by_done (some cause) going_on done = rw (going_on, done) (is_retryable-noted _ cause)

    by_failure :
        (c : Option Fault)
        → is_context_error e ≡ false
        → is_in tx_done e ≡ false
        → is_retryable (commit_error e c) ≡ is_retryable (reported e c)
    by_failure none going_on failed = rw (going_on, failed) (same _)
    by_failure (some cause) going_on failed = rw (going_on, failed) (same _)
