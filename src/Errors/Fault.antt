-- ===== src/Errors/Fault.antt =====
-- Errors that may be joined, as trees over the chains of internal/semerr and the like, with the
-- error values that packages of the repository declare: internal/resttooling/restretries/errors.go,
-- internal/resttooling/resttimeouts and internal/rdb/rdb.go.
use issue.Base.{Bool, true, false, ◌||◌, Bytes, codes, ◌++◌, ◌∷◌, Option, none}
use issue.Errors.Chain.{Err, Sentinel, Foreign, error_text, find, ask, is, or_else}

pub data Own : Type 0 where
  must_stop : Own  -- errMustStop of restretries
  temporary : Own  -- errTemporary of resttimeouts
  transaction_aborted : Own  -- errTransactionAborted of rdb

pub data Fault : Type 0 where
  single : Err → Fault
  own : Own → Fault
  noted : Bytes → Fault → Fault  -- fmt.Errorf with `: %w` behind the text
  paired : Fault → Fault → Fault  -- fmt.Errorf with `%w: %w`
  joined : Fault → Fault → Fault  -- errors.Join of two errors

unfoldable pub own_text : Own → Bytes
own_text must_stop = codes "request must not be retried"
own_text temporary = codes "retryable rest timeout error"
own_text transaction_aborted = codes "transaction was aborted"

-- `Error()`
unfoldable pub fault_text : Fault → Bytes
unfolding error_text own_text
fault_text (single e) = error_text e
fault_text (own o) = own_text o
fault_text (noted text f) = text ++ codes ": " ++ fault_text f
fault_text (paired f g) = fault_text f ++ codes ": " ++ fault_text g
fault_text (joined f g) = fault_text f ++ b'\n' ∷ fault_text g

-- errors.As on a tree: what `ask` takes from the first error, depth first, that it knows.
unfoldable pub find_in {ℓ} : {A : Type ℓ} → (Foreign → Option A) → Fault → Option A
unfolding find ask or_else
find_in f (single e) = find (ask f) e
find_in f (own o) = none
find_in f (noted text g) = find_in f g
find_in f (paired g h) = or_else (find_in f g) (find_in f h)
find_in f (joined g h) = or_else (find_in f g) (find_in f h)

-- errors.Is with a value of the standard library
unfoldable pub is_in : Sentinel → Fault → Bool
unfolding is
is_in s (single e) = is s e
is_in s (own o) = false
is_in s (noted text g) = is_in s g
is_in s (paired g h) = is_in s g || is_in s h
is_in s (joined g h) = is_in s g || is_in s h

unfoldable pub same_own : Own → Own → Bool
same_own must_stop must_stop = true
same_own temporary temporary = true
same_own transaction_aborted transaction_aborted = true
same_own _ _ = false

-- errors.Is with a value of the repository
unfoldable pub is_own : Own → Fault → Bool
unfolding same_own
is_own o (single e) = false
is_own o (own p) = same_own o p
is_own o (noted text g) = is_own o g
is_own o (paired g h) = is_own o g || is_own o h
is_own o (joined g h) = is_own o g || is_own o h

-- IsPermanentError
unfoldable pub is_permanent_error : Fault → Bool
unfolding is_own
is_permanent_error = is_own must_stop

-- NewPermanentError, of an error that is not nil
unfoldable pub new_permanent_error : Fault → Fault
new_permanent_error f = joined f (own must_stop)

-- resttimeouts.IsTimeout
unfoldable pub is_timeout : Fault → Bool
unfolding is_own
is_timeout = is_own temporary
