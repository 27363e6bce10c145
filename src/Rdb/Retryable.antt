-- ===== src/Rdb/Retryable.antt =====
-- internal/rdb/internal/pgretries: which errors of the database a statement or a transaction is
-- tried again after.
pub mod Contexts
use issue.Base.{
  ℕ, Bool, true, false, not, ◌||◌, ◌==◌, List, [], ◌∷◌, Bytes, codes, Option, none, some, member,
  contains, if◌then◌else◌,
}
use issue.Errors.Chain.{Foreign, Sentinel, context_canceled, context_deadline_exceeded, is_some}
use issue.Errors.Fault.{Fault, find_in, is_in}
use issue.Retry.{Strategy}

-- The codes of pgerrcode that isRetryable lists: ConnectionFailure, ConnectionException,
-- AdminShutdown, OperatorIntervention, CrashShutdown, TooManyConnections and CannotConnectNow.
abbrev retryable_codes : List Bytes
retryable_codes =
    codes "08006"
    ∷ codes "08000"
    ∷ codes "57P01"
    ∷ codes "57000"
    ∷ codes "57P02"
    ∷ codes "53300"
    ∷ codes "57P03"
    ∷ []

unfoldable pub if_set : Bool → Option (Unit {0})
if_set true = some tt
if_set false = none

-- The switch on the code of a *pgconn.PgError; without one, the last test.
unfoldable pub by_code : Option Bytes → Bool → Bool
unfolding member
by_code (some code) connect_error = member code retryable_codes
by_code none connect_error = connect_error

-- The tests from that of *net.DNSError on: what errors.As and errors.Is find.
unfoldable pub by_network : Option Bytes → Bool → Option Bytes → Bool → Bool
unfolding contains by_code
by_network (some dns) op_error pg connect_error =
    not (contains dns (codes "operation was canceled"))
by_network none op_error pg connect_error = if op_error then true else by_code pg connect_error

-- The caller's context ended.
unfoldable pub is_context_error : Fault → Bool
unfolding is_in
is_context_error err = is_in context_canceled err || is_in context_deadline_exceeded err

-- isRetryable
unfoldable pub is_retryable : Fault → Bool
unfolding is_context_error by_network find_in is_some if_set
is_retryable err =
    let dns = find_in (λ x. x.dns) err in
    let op_error = is_some (find_in (λ x. if_set x.op_error) err) in
    let pg = find_in (λ x. x.pg) err in
    let connect_error = is_some (find_in (λ x. if_set x.matches_connect_error) err) in
    if is_context_error err then false else by_network dns op_error pg connect_error

-- isRetryable of an error that may be nil
unfoldable pub is_retryable_error : Option Fault → Bool
unfolding is_retryable
is_retryable_error none = false
is_retryable_error (some err) = is_retryable err

-- The first strategy of Strategy.
unfoldable pub retry_retryable : Strategy
unfolding is_retryable_error
retry_retryable attempt err = if attempt == 0 then true else is_retryable_error err

-- Strategy, with the backoff strategy of the library.
unfoldable pub strategy : Strategy → List Strategy
unfolding retry_retryable
strategy backoff = retry_retryable ∷ backoff ∷ []

-- NoOp, with the strategy Limit of the library.
unfoldable pub no_op : (ℕ → Strategy) → List Strategy
no_op limit = limit 1 ∷ []
