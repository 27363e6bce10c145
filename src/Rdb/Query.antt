-- ===== src/Rdb/Query.antt =====
-- Statements outside and inside transactions: internal/rdb/retries.go, and the methods of DB in
-- internal/rdb/rdb.go that choose between the transaction of a context and the session. The methods
-- of sqlx are parameters; spans are left out.
pub mod Answers
use issue.Base.{
  ◌++◌, Bytes, Bool, true, false, not, ◌&&◌, List, codes, Option, none, some, Result, ok, fail,
  panic, if◌then◌else◌,
}
use issue.Errors.Chain.{leaf, plain}
use issue.Errors.Fault.{Fault, single}
use issue.Retry.{Strategy, RetryDo}

-- What a method of sqlx returns: a value and an error, either of which may be nil.
pub record Answer (R : Type 0) : Type 0 where
  pub value : Option R
  pub error : Option Fault

-- The variables of a call with retries: the world, and the value of the last attempt.
pub record Attempted (W R : Type 0) : Type 0 where
  pub world : W
  pub value : Option R

unfoldable pub to_result : Option Fault → Result Fault (Unit {0})
to_result none = ok tt
to_result (some err) = fail err

module _ {W R : Type 0} where
  -- The function that is given to `retry.Do`.
  unfoldable pub store :
      (W → W × Answer R) → Attempted W R → Attempted W R × Result Fault (Unit {0})
  unfolding to_result
  store method a =
      let (world, answer) = method a.world in
      (record { world = world; value = answer.value }, to_result answer.error)

  -- What is returned; none is a panic.
  unfoldable pub answer_of : Attempted W R → Result Fault (Unit {0}) → Option (Answer R)
  answer_of a (ok t) = some (record { value = a.value; error = none })
  answer_of a (fail err) = some (record { value = none; error = some err })
  answer_of a panic = none

  module _ (retry_do : RetryDo (Attempted W R)) (retries : List Strategy) where
    -- The body that the methods of sqlxdbWrapper share, with the method of sqlx.DB of that name.
    unfoldable pub retried : (W → W × Answer R) → W → W × Option (Answer R)
    unfolding store answer_of
    retried method world =
        let (a, result) =
          retry_do retries (store method) (record { world = world; value = none }) in
        (a.world, answer_of a result)

    -- QueryContext
    unfoldable pub query_context : (W → W × Answer R) → W → W × Option (Answer R)
    unfolding retried
    query_context query_context_of_db = retried query_context_of_db

    -- QueryxContext
    unfoldable pub queryx_context : (W → W × Answer R) → W → W × Option (Answer R)
    unfolding retried
    queryx_context queryx_context_of_db = retried queryx_context_of_db

    -- ExecContext
    unfoldable pub exec_context : (W → W × Answer R) → W → W × Option (Answer R)
    unfolding retried
    exec_context exec_context_of_db = retried exec_context_of_db

    -- PrepareNamedContext
    unfoldable pub prepare_named_context : (W → W × Answer R) → W → W × Option (Answer R)
    unfolding retried
    prepare_named_context prepare_named_context_of_db = retried prepare_named_context_of_db

module _ {W : Type 0} (retry_do : RetryDo W) (retries : List Strategy) where
  -- The function of a method that writes its rows through a pointer.
  unfoldable pub act : (W → W × Option Fault) → W → W × Result Fault (Unit {0})
  unfolding to_result
  act method world = let (world', err) = method world in (world', to_result err)

  -- SelectContext and GetContext of sqlxdbWrapper
  unfoldable pub select_context : (W → W × Option Fault) → W → W × Result Fault (Unit {0})
  unfolding act
  select_context method world = retry_do retries (act method) world

  unfoldable pub get_context : (W → W × Option Fault) → W → W × Result Fault (Unit {0})
  unfolding act
  get_context method world = retry_do retries (act method) world

-- The destination of Get: what reflection says of it. A slice may implement sql.Scanner.
pub data Dest : Type 0 where
  not_pointer nil_pointer pointer_to_other : Dest
  pointer_to_slice : Bool → Dest

pub data Method : Type 0 where
  select get : Method

-- The error for a destination of the statement with the name.
unfoldable pub bad_dest : Bytes → Fault
bad_dest name =
    single (leaf (plain (codes "dest arg for " ++ name ++ codes "must be a non-nil pointer")))

unfoldable pub method_for : Bytes → Dest → Result Fault Method
unfolding bad_dest
method_for name not_pointer = fail (bad_dest name)
method_for name nil_pointer = fail (bad_dest name)
method_for name pointer_to_other = ok get
method_for name (pointer_to_slice scans) = ok select

-- Get: the error of BindNamed, the destination, and the method of the executor that is called. The
-- test for sql.Scanner is one of the type reflect.Value, which does not implement it.
unfoldable pub db_get : Option Fault → Bytes → Dest → Result Fault Method
unfolding method_for
db_get (some err) name dest = fail err
db_get none name dest = method_for name dest
