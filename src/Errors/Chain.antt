-- ===== src/Errors/Chain.antt =====
-- Error values as chains: a Go error that another wraps is what the other's `Unwrap` returns. The
-- errors of the repository's packages are layers of their own; an error of any other package is
-- known by what the code asks of it. A joined error, which has several, is not modelled.
pub mod Search
use issue.Base.{
  ℕ, Bool, true, false, List, [], ◌∷◌, ◌++◌, Bytes, codes, Option, none, some, if◌then◌else◌,
}
use issue.Rate.Window.{Duration}
use issue.Errors.Codes.{Code, string}

-- zap.Field, with its value as text: what `%v` shows of it.
pub record Field : Type 0 where
  pub key : Bytes
  pub value : Bytes

-- `Semantic` of internal/semerr/semantic.go
pub data Semantic : Type 0 where
  semantic_unknown semantic_not_implemented semantic_unavailable : Semantic
  semantic_invalid_input semantic_timeout semantic_internal : Semantic
  semantic_authentication semantic_forbidden semantic_failed_precondition : Semantic
  semantic_not_found semantic_already_exists semantic_canceled : Semantic
  semantic_unprocessable semantic_not_acceptable semantic_resource_locked : Semantic
  semantic_too_many_requests semantic_skip_error semantic_partial_success : Semantic

-- internal/status/details/details.go
pub record ErrorInfo : Type 0 where
  pub reason : Bytes
  pub metadata : List Field

pub record ErrorDetails : Type 0 where
  pub error_info : Option ErrorInfo
  pub retry_info : Option Duration
  pub user_facing_message : Option Bytes

-- The errors of the standard library that the code compares with by `errors.Is`.
pub data Sentinel : Type 0 where
  context_canceled context_deadline_exceeded connection_reset connection_refused : Sentinel
  unexpected_eof tx_done : Sentinel

-- The errors of ogen that a type switch tells apart.
pub data OgenKind : Type 0 where
  security_error decode_params_error decode_request_error other_ogen_error : OgenKind

-- An error of another package: its `Error()`, and what it is or implements, if it does.
pub record Foreign : Type 0 where
  pub text : Bytes
  pub sentinel : Option Sentinel  -- it is this value
  pub timeout : Option Bool  -- its `Timeout()`
  pub dns : Option Bytes  -- *net.DNSError, with its `Err`
  pub ogen : Option OgenKind  -- ogenerrors.Error
  pub pg : Option Bytes  -- *pgconn.PgError, with its SQLSTATE
  pub op_error : Bool  -- *net.OpError
  pub matches_connect_error : Bool  -- errors.Is takes it for a new *pgconn.ConnectError

-- An error with a text and nothing else: what errors.New and xerrors.Errorf return.
unfoldable pub plain : Bytes → Foreign
plain text = record {
  text = text;
  sentinel = none;
  timeout = none;
  dns = none;
  ogen = none;
  pg = none;
  op_error = false;
  matches_connect_error = false;
}

-- A struct that holds an error and returns it from `Unwrap`.
pub data Layer : Type 0 where
  foreign_layer : Foreign → Layer
  semantic_layer : Semantic → Bytes → List Field → Layer  -- semerr.Error
  status_layer : Code → ErrorDetails → Layer  -- status.Error, with its Status
  raw_layer : Layer  -- status.rawError
  code_layer : Bytes → Layer  -- codeerr.Error
  fields_layer : List Field → Layer  -- clouderr.ErrorWithFields

pub data Err : Type 0 where
  leaf : Foreign → Err
  wrap : Layer → Err → Err

-- `Error()` of each type.
unfoldable pub error_text : Err → Bytes
error_text (leaf x) = x.text
error_text (wrap (foreign_layer x) e) = x.text
error_text (wrap (semantic_layer s message fields) e) = error_text e
error_text (wrap (status_layer c details) e) = string c ++ codes ": " ++ error_text e
error_text (wrap raw_layer e) = error_text e
error_text (wrap (code_layer c) e) = c
error_text (wrap (fields_layer fields) e) = error_text e

unfoldable pub or_else {ℓ} : {A : Type ℓ} → Option A → Option A → Option A
or_else none b = b
or_else (some a) b = some a

-- errors.As: what `f` takes from the first error of the chain that it knows.
unfoldable pub find {ℓ} : {A : Type ℓ} → (Err → Option A) → Err → Option A
unfolding or_else
find f (leaf x) = f (leaf x)
find f (wrap l e) = or_else (f (wrap l e)) (find f e)

unfoldable pub same_sentinel : Sentinel → Sentinel → Bool
same_sentinel context_canceled context_canceled = true
same_sentinel context_deadline_exceeded context_deadline_exceeded = true
same_sentinel connection_reset connection_reset = true
same_sentinel connection_refused connection_refused = true
same_sentinel unexpected_eof unexpected_eof = true
same_sentinel tx_done tx_done = true
same_sentinel _ _ = false

unfoldable pub is_sentinel : Sentinel → Option Sentinel → Bool
unfolding same_sentinel
is_sentinel s none = false
is_sentinel s (some t) = same_sentinel s t

-- What another package's error in the chain is, if the outermost error is one.
unfoldable pub foreign_of : Err → Option Foreign
foreign_of (leaf x) = some x
foreign_of (wrap (foreign_layer x) e) = some x
foreign_of (wrap l e) = none

-- What a test of another package's error takes from an error.
unfoldable pub ask {ℓ} : {A : Type ℓ} → (Foreign → Option A) → Err → Option A
unfolding foreign_of
ask f e = elim (foreign_of e) [ none ↦ none | some x ↦ f x ]

unfoldable pub if_sentinel : Sentinel → Foreign → Option (Unit {0})
unfolding is_sentinel
if_sentinel s x = if is_sentinel s x.sentinel then some tt else none

unfoldable pub is_some {ℓ} : {A : Type ℓ} → Option A → Bool
is_some none = false
is_some (some a) = true

-- errors.Is
unfoldable pub is : Sentinel → Err → Bool
unfolding find ask if_sentinel is_some
is s e = is_some (find (ask (if_sentinel s)) e)
