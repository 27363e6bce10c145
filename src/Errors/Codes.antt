-- ===== src/Errors/Codes.antt =====
-- The codes of internal/status/codes/codes.go. A `Code` is a uint32 there: `undefined n` is the value
-- 17 + n, which stands for no code.
pub mod Names
use issue.Base.{
  ℕ, ◌+◌, ◌≤◌, ◌<◌, ◌≡◌, ◌≢◌, refl, ◌∙◌, sym, ap, Bool, true, false, arith, List, [], ◌∷◌, ◌++◌,
  Bytes, codes, decimal, Option, none, some, ◌=ᵇ◌, if◌then◌else◌, ◌==◌, leb, ◌⊎◌, inl, inr, ◌↔◌,
}

pub data Code : Type 0 where
  unknown canceled invalid_argument deadline_exceeded : Code
  not_found already_exists permission_denied too_many_requests : Code
  failed_precondition aborted unimplemented internal : Code
  unavailable unauthenticated unprocessable not_acceptable : Code
  locked : Code
  undefined : ℕ → Code

-- The values of the constants.
unfoldable pub number : Code → ℕ
number unknown = 0
number canceled = 1
number invalid_argument = 2
number deadline_exceeded = 3
number not_found = 4
number already_exists = 5
number permission_denied = 6
number too_many_requests = 7
number failed_precondition = 8
number aborted = 9
number unimplemented = 10
number internal = 11
number unavailable = 12
number unauthenticated = 13
number unprocessable = 14
number not_acceptable = 15
number locked = 16
number (undefined n) = 17 + n

-- Go's `==` on codes.
unfoldable pub same_code : Code → Code → Bool
unfolding number
same_code c d = number c == number d

-- `String`
unfoldable pub string : Code → Bytes
string unknown = codes "UNKNOWN"
string canceled = codes "CANCELED"
string invalid_argument = codes "INVALID_ARGUMENT"
string deadline_exceeded = codes "DEADLINE_EXCEEDED"
string not_found = codes "NOT_FOUND"
string already_exists = codes "ALREADY_EXISTS"
string permission_denied = codes "PERMISSION_DENIED"
string too_many_requests = codes "TOO_MANY_REQUESTS"
string failed_precondition = codes "FAILED_PRECONDITION"
string aborted = codes "ABORTED"
string unimplemented = codes "UNIMPLEMENTED"
string internal = codes "INTERNAL"
string unavailable = codes "UNAVAILABLE"
string unauthenticated = codes "UNAUTHENTICATED"
string unprocessable = codes "UNPROCESSABLE"
string not_acceptable = codes "NOT_ACCEPTABLE"
string locked = codes "LOCKED"
string (undefined n) = codes "CODE(" ++ decimal (17 + n) ++ codes ")"

-- `HTTP`, with the numbers of the constants of net/http.
unfoldable pub http : Code → ℕ
http unknown = 500
http canceled = 499
http invalid_argument = 400
http deadline_exceeded = 408
http not_found = 404
http already_exists = 409
http permission_denied = 404
http too_many_requests = 429
http failed_precondition = 412
http aborted = 409
http unimplemented = 501
http internal = 500
http unavailable = 503
http unauthenticated = 401
http unprocessable = 422
http not_acceptable = 406
http locked = 423
http (undefined n) = 500
