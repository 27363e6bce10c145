-- ===== src/Http/Body.antt =====
-- internal/resttooling/http2tooling: the body of a request that may be sent more than once.
use issue.Base.{ℕ, Bytes, codes, Option, none, some, Result, ok, fail, panic, ◌>>=◌}
use issue.Errors.Fault.{Fault, noted}

-- An io.ReadCloser that is not read yet: its bytes, and the error that ends them, if one does.
pub record Body : Type 0 where
  pub bytes : Bytes
  pub broken : Option Fault

-- `Body` and `GetBody` of an *http.Request. The argument of `get_body` counts its calls.
pub record Content : Type 0 where
  pub body : Option Body
  pub get_body : Option (ℕ → Result Fault Body)

-- A reader of the bytes in memory.
abbrev pub whole : Bytes → Body
whole buf = record { bytes = buf; broken = none }

-- io.ReadAll
unfoldable pub read_all : Body → Result Fault Bytes
read_all b = elim b.broken [ none ↦ ok b.bytes | some err ↦ fail err ]

unfoldable pub noting {ℓ} : {A : Type ℓ} → Bytes → Result Fault A → Result Fault A
noting text (ok a) = ok a
noting text (fail err) = fail (noted text err)
noting text panic = panic

-- EnsureGetBodyMethod
unfoldable pub ensure_get_body : Option Body → Option (ℕ → Result Fault Body) → Result Fault Content
unfolding read_all noting
ensure_get_body none get_body = ok (record { body = none; get_body = get_body })
ensure_get_body (some b) (some get) = ok (record { body = some b; get_body = some get })
ensure_get_body (some b) none = do
  buf ← noting (codes "could not read request body") (read_all b)
  ok (record { body = some (whole buf); get_body = some (λ n. ok (whole buf)) })

unfoldable pub ensure_get_body_method : Content → Result Fault Content
unfolding ensure_get_body
ensure_get_body_method content = ensure_get_body content.body content.get_body
