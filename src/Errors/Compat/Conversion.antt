-- ===== src/Errors/Compat/Conversion.antt =====
-- `FromError` of internal/status/compat.go on a status, and on what hides its text.
use issue.Base.{◌≡◌, refl, ap, subst, ◌∙◌, List, [], ◌∷◌, codes, Option, none, some, All}
use issue.Errors.Chain.{
  Layer, foreign_layer, semantic_layer, status_layer, raw_layer, code_layer, fields_layer, Err,
  leaf, wrap, find, or_else,
}
use issue.Errors.Chain.Search.{IsFirst, here, behind, find-IsFirst}
use issue.Errors.Status.{Status, error, status_of_layer, as_status, status_message, or_unknown}
use issue.Errors.Status.Messages.{IsHidden, message_of_IsHidden}
use issue.Errors.Compat.{from_error, status_or}

-- The layer is no status.
abbrev pub IsNoStatus : Layer → Type 0
IsNoStatus (status_layer c d) = ⊥
IsNoStatus l = Unit

-- The error wrapped in the layers, the first of them outermost.
abbrev pub wrap_all : List Layer → Err → Err
wrap_all [] e = e
wrap_all (l ∷ ls) e = wrap l (wrap_all ls e)

as_status-wrap : (l : Layer) (e : Err) → IsNoStatus l → as_status (wrap l e) ≡ as_status e
unfolding as_status find or_else status_of_layer
as_status-wrap (foreign_layer x) e h = refl
as_status-wrap (semantic_layer s m fields) e h = refl
as_status-wrap (status_layer c d) e h = absurd h
as_status-wrap raw_layer e h = refl
as_status-wrap (code_layer c) e h = refl
as_status-wrap (fields_layer fs) e h = refl

as_status-wrap_all :
    (ls : List Layer) (e : Err) → All IsNoStatus ls → as_status (wrap_all ls e) ≡ as_status e
as_status-wrap_all [] e h = refl
as_status-wrap_all (l ∷ ls) e (n, h) =
    as_status-wrap l (wrap_all ls e) n ∙ as_status-wrap_all ls e h

as_status-error : (s : Status) → as_status (error s) ≡ some s
unfolding as_status error find or_else status_of_layer
as_status-error s = refl

-- A status that was made an error comes back from `FromError` as it was, with its code, its details
-- and its error, however it was wrapped in errors that are no statuses.
pub from_error-error :
    (s : Status) (ls : List Layer) → All IsNoStatus ls → from_error (wrap_all ls (error s)) ≡ s
unfolding from_error status_or
from_error-error s ls h =
    let found : as_status (wrap_all ls (error s)) ≡ some s =
      as_status-wrap_all ls (error s) h ∙ as_status-error s in
    ap (status_or (wrap_all ls (error s))) found

IsFirst-IsHidden :
    (e : Err) (s : Status) → IsFirst status_of_layer e s → IsHidden e → IsHidden s.err
unfolding status_of_layer
IsFirst-IsHidden (leaf x) s (here _ _ k) h = absurd (cc k)
IsFirst-IsHidden (wrap (foreign_layer x) e) s (here _ _ k) h = absurd (cc k)
IsFirst-IsHidden (wrap (semantic_layer _ _ _) e) s (here _ _ k) h = absurd (cc k)
IsFirst-IsHidden (wrap (status_layer c d) e) s (here _ _ k) (_, h) =
    let same : record { code = c; err = e; details = d } ≡ s = cc k in
    subst (λ t. IsHidden t.err) same h
IsFirst-IsHidden (wrap raw_layer e) s (here _ _ k) h = absurd (cc k)
IsFirst-IsHidden (wrap (code_layer c) e) s (here _ _ k) h = absurd (cc k)
IsFirst-IsHidden (wrap (fields_layer fs) e) s (here _ _ k) h = absurd (cc k)
IsFirst-IsHidden (wrap l e) s (behind _ _ _ n f) (_, h) = IsFirst-IsHidden e s f h

status_or-IsHidden :
    (e : Err) (r : Option Status) → as_status e ≡ r → IsHidden e → IsHidden (status_or e r).err
unfolding status_or as_status
status_or-IsHidden e none k h = h
status_or-IsHidden e (some s) k h = IsFirst-IsHidden e s (find-IsFirst status_of_layer e s k) h

-- Of an error in whose chain nobody wrote a message for the outside, the status shows none: the text
-- of the error does not get out.
pub status_message-from_error_hidden :
    (e : Err) → IsHidden e → status_message (from_error e) ≡ codes "unknown error"
unfolding status_message from_error or_unknown
status_message-from_error_hidden e h =
    ap or_unknown
      (message_of_IsHidden (from_error e).err (status_or-IsHidden e (as_status e) refl h))
