-- ===== src/Errors/Status/Messages.antt =====
-- What `Message` of internal/status/status.go lets out.
use issue.Base.{◌≡◌, refl, ◌∙◌, subst, ◌↔◌, List, Bytes, none, some}
use issue.Errors.Chain.{
  Field, Semantic, Layer, foreign_layer, semantic_layer, status_layer, raw_layer, code_layer,
  fields_layer, Err, leaf, wrap, error_text,
}
use issue.Errors.Semantic.{message_with_fields}
use issue.Errors.Status.{message}

-- The layers that have no message of their own.
abbrev pub IsSilent : Layer → Type 0
IsSilent (semantic_layer s m fields) = ⊥
IsSilent raw_layer = ⊥
IsSilent l = Unit

-- The text is that of the first semantic error, with its fields, or of the first raw error.
pub data Exposes : Err → Bytes → Type 0 where
  by_semantic :
      (s : Semantic) (m : Bytes) (fields : List Field) (e : Err)
      → Exposes (wrap (semantic_layer s m fields) e) (message_with_fields s m fields e)
  by_raw : (e : Err) → Exposes (wrap raw_layer e) (error_text e)
  past : (l : Layer) (e : Err) (t : Bytes) → IsSilent l → Exposes e t → Exposes (wrap l e) t

message-Exposes : (e : Err) (t : Bytes) → message e ≡ some t → Exposes e t
unfolding message
message-Exposes (leaf x) t h = absurd (cc h)
message-Exposes (wrap (semantic_layer s m fields) e) t h =
    let same : message_with_fields s m fields e ≡ t = cc h in
    subst (Exposes (wrap (semantic_layer s m fields) e)) same (by_semantic s m fields e)
message-Exposes (wrap raw_layer e) t h =
    let same : error_text e ≡ t = cc h in subst (Exposes (wrap raw_layer e)) same (by_raw e)
message-Exposes (wrap (foreign_layer x) e) t h =
    past (foreign_layer x) e t tt (message-Exposes e t h)
message-Exposes (wrap (status_layer c d) e) t h =
    past (status_layer c d) e t tt (message-Exposes e t h)
message-Exposes (wrap (code_layer c) e) t h = past (code_layer c) e t tt (message-Exposes e t h)
message-Exposes (wrap (fields_layer fs) e) t h =
    past (fields_layer fs) e t tt (message-Exposes e t h)

message-wrap : (l : Layer) (e : Err) → IsSilent l → message (wrap l e) ≡ message e
unfolding message
message-wrap (foreign_layer x) e h = refl
message-wrap (semantic_layer s m fields) e h = absurd h
message-wrap (status_layer c d) e h = refl
message-wrap raw_layer e h = absurd h
message-wrap (code_layer c) e h = refl
message-wrap (fields_layer fs) e h = refl

Exposes-message : (e : Err) (t : Bytes) → Exposes e t → message e ≡ some t
unfolding message
Exposes-message _ _ (by_semantic s m fields e) = refl
Exposes-message _ _ (by_raw e) = refl
Exposes-message _ _ (past l e t h x) = message-wrap l e h ∙ Exposes-message e t x

-- The message of a status is the text of the outermost semantic or raw error of the chain; no text of
-- an error behind it, or of any other error, gets out.
pub message_iff : (e : Err) (t : Bytes) → (message e ≡ some t) ↔ Exposes e t
message_iff e t = (message-Exposes e t, Exposes-message e t)

-- In the chain no layer has a message.
abbrev pub IsHidden : Err → Type 0
IsHidden (leaf x) = Unit
IsHidden (wrap l e) = IsSilent l × IsHidden e

pub message_of_IsHidden : (e : Err) → IsHidden e → message e ≡ none
unfolding message
message_of_IsHidden (leaf x) h = refl
message_of_IsHidden (wrap l e) (s, h) = message-wrap l e s ∙ message_of_IsHidden e h
