-- ===== src/Text/Camel.antt =====
-- CamelToSnake of internal/encodingtooling/cameltosnake.go: the name of a database column for a field
-- of a struct. Strings are lists of code points.
pub mod Letters
use issue.Base.{ℕ, Bool, true, false, List, [], ◌∷◌, ◌++◌, Bytes, if◌then◌else◌}
use issue.Text.Unicode.{Unicode}

-- `prev`
pub data Previous : Type 0 where
  start lower upper : Previous

module _ (unicode : Unicode) where
  -- What is written in front of a capital; the next code point is looked at behind a capital.
  unfoldable pub edge : Previous → Bytes → Bytes
  edge start rest = []
  edge lower rest = b'_' ∷ []
  edge upper [] = []
  edge upper (next ∷ rest) = if unicode.is_lower next then b'_' ∷ [] else []

  unfoldable pub camel_from : Previous → Bytes → Bytes
  unfolding edge
  camel_from prev [] = []
  camel_from prev (cur ∷ rest) =
      let capital = edge prev rest ++ unicode.to_lower cur ∷ camel_from upper rest in
      let small = cur ∷ camel_from lower rest in if unicode.is_upper cur then capital else small

  -- CamelToSnake
  unfoldable pub camel_to_snake : Bytes → Bytes
  unfolding camel_from
  camel_to_snake s = camel_from start s
