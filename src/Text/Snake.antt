-- ===== src/Text/Snake.antt =====
-- toSnakeCase of internal/logfmt/logfmt.go: the name of a log field, in snake case. A string is its
-- code points; the byte in front of a code point is a capital just if the code point before is.
pub mod Shape
pub mod Fixed
use issue.Base.{
  ℕ, ◌+◌, ◌-◌, Bool, true, false, not, ◌&&◌, ◌||◌, List, [], ◌∷◌, ◌++◌, Bytes, Option, none, some,
  ◌==◌, leb, if◌then◌else◌,
}

-- isUpper
unfoldable pub is_upper : ℕ → Bool
is_upper r = leb b'A' r && leb r b'Z'

-- isLowerAlphaNum
unfoldable pub is_lower_alpha_num : ℕ → Bool
is_lower_alpha_num r = leb b'a' r && leb r b'z' || leb b'0' r && leb r b'9'

unfoldable pub is_upper_before : Option ℕ → Bool
unfolding is_upper
is_upper_before none = false
is_upper_before (some r) = is_upper r

unfoldable pub is_empty : Bytes → Bool
is_empty [] = true
is_empty (c ∷ s) = false

-- The separator that is written unless the test holds.
unfoldable pub separator_unless : Bool → Bytes
separator_unless true = []
separator_unless false = b'_' ∷ []

-- One step of the first loop, at `r` behind `before`: the buffer and `capitalSequence`.
unfoldable pub convert_one : Option ℕ → ℕ → Bytes × Bool → Bytes × Bool
unfolding is_upper is_lower_alpha_num is_upper_before is_empty separator_unless
convert_one before r (buf, capital_sequence) =
    let capital = capital_sequence || not (is_empty buf) && is_upper_before before in
    let closed = buf ++ separator_unless (not capital_sequence) in
    if is_upper r
    then (buf ++ separator_unless capital ++ ((r - b'A' + b'a') ∷ []), capital)
    else if is_lower_alpha_num r
    then (closed ++ r ∷ [], false)
    else (closed ++ b'_' ∷ [], false)

-- The first loop
unfoldable pub convert : Option ℕ → Bytes → Bytes × Bool → Bytes
unfolding convert_one
convert before [] state = state.0
convert before (r ∷ s) state = convert (some r) s (convert_one before r state)

-- strings.Trim of the separator, at the left and at the right.
unfoldable pub trim_left : Bytes → Bytes
trim_left [] = []
trim_left (c ∷ s) = if c == b'_' then trim_left s else c ∷ s

unfoldable pub trim_right : Bytes → Bytes
unfolding is_empty
trim_right [] = []
trim_right (c ∷ s) = let rest = trim_right s in if c == b'_' && is_empty rest then [] else c ∷ rest

-- The second loop; the flag is `repeatingSeparator`.
unfoldable pub normalize : Bool → Bytes → Bytes
unfolding is_lower_alpha_num
normalize repeating [] = []
normalize repeating (r ∷ s) =
    let skipped = normalize repeating s in
    let separated = b'_' ∷ normalize true s in
    let written = r ∷ normalize false s in
    if r == b'_' && repeating
    then skipped
    else if r == b'_'
    then separated
    else if not (is_lower_alpha_num r)
    then separated
    else written

-- toSnakeCase
unfoldable pub to_snake_case : Bytes → Bytes
unfolding convert trim_left trim_right normalize
to_snake_case name = normalize false (trim_right (trim_left (convert none name ([], false))))
